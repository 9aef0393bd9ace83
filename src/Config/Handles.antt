-- ===== src/Config/Handles.antt =====
-- The shape that is_handle asks for.
use anolis.Base.{
  ℕ, suc, ◌+◌, ◌≡◌, ◌≢◌, ◌↔◌, refl, sym, ap, subst, ◌∙◌, Bool, true, false, List, [], ◌∷◌, ◌++◌,
  eqb, length, Text, arith, All, inl, inr, Bool-cases,
}
use anolis.Config.{is_handle_from, is_handle}

-- The part that stands first, and those after it, with slashes between them.
abbrev pub join : Text → List Text → Text
join first [] = first
join first (part ∷ parts) = first ++ (47 ∷ join part parts)

abbrev pub NoSlash : Text → Type 0
NoSlash s = All (λ x. eqb x 47 ≡ false) s

abbrev pub IsPart : Text → Type 0
IsPart s = (s ≢ []) × NoSlash s

-- What is left of a handle inside or at the start of a part.
record Split (at_start : Bool) (count parts : ℕ) (s : Text) : Type 0 where
  first : Text
  more : List Text
  first_plain : NoSlash first
  first_given : at_start ≡ true → first ≢ []
  more_parts : All IsPart more
  counted : count + length more ≡ parts
  joined : join first more ≡ s

join-cons : (x : ℕ) (first : Text) (more : List Text) → join (x ∷ first) more ≡ x ∷ join first more
join-cons x first [] = refl
join-cons x first (p ∷ ps) = refl

is_handle_from-Split :
    (at_start : Bool) (count parts : ℕ) (s : Text)
    → is_handle_from at_start count parts s ≡ true
    → Split at_start count parts s
unfolding is_handle_from
is_handle_from-Split at_start count parts [] h = record {
  first = [];
  more = [];
  first_plain = tt;
  first_given = λ e. absurd (ground (arith, h, e));
  more_parts = tt;
  counted = ground (arith, h);
  joined = refl;
}
is_handle_from-Split at_start count parts (x ∷ xs) h = elim (Bool-cases (eqb x 47)) [
  | inl slash ↦
      let r = is_handle_from-Split true (suc count) parts xs (ground (arith, h, slash)) in
      record {
        first = [];
        more = r.first ∷ r.more;
        first_plain = tt;
        first_given = λ e. absurd (ground (arith, h, e, slash));
        more_parts = ((r.first_given refl, r.first_plain), r.more_parts);
        counted = ground (arith, r.counted);
        joined = ground (arith, r.joined, slash);
      }
  | inr plain ↦
      let r = is_handle_from-Split false count parts xs (ground (arith, h, plain)) in
      record {
        first = x ∷ r.first;
        more = r.more;
        first_plain = (plain, r.first_plain);
        first_given = λ _ e. cc;
        more_parts = r.more_parts;
        counted = r.counted;
        joined = join-cons x r.first r.more ∙ ap (λ t. x ∷ t) r.joined;
      }
]

Split-is_handle_from :
    (at_start : Bool) (count parts : ℕ) (first : Text) (more : List Text)
    → NoSlash first
    → (at_start ≡ true → first ≢ [])
    → All IsPart more
    → count + length more ≡ parts
    → is_handle_from at_start count parts (join first more) ≡ true
unfolding is_handle_from
Split-is_handle_from true count parts [] more n g a c = absurd (g refl refl)
Split-is_handle_from false count parts [] [] n g a c = ground (arith, c)
Split-is_handle_from false count parts [] (m ∷ more) n g a c =
    Split-is_handle_from true (suc count) parts m more a.0.1 (λ _. a.0.0) a.1 (ground (arith, c))
Split-is_handle_from at_start count parts (x ∷ first) more n g a c =
    subst (λ t. is_handle_from at_start count parts t ≡ true) (sym (join-cons x first more))
      (ground (arith, n.0, Split-is_handle_from false count parts first more n.1 (λ e. cc) a c))

-- A text is a handle of so many parts exactly when it is that many texts, none empty and none with a
-- slash, joined by slashes.
pub handle_exact :
    (value : Text) (parts : ℕ)
    → (is_handle value parts ≡ true) ↔ (
        (first : Text) × ((more : List Text) × (IsPart first
            × (All IsPart more × ((1 + length more ≡ parts) × (join first more ≡ value))))))
unfolding is_handle
handle_exact value parts = (
  λ h.
      let r = is_handle_from-Split true 1 parts value h in
      (
        r.first,
        (r.more, ((r.first_given refl, r.first_plain), (r.more_parts, (r.counted, r.joined)))),
      ),
  λ (first, (more, (part, (all, (count, joined))))).
      subst (λ t. is_handle_from true 1 parts t ≡ true) joined
        (Split-is_handle_from true 1 parts first more part.1 (λ _. part.0) all count),
)

-- ===== src/Router/Arguments/Coercion.antt =====
-- Coercion changes the representation of an integer and never the number.
use anolis.Base.{
  ◌-◌, ◌≤◌, ◌≡◌, refl, sym, ap, subst, ◌∙◌, false, ◌||◌, Option, none, some, arith, List, [], ◌∷◌,
  inl, inr, ◌⊎◌, Option-cases, Text, text_key, Map, find, assign, find-assign, ℤ, pos, negsuc,
  pos_part, neg_part, ltb_ℤ, text_eq_iff, Bool-cases, text_eq,
}
use anolis.Protocol.{
  Doubles, Value, ValueType, type_int64, type_uint64, type_double, Kind, int64_value, uint64_value,
  double_value, ArgSpec,
}
use anolis.Router.{Result, ok, err, ok-injective, guard_ok, bind_ok, ◌>>=◌}
use anolis.Router.Arguments.{
  max_exact_double, to_uint64, to_int64, to_double, coerce_value, coerce_arguments,
}

unsigned_of : (n : ℤ) → ltb_ℤ n (pos 0) ≡ false → pos (pos_part n) ≡ n
unsigned_of (pos n) h = refl
unsigned_of (negsuc n) h = absurd (ground arith)

exact_of :
    (n : ℤ)
    → (ltb_ℤ (pos max_exact_double) n || ltb_ℤ n (negsuc (max_exact_double - 1))) ≡ false
    → (pos_part n ≤ max_exact_double) × (neg_part n ≤ max_exact_double)
exact_of (pos n) h = ground arith
exact_of (negsuc n) h = ground arith

bind_elim {ℓ κ} :
    {A : Type ℓ} {B : Type κ} (m : Result A) (f : A → Result B)
    → elim m [ err c e ↦ err c e | ok a ↦ f a ] ≡ (m >>= f)
bind_elim (ok a) f = refl
bind_elim (err c e) f = refl

module _ {D : Doubles} where
  open D use {Double, of_ℤ}

  -- The integer that an integer value holds.
  abbrev pub int_of : Kind D → Option ℤ
  int_of (int64_value n) = some n
  int_of (uint64_value n) = some (pos n)
  int_of _ = none

  -- A double's integer lies in the range in which every integer is a double.
  abbrev pub Denotes : Kind D → ℤ → Type 0
  Denotes (int64_value m) n = m ≡ n
  Denotes (uint64_value m) n = pos m ≡ n
  Denotes (double_value d) n =
      (d ≡ of_ℤ n) × (pos_part n ≤ max_exact_double) × (neg_part n ≤ max_exact_double)
  Denotes _ n = ⊥

  -- The same value, or the integer of the first in another representation.
  abbrev pub SameNumber : Kind D → Kind D → Type 0
  SameNumber k k' = (k ≡ k') ⊎ ((n : ℤ) × (int_of k ≡ some n) × Denotes k' n)

  abbrev SameValue : Value D → Value D → Type 0
  SameValue v v' = SameNumber v.kind v'.kind

  to_uint64-SameNumber :
      (name : Text) (v v' : Value D) (k : Kind D)
      → v.kind ≡ k
      → to_uint64 name v k ≡ ok v'
      → SameNumber k v'.kind
  unfolding to_uint64
  to_uint64-SameNumber name v v' (int64_value raw) h e =
      let (small, same) = guard_ok _ _ _ _ _ e in
      inr (raw, refl, subst (λ w. Denotes w.kind raw) same (unsigned_of raw small))
  to_uint64-SameNumber name v v' k h e = inl (sym h ∙ ap (λ w. w.kind) (ok-injective e))

  to_int64-SameNumber :
      (name : Text) (v v' : Value D) (k : Kind D)
      → v.kind ≡ k
      → to_int64 name v k ≡ ok v'
      → SameNumber k v'.kind
  unfolding to_int64
  to_int64-SameNumber name v v' (uint64_value raw) h e =
      inr (pos raw, refl, subst (λ w. Denotes w.kind (pos raw)) (guard_ok _ _ _ _ _ e).1 refl)
  to_int64-SameNumber name v v' k h e = inl (sym h ∙ ap (λ w. w.kind) (ok-injective e))

  to_double-SameNumber :
      (name : Text) (v v' : Value D) (k : Kind D)
      → v.kind ≡ k
      → to_double name v k ≡ ok v'
      → SameNumber k v'.kind
  unfolding to_double
  to_double-SameNumber name v v' (int64_value raw) h e =
      let (small, same) = guard_ok _ _ _ _ _ e in
      inr (
        raw,
        refl,
        subst (λ w. Denotes w.kind raw) same (refl, (exact_of raw small).0, (exact_of raw small).1),
      )
  to_double-SameNumber name v v' (uint64_value raw) h e =
      let (small, same) = guard_ok _ _ _ _ _ e in
      inr (
        pos raw,
        refl,
        subst (λ w. Denotes w.kind (pos raw)) same (refl, ground arith, ground arith),
      )
  to_double-SameNumber name v v' k h e = inl (sym h ∙ ap (λ w. w.kind) (ok-injective e))

  coerce_value-SameNumber :
      (name : Text) (type : ValueType) (v v' : Value D)
      → coerce_value name type v ≡ ok v'
      → SameValue v v'
  unfolding coerce_value
  coerce_value-SameNumber name type_uint64 v v' e = to_uint64-SameNumber name v v' v.kind refl e
  coerce_value-SameNumber name type_int64 v v' e = to_int64-SameNumber name v v' v.kind refl e
  coerce_value-SameNumber name type_double v v' e = to_double-SameNumber name v v' v.kind refl e
  coerce_value-SameNumber name type v v' e = inl (ap (λ w. w.kind) (ok-injective e))

  one_number : (k : Kind D) (m n : ℤ) → int_of k ≡ some m → Denotes k n → m ≡ n
  one_number (int64_value a) m n h d = cc
  one_number (uint64_value a) m n h d = cc
  one_number k m n h d = cc

  SameNumber-trans : (a b c : Kind D) → SameNumber a b → SameNumber b c → SameNumber a c
  SameNumber-trans a b c (inl p) q = subst (λ k. SameNumber k c) (sym p) q
  SameNumber-trans a b c (inr p) (inl q) = subst (λ k. SameNumber a k) q (inr p)
  SameNumber-trans a b c (inr (n, h, d)) (inr (m, h', d')) =
      inr (n, h, subst (Denotes c) (one_number b m n h' d) d')

  -- An argument that is absent stays absent, one that is given keeps its number.
  abbrev pub KeepsNumber : Option (Value D) → Option (Value D) → Type 0
  KeepsNumber none none = Unit
  KeepsNumber (some v) (some v') = SameValue v v'
  KeepsNumber _ _ = ⊥

  KeepsNumber-refl : (o : Option (Value D)) → KeepsNumber o o
  KeepsNumber-refl none = tt
  KeepsNumber-refl (some v) = inl refl

  KeepsNumber-trans :
      (a b c : Option (Value D)) → KeepsNumber a b → KeepsNumber b c → KeepsNumber a c
  KeepsNumber-trans none none none p q = tt
  KeepsNumber-trans (some a) (some b) (some c) p q = SameNumber-trans a.kind b.kind c.kind p q
  KeepsNumber-trans none none (some c) p q = absurd q
  KeepsNumber-trans none (some b) c p q = absurd p
  KeepsNumber-trans (some a) none c p q = absurd p
  KeepsNumber-trans (some a) (some b) none p q = absurd q

  assign-KeepsNumber :
      (key name : Text) (v v' : Value D) (args : Map Text (Value D))
      → find key args ≡ some v
      → SameValue v v'
      → KeepsNumber (find name args) (find name (assign key v' args))
  assign-KeepsNumber key name v v' args h same = elim (Bool-cases (text_eq key name)) [
    | inl t ↦
        subst (λ j. KeepsNumber (find j args) (find j (assign key v' args)))
          ((text_eq_iff key name).0 t)
          (rw (h, find-assign key key v' args, (text_eq_iff key key).1 refl) same)
    | inr f ↦ rw (find-assign key name v' args, f) (KeepsNumber-refl (find name args))
  ]

  coerce_absent :
      (spec : ArgSpec D) (specs : List (ArgSpec D)) (args : Map Text (Value D))
      → find spec.arg_name args ≡ none
      → coerce_arguments (spec ∷ specs) args ≡ coerce_arguments specs args
  unfolding coerce_arguments
  coerce_absent spec specs args h = rw (h, coerce_arguments) refl

  coerce_given :
      (spec : ArgSpec D) (specs : List (ArgSpec D)) (args : Map Text (Value D)) (v : Value D)
      → find spec.arg_name args ≡ some v
      → coerce_arguments (spec ∷ specs) args ≡ (
          coerce_value spec.arg_name spec.arg_type v >>= λ v'.
          coerce_arguments specs (assign spec.arg_name v' args))
  unfolding coerce_arguments
  coerce_given spec specs args v h =
      rw (h, coerce_arguments) (bind_elim (coerce_value spec.arg_name spec.arg_type v) _)

  -- A coercion that succeeds neither adds nor drops an argument, and every argument keeps its value or
  -- has the same integer in another representation: as a double only where it is exact.
  pub coerce_arguments_keeps :
      (specs : List (ArgSpec D)) (args args' : Map Text (Value D)) (name : Text)
      → coerce_arguments specs args ≡ ok args'
      → KeepsNumber (find name args) (find name args')
  unfolding coerce_arguments
  coerce_arguments_keeps [] args args' name e =
      subst (λ m. KeepsNumber (find name args) (find name m)) (ok-injective e)
        (KeepsNumber-refl (find name args))
  coerce_arguments_keeps (spec ∷ specs) args args' name e =
      elim (Option-cases (find spec.arg_name args)) [
        | inl absent ↦
            coerce_arguments_keeps specs args args' name
              (sym (coerce_absent spec specs args absent) ∙ e)
        | inr (v, given) ↦
            let (v', coerced, rest) =
              bind_ok _ _ _ (sym (coerce_given spec specs args v given) ∙ e) in
            KeepsNumber-trans _ _ _
              (assign-KeepsNumber spec.arg_name name v v' args given
                (coerce_value-SameNumber spec.arg_name spec.arg_type v v' coerced))
              (coerce_arguments_keeps specs (assign spec.arg_name v' args) args' name rest)
      ]

-- ===== src/Router/Arguments/Validation.antt =====
-- What validate_arguments accepts, said without the order of its checks.
use anolis.Base.{
  ◌≡◌, ◌↔◌, refl, ◌∙◌, Bool, true, false, ◌&&◌, Option, none, some, Option-cases, arith, List, [],
  ◌∷◌, All, inl, inr, ◌⊎◌, if◌then◌else◌, ltb, Text, text_key, text_eq, Map, find, assign,
  find-assign, contains, is_empty, is_none, ltb_ℤ,
}
use anolis.Protocol.{
  Doubles, Value, ValueType, type_bool, type_int64, type_uint64, type_double, type_string,
  type_bytes, Kind, bool_value, int64_value, uint64_value, double_value, string_value, bytes_value,
  ArgSpec,
}
use anolis.Router.{ok}
use anolis.Router.Arguments.{
  is_known_type, check_bounds, kind_is, validate_argument_type, validate_argument_range,
  range_check, spec_map, check_required, check_given, validate_arguments,
}

abbrev Lower {ℓ} : {A : Type ℓ} → (A → A → Bool) → Option A → A → Type 0
Lower lt none v = Unit
Lower lt (some m) v = lt v m ≡ false

abbrev Upper {ℓ} : {A : Type ℓ} → (A → A → Bool) → Option A → A → Type 0
Upper lt none v = Unit
Upper lt (some m) v = lt m v ≡ false

check_bounds_iff {ℓ} :
    {A : Type ℓ} (lt : A → A → Bool) (low high : Option A) (v : A)
    → (check_bounds lt low high v ≡ none) ↔ (Lower lt low v × Upper lt high v)
unfolding check_bounds
check_bounds_iff lt none none v = ground arith
check_bounds_iff lt none (some h) v = ground arith
check_bounds_iff lt (some l) none v = ground arith
check_bounds_iff lt (some l) (some h) v = ground arith

module _ {D : Doubles} where
  open D use {Double, double_lt}

  -- A value of the declared type, within the declared bounds, or among the allowed texts.
  abbrev pub Accepts : ValueType → ArgSpec D → Kind D → Type 0
  Accepts type_bool spec (bool_value b) = Unit
  Accepts type_int64 spec (int64_value n) =
      Lower ltb_ℤ spec.min_int64 n × Upper ltb_ℤ spec.max_int64 n
  Accepts type_uint64 spec (uint64_value n) =
      Lower ltb spec.min_uint64 n × Upper ltb spec.max_uint64 n
  Accepts type_double spec (double_value d) =
      Lower double_lt spec.min_double d × Upper double_lt spec.max_double d
  Accepts type_string spec (string_value s) =
      (is_empty spec.allowed_values ≡ true) ⊎ (contains s spec.allowed_values ≡ true)
  Accepts type_bytes spec (bytes_value s) = Unit
  Accepts _ spec k = ⊥

  validate_argument_type_iff :
      (spec : ArgSpec D) (v : Value D)
      → (validate_argument_type spec v ≡ none)
        ↔ ((is_known_type spec.arg_type && kind_is spec.arg_type v.kind) ≡ true)
  unfolding validate_argument_type
  validate_argument_type_iff spec v = ground arith

  Accepts-iff :
      (type : ValueType) (spec : ArgSpec D) (k : Kind D)
      → (((is_known_type type && kind_is type k) ≡ true) × (range_check type spec k ≡ none))
        ↔ Accepts type spec k
  unfolding range_check
  Accepts-iff type_int64 spec (int64_value n) =
      let bounds = check_bounds_iff ltb_ℤ spec.min_int64 spec.max_int64 n in
      ((λ h. bounds.0 h.1), (λ h. (refl, bounds.1 h)))
  Accepts-iff type_uint64 spec (uint64_value n) =
      let bounds = check_bounds_iff ltb spec.min_uint64 spec.max_uint64 n in
      ((λ h. bounds.0 h.1), (λ h. (refl, bounds.1 h)))
  Accepts-iff type_double spec (double_value d) =
      let bounds = check_bounds_iff double_lt spec.min_double spec.max_double d in
      ((λ h. bounds.0 h.1), (λ h. (refl, bounds.1 h)))
  Accepts-iff type_string spec (string_value s) = ground arith
  Accepts-iff type_bool spec (bool_value b) = ((λ h. tt), (λ h. (refl, refl)))
  Accepts-iff type_bytes spec (bytes_value s) = ((λ h. tt), (λ h. (refl, refl)))
  Accepts-iff type spec k = ((λ h. cc), (λ h. absurd h))

  -- The last declaration of a name.
  unfoldable pub last_named : Text → List (ArgSpec D) → Option (ArgSpec D)
  last_named name [] = none
  last_named name (spec ∷ specs) = elim (last_named name specs) [
    | some later ↦ some later
    | none ↦ if text_eq spec.arg_name name then some spec else none
  ]

  find-spec_map :
      (name : Text) (specs : List (ArgSpec D)) (m : Map Text (ArgSpec D))
      → find name (spec_map specs m)
        ≡ elim (last_named name specs) [ some spec ↦ some spec | none ↦ find name m ]
  unfolding spec_map last_named
  find-spec_map name [] m = refl
  find-spec_map name (spec ∷ specs) m = ground (
    arith,
    find-spec_map name specs (assign spec.arg_name spec m),
    find-assign spec.arg_name name spec m,
  )

  -- What an argument needs: a declaration, by the last one of its name, that accepts its value.
  abbrev pub Declared : List (ArgSpec D) → Text × Value D → Type 0
  Declared specs (name, v) =
      (spec : ArgSpec D) × (last_named name specs ≡ some spec) × Accepts spec.arg_type spec v.kind

  abbrev pub Supplied : Map Text (Value D) → ArgSpec D → Type 0
  Supplied args spec = (spec.required ≡ false) ⊎ (is_none (find spec.arg_name args) ≡ false)

  check_required_iff :
      (specs : List (ArgSpec D)) (args : Map Text (Value D))
      → (check_required specs args ≡ none) ↔ All (Supplied args) specs
  unfolding check_required
  check_required_iff [] args = ((λ h. tt), (λ h. refl))
  check_required_iff (spec ∷ specs) args = ground (arith, check_required_iff specs args)

  declared-accepted :
      (spec : ArgSpec D) (v : Value D)
      → ((validate_argument_type spec v ≡ none) × (validate_argument_range spec v ≡ none))
        ↔ Accepts spec.arg_type spec v.kind
  unfolding validate_argument_range
  declared-accepted spec v =
      let (there, back) = validate_argument_type_iff spec v in
      let (to, from) = Accepts-iff spec.arg_type spec v.kind in
      ((λ h. to (there h.0, h.1)), (λ h. let (t, r) = from h in (back t, r)))

  check_given-found :
      (m : Map Text (ArgSpec D)) (name : Text) (v : Value D) (args : Map Text (Value D))
      (spec : ArgSpec D)
      → find name m ≡ some spec
      → (check_given m ((name, v) ∷ args) ≡ none) ↔ (
          ((validate_argument_type spec v ≡ none) × (validate_argument_range spec v ≡ none))
          × (check_given m args ≡ none))
  unfolding check_given
  check_given-found m name v args spec h = ground arith

  check_given-missing :
      (m : Map Text (ArgSpec D)) (name : Text) (v : Value D) (args : Map Text (Value D))
      → find name m ≡ none
      → (check_given m ((name, v) ∷ args) ≡ none)
      → ⊥
  unfolding check_given
  check_given-missing m name v args h e = ground arith

  validate_arguments_lem :
      (specs : List (ArgSpec D)) (args : Map Text (Value D))
      → (validate_arguments specs args ≡ ok tt)
        ↔ ((check_required specs args ≡ none) × (check_given (spec_map specs []) args ≡ none))
  unfolding validate_arguments
  validate_arguments_lem specs args = ground arith

  find-spec_map_empty :
      (name : Text) (specs : List (ArgSpec D))
      → find name (spec_map specs []) ≡ last_named name specs
  unfolding find
  find-spec_map_empty name specs = elim (Option-cases (last_named name specs)) [
    | inl missing ↦ find-spec_map name specs [] ∙ rw missing refl
    | inr (spec, found) ↦ find-spec_map name specs [] ∙ rw found refl
  ]

  check_given_iff :
      (specs : List (ArgSpec D)) (args : Map Text (Value D))
      → (check_given (spec_map specs []) args ≡ none) ↔ All (Declared specs) args
  unfolding check_given
  check_given_iff specs [] = ((λ h. tt), (λ h. refl))
  check_given_iff specs ((name, v) ∷ args) = (
    λ h. elim (Option-cases (last_named name specs)) [
      | inl missing ↦ absurd (
          check_given-missing (spec_map specs []) name v args
            (find-spec_map_empty name specs ∙ missing) h)
      | inr (spec, found) ↦
          let (here, rest) =
            (check_given-found (spec_map specs []) name v args spec
                (find-spec_map_empty name specs ∙ found)).0
              h in
          ((spec, found, (declared-accepted spec v).0 here), (check_given_iff specs args).0 rest)
    ],
    λ ((spec, found, accepted), rest).
        (check_given-found (spec_map specs []) name v args spec
            (find-spec_map_empty name specs ∙ found)).1
          ((declared-accepted spec v).1 accepted, (check_given_iff specs args).1 rest),
  )

  -- Validation succeeds exactly when every required argument is given and every given argument has a
  -- declaration, the last one of its name, whose type is the value's and whose bounds or allowed texts
  -- contain it.
  pub validate_arguments_exact :
      (specs : List (ArgSpec D)) (args : Map Text (Value D))
      → (validate_arguments specs args ≡ ok tt)
        ↔ (All (Supplied args) specs × All (Declared specs) args)
  validate_arguments_exact specs args =
      let (there, back) = check_required_iff specs args in
      let (to, from) = check_given_iff specs args in
      let (split, join) = validate_arguments_lem specs args in
      ((λ h. (there (split h).0, to (split h).1)), (λ h. join (back h.0, from h.1)))

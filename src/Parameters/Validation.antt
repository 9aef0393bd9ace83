-- ===== src/Parameters/Validation.antt =====
-- What ParameterDef::validate accepts.
use anolis.Base.{
  ◌≡◌, ◌↔◌, refl, Bool, true, false, none, some, List, Text, contains, text_key, arith, ℤ,
  Option-cases, inl, inr,
}
use anolis.Protocol.{Doubles}
use anolis.SafeState.{
  ParameterValue, parameter_double, parameter_int64, parameter_bool, parameter_string,
}
use anolis.Parameters.{
  ParameterType, double_parameter, int64_parameter, bool_parameter, string_parameter, ParameterDef,
  numeric_of, validate, parameter_value_matches_type, check_range, check_allowed,
}

module _ {D : Doubles} where
  open D use {Double, of_ℤ, double_lt}

  -- Not below the one bound nor above the other, where there is one.
  pub record InRange (def : ParameterDef D) (x : Double) : Type 0 where
    pub above_min : (low : Double) → def.def_min ≡ some low → double_lt x low ≡ false
    pub below_max : (high : Double) → def.def_max ≡ some high → double_lt high x ≡ false

  -- The alternative is that of the declared type, a number lies in the range, and a text is one of the
  -- allowed ones, where they are given.
  pub data Accepts (def : ParameterDef D) : ParameterValue D → Type 0 where
    double_accepted :
        (x : Double)
        → def.def_type ≡ double_parameter
        → InRange def x
        → Accepts def (parameter_double x)
    int64_accepted :
        (n : ℤ)
        → def.def_type ≡ int64_parameter
        → InRange def (of_ℤ n)
        → Accepts def (parameter_int64 n)
    bool_accepted : (b : Bool) → def.def_type ≡ bool_parameter → Accepts def (parameter_bool b)
    string_accepted :
        (s : Text)
        → def.def_type ≡ string_parameter
        → ((allowed : List Text) → def.def_allowed ≡ some allowed → contains s allowed ≡ true)
        → Accepts def (parameter_string s)

  InRange-check :
      (def : ParameterDef D) (v : ParameterValue D) (x : Double)
      → numeric_of v ≡ some x
      → check_range def v ≡ none
      → InRange def x
  unfolding check_range
  InRange-check def v x e h = record {
    above_min = λ low is_low. ground (arith, e, h, is_low);
    below_max = λ high is_high. ground (arith, e, h, is_high);
  }

  range-InRange :
      (def : ParameterDef D) (v : ParameterValue D) (x : Double)
      → numeric_of v ≡ some x
      → InRange def x
      → check_range def v ≡ none
  unfolding check_range
  range-InRange def v x e h = elim (Option-cases def.def_min) [
    | inl no_low ↦ elim (Option-cases def.def_max) [
      | inl no_high ↦ ground (arith, e, no_low, no_high)
      | inr (high, is_high) ↦ ground (arith, e, no_low, is_high, h.below_max high is_high)
    ]
    | inr (low, is_low) ↦ elim (Option-cases def.def_max) [
      | inl no_high ↦ ground (arith, e, is_low, no_high, h.above_min low is_low)
      | inr (high, is_high) ↦
          ground (arith, e, is_low, is_high, h.above_min low is_low, h.below_max high is_high)
    ]
  ]

  abbrev pub type_for : ParameterValue D → ParameterType
  type_for (parameter_double x) = double_parameter
  type_for (parameter_int64 n) = int64_parameter
  type_for (parameter_bool b) = bool_parameter
  type_for (parameter_string s) = string_parameter

  pub matches-type_for :
      (t : ParameterType) (v : ParameterValue D)
      → (parameter_value_matches_type t v ≡ true) ↔ (t ≡ type_for v)
  unfolding parameter_value_matches_type
  matches-type_for t v = ground arith

  -- The three checks that a valid value passes.
  validate_parts :
      (def : ParameterDef D) (v : ParameterValue D)
      → validate def v ≡ none
      → (parameter_value_matches_type def.def_type v ≡ true)
        × (check_range def v ≡ none)
        × (check_allowed def v ≡ none)
  unfolding validate
  validate_parts def v h = ground (arith, h)

  validate-Accepts :
      (def : ParameterDef D) (v : ParameterValue D) → validate def v ≡ none → Accepts def v
  unfolding check_allowed
  validate-Accepts def (parameter_double x) h =
      let (typed, ranged, _) = validate_parts def (parameter_double x) h in
      double_accepted x ((matches-type_for def.def_type _).0 typed)
        (InRange-check def _ x refl ranged)
  validate-Accepts def (parameter_int64 n) h =
      let (typed, ranged, _) = validate_parts def (parameter_int64 n) h in
      int64_accepted n ((matches-type_for def.def_type _).0 typed)
        (InRange-check def _ (of_ℤ n) refl ranged)
  validate-Accepts def (parameter_bool b) h =
      let (typed, _, _) = validate_parts def (parameter_bool b) h in
      bool_accepted b ((matches-type_for def.def_type _).0 typed)
  validate-Accepts def (parameter_string s) h =
      let (typed, _, listed) = validate_parts def (parameter_string s) h in
      string_accepted s ((matches-type_for def.def_type _).0 typed)
        (λ allowed e. ground (arith, listed, e))

  Accepts-validate :
      {def : ParameterDef D} {v : ParameterValue D} → Accepts def v → validate def v ≡ none
  unfolding validate parameter_value_matches_type check_allowed
  Accepts-validate {def} (double_accepted x e r) =
      ground (arith, e, range-InRange def (parameter_double x) x refl r)
  Accepts-validate {def} (int64_accepted n e r) =
      ground (arith, e, range-InRange def (parameter_int64 n) (of_ℤ n) refl r)
  Accepts-validate {def} (bool_accepted b e) = rw e refl
  Accepts-validate {def} (string_accepted s e r) = elim (Option-cases def.def_allowed) [
    | inl no_list ↦ ground (arith, e, no_list)
    | inr (allowed, is_list) ↦ ground (arith, e, is_list, r allowed is_list)
  ]

  -- A value is valid for a parameter exactly when its type is the declared one, it is a number not out
  -- of the range, a text that the list of allowed ones has, where there is a list, or a bool.
  pub validate_exact :
      (def : ParameterDef D) (v : ParameterValue D) → (validate def v ≡ none) ↔ Accepts def v
  validate_exact def v = (validate-Accepts def v, Accepts-validate)

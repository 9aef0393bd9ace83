-- ===== src/Router/Arguments.antt =====
-- The arguments of a call: coerce_arguments, validate_arguments and the two checks of one value.
-- An int64_t is an integer, a uint64_t a ℕ; `numeric_limits` and kMaxExactDouble are written out.
pub mod Coercion
pub mod Validation
use anolis.Base.{
  ℕ, ◌-◌, ◌^◌, Bool, true, false, not, ◌&&◌, ◌||◌, Option, none, some, List, [], ◌∷◌, if◌then◌else◌,
  ltb, Text, text_key, text_eq, Map, find, assign, contains, is_empty, ℤ, pos, negsuc, pos_part,
  ltb_ℤ, is_none,
}
use anolis.Protocol.{
  StatusCode, code_invalid_argument, Doubles, Value, ValueType, type_bool, type_int64, type_uint64,
  type_double, type_string, type_bytes, type_other, Kind, unset, bool_value, int64_value,
  uint64_value, double_value, string_value, bytes_value, ArgSpec, get_double, get_int64, get_uint64,
  get_string,
}
use anolis.Router.{
  CallError, negative_for_uint64, beyond_int64, not_exact_double, missing_required,
  unknown_argument, bad_argument, ValueError, unknown_type, type_mismatch, below_minimum,
  above_maximum, not_allowed, Result, ok, err, ◌>>=◌,
}

abbrev pub max_exact_double : ℕ
max_exact_double = 9007199254740992

abbrev pub int64_max : ℕ
int64_max = 9223372036854775807

abbrev pub is_known_type : ValueType → Bool
is_known_type (type_other _) = false
is_known_type _ = true

-- `has_min && val < min`, then `has_max && val > max`.
unfoldable pub check_bounds {ℓ} :
    {A : Type ℓ} → (A → A → Bool) → Option A → Option A → A → Option ValueError
check_bounds lt low high v =
    if elim low [ none ↦ false | some m ↦ lt v m ]
    then some below_minimum
    else if elim high [ none ↦ false | some m ↦ lt m v ]
    then some above_maximum
    else none

module _ {D : Doubles} where
  open D use {Double, of_ℤ, double_lt, double_zero}

  abbrev pub refused_coercion : CallError → Result (Value D)
  refused_coercion e = err code_invalid_argument e

  -- The cases of the switch on the declared type, for the kind of value that is set.
  unfoldable pub to_uint64 : Text → Value D → Kind D → Result (Value D)
  to_uint64 name v (int64_value raw) =
      if ltb_ℤ raw (pos 0)
      then refused_coercion (negative_for_uint64 name raw)
      else ok (record { value_type = type_uint64; kind = uint64_value (pos_part raw) })
  to_uint64 name v _ = ok v

  unfoldable pub to_int64 : Text → Value D → Kind D → Result (Value D)
  to_int64 name v (uint64_value raw) =
      if ltb int64_max raw
      then refused_coercion (beyond_int64 name (pos raw))
      else ok (record { value_type = type_int64; kind = int64_value (pos raw) })
  to_int64 name v _ = ok v

  unfoldable pub to_double : Text → Value D → Kind D → Result (Value D)
  to_double name v (int64_value raw) =
      if ltb_ℤ (pos max_exact_double) raw || ltb_ℤ raw (negsuc (max_exact_double - 1))
      then refused_coercion (not_exact_double name raw)
      else ok (record { value_type = type_double; kind = double_value (of_ℤ raw) })
  to_double name v (uint64_value raw) =
      if ltb max_exact_double raw
      then refused_coercion (not_exact_double name (pos raw))
      else ok (record { value_type = type_double; kind = double_value (of_ℤ (pos raw)) })
  to_double name v _ = ok v

  unfoldable pub coerce_value : Text → ValueType → Value D → Result (Value D)
  unfolding to_uint64 to_int64 to_double
  coerce_value name type_uint64 v = to_uint64 name v v.kind
  coerce_value name type_int64 v = to_int64 name v v.kind
  coerce_value name type_double v = to_double name v v.kind
  coerce_value name _ v = ok v

  -- The pass over the function's declared arguments; the map is changed in place.
  unfoldable pub coerce_arguments :
      List (ArgSpec D) → Map Text (Value D) → Result (Map Text (Value D))
  coerce_arguments [] args = ok args
  coerce_arguments (spec ∷ specs) args = elim (find spec.arg_name args) [
    | none ↦ coerce_arguments specs args
    | some v ↦ elim (coerce_value spec.arg_name spec.arg_type v) [
      | err c e ↦ err c e
      | ok v' ↦ coerce_arguments specs (assign spec.arg_name v' args)
    ]
  ]

  -- has_bool_value() and its like.
  abbrev pub kind_is : ValueType → Kind D → Bool
  kind_is type_bool (bool_value _) = true
  kind_is type_int64 (int64_value _) = true
  kind_is type_uint64 (uint64_value _) = true
  kind_is type_double (double_value _) = true
  kind_is type_string (string_value _) = true
  kind_is type_bytes (bytes_value _) = true
  kind_is _ _ = false

  unfoldable pub validate_argument_type : ArgSpec D → Value D → Option ValueError
  validate_argument_type spec v =
      if not (is_known_type spec.arg_type)
      then some unknown_type
      else if kind_is spec.arg_type v.kind
      then none
      else some (type_mismatch spec.arg_type v.value_type)

  unfoldable pub range_check : ValueType → ArgSpec D → Kind D → Option ValueError
  unfolding check_bounds
  range_check type_double spec k =
      check_bounds double_lt spec.min_double spec.max_double (get_double k)
  range_check type_int64 spec k = check_bounds ltb_ℤ spec.min_int64 spec.max_int64 (get_int64 k)
  range_check type_uint64 spec k = check_bounds ltb spec.min_uint64 spec.max_uint64 (get_uint64 k)
  range_check type_string spec k =
      if not (is_empty spec.allowed_values) && not (contains (get_string k) spec.allowed_values)
      then some not_allowed
      else none
  range_check _ spec k = none

  unfoldable pub validate_argument_range : ArgSpec D → Value D → Option ValueError
  unfolding range_check
  validate_argument_range spec v = range_check spec.arg_type spec v.kind

  -- spec_map: the last declaration of a name wins.
  unfoldable pub spec_map : List (ArgSpec D) → Map Text (ArgSpec D) → Map Text (ArgSpec D)
  spec_map [] m = m
  spec_map (spec ∷ specs) m = spec_map specs (assign spec.arg_name spec m)

  unfoldable pub check_required : List (ArgSpec D) → Map Text (Value D) → Option CallError
  check_required [] args = none
  check_required (spec ∷ specs) args =
      let rest = check_required specs args in
      if spec.required && is_none (find spec.arg_name args)
      then some (missing_required spec.arg_name)
      else rest

  unfoldable pub check_given : Map Text (ArgSpec D) → Map Text (Value D) → Option CallError
  check_given specs [] = none
  check_given specs ((name, v) ∷ args) =
      let rest = check_given specs args in
      elim (find name specs) [
        | none ↦ some (unknown_argument name)
        | some spec ↦ elim (validate_argument_type spec v) [
          | some e ↦ some (bad_argument name e)
          | none ↦ elim (validate_argument_range spec v) [
            | some e ↦ some (bad_argument name e)
            | none ↦ rest
          ]
        ]
      ]

  unfoldable pub validate_arguments : List (ArgSpec D) → Map Text (Value D) → Result (Unit {0})
  unfolding spec_map check_required check_given
  validate_arguments specs args = elim (check_required specs args) [
    | some e ↦ err code_invalid_argument e
    | none ↦ elim (check_given (spec_map specs []) args) [
      | some e ↦ err code_invalid_argument e
      | none ↦ ok tt
    ]
  ]

-- ===== src/Parameters.antt =====
-- core/automation/{parameter_types.hpp,parameter_value_bridge.hpp,parameter_manager.hpp,
-- parameter_manager.cpp}: the typed parameters of the automation. Each method is one critical section
-- of the manager's lock; `set` calls its listeners after it, with the values that it took inside.
pub mod Validation
pub mod Histories
pub mod Threads
use anolis.Base.{
  ℕ, ◌^◌, ◌-◌, Bool, true, false, not, ◌&&◌, ◌||◌, Option, none, some, List, [], ◌∷◌, ◌++◌,
  if◌then◌else◌, ltb, length, map, Text, codes, text_eq, text_key, Map, find, assign, contains, ℤ,
  pos, ltb_ℤ, is_none,
}
use anolis.Protocol.{Doubles}
use anolis.SafeState.{
  ParameterValue, parameter_double, parameter_int64, parameter_bool, parameter_string,
}

pub data ParameterType : Type 0 where
  double_parameter int64_parameter bool_parameter string_parameter : ParameterType

unfoldable pub parameter_type_to_string : ParameterType → Text
parameter_type_to_string double_parameter = codes "double"
parameter_type_to_string int64_parameter = codes "int64"
parameter_type_to_string bool_parameter = codes "bool"
parameter_type_to_string string_parameter = codes "string"

unfoldable pub parameter_type_from_string : Text → Option ParameterType
parameter_type_from_string name =
    if text_eq name (codes "double")
    then some double_parameter
    else if text_eq name (codes "int64")
    then some int64_parameter
    else if text_eq name (codes "bool")
    then some bool_parameter
    else if text_eq name (codes "string")
    then some string_parameter
    else none

pub data ParameterError : Type 0 where
  type_mismatch : ParameterType → Text → ParameterError
  below_minimum above_maximum not_allowed not_found : ParameterError

-- events::TypedValue, with the double itself.
pub data Typed (D : Doubles) : Type 0 where
  as_double : D.Double → Typed D
  as_int64 : ℤ → Typed D
  as_uint64 : ℕ → Typed D
  as_bool : Bool → Typed D
  as_string : Text → Typed D

pub record ParameterDef (D : Doubles) : Type 0 where
  pub def_type : ParameterType
  pub def_value : ParameterValue D
  pub def_min : Option D.Double
  pub def_max : Option D.Double
  pub def_allowed : Option (List Text)
  pub set_by_operator : Bool

-- A callback is known by a number.
pub record ParameterManager (D : Doubles) : Type 0 where
  pub parameters : Map Text (ParameterDef D)
  pub callbacks : List ℕ

pub record ParameterChange (D : Doubles) : Type 0 where
  pub change_name : Text
  pub old_value : ParameterValue D
  pub new_value : ParameterValue D

-- The result of `set`, with what each callback is called with.
pub record SetResult (D : Doubles) : Type 0 where
  pub manager : ParameterManager D
  pub refused : Option ParameterError
  pub calls : List (ℕ × ParameterChange D)

module _ {D : Doubles} where
  open D use {Double, of_ℤ, double_lt, double_eq}

  unfoldable pub parameter_value_type_name : ParameterValue D → Text
  parameter_value_type_name (parameter_double x) = codes "double"
  parameter_value_type_name (parameter_int64 n) = codes "int64"
  parameter_value_type_name (parameter_bool b) = codes "bool"
  parameter_value_type_name (parameter_string s) = codes "string"

  unfoldable pub parameter_value_matches_type : ParameterType → ParameterValue D → Bool
  parameter_value_matches_type double_parameter (parameter_double x) = true
  parameter_value_matches_type int64_parameter (parameter_int64 n) = true
  parameter_value_matches_type bool_parameter (parameter_bool b) = true
  parameter_value_matches_type string_parameter (parameter_string s) = true
  parameter_value_matches_type _ _ = false

  unfoldable pub parameter_value_to_typed_value : ParameterValue D → Typed D
  parameter_value_to_typed_value (parameter_double x) = as_double x
  parameter_value_to_typed_value (parameter_int64 n) = as_int64 n
  parameter_value_to_typed_value (parameter_bool b) = as_bool b
  parameter_value_to_typed_value (parameter_string s) = as_string s

  unfoldable pub parameter_value_from_typed_value : Typed D → Option (ParameterValue D)
  parameter_value_from_typed_value (as_double x) = some (parameter_double x)
  parameter_value_from_typed_value (as_int64 n) = some (parameter_int64 n)
  parameter_value_from_typed_value (as_bool b) = some (parameter_bool b)
  parameter_value_from_typed_value (as_string s) = some (parameter_string s)
  parameter_value_from_typed_value (as_uint64 n) =
      if ltb (2 ^ 63 - 1) n then none else some (parameter_int64 (pos n))

  -- What the range check compares, for a parameter of a number type.
  abbrev pub numeric_of : ParameterValue D → Option Double
  numeric_of (parameter_double x) = some x
  numeric_of (parameter_int64 n) = some (of_ℤ n)
  numeric_of (parameter_bool b) = none
  numeric_of (parameter_string s) = none

  abbrev pub is_below : ParameterDef D → Double → Bool
  is_below def x = elim def.def_min as (λ _. Bool) [ none ↦ false | some low ↦ double_lt x low ]

  abbrev pub is_above : ParameterDef D → Double → Bool
  is_above def x = elim def.def_max as (λ _. Bool) [ none ↦ false | some high ↦ double_lt high x ]

  unfoldable pub check_range : ParameterDef D → ParameterValue D → Option ParameterError
  check_range def v = elim (numeric_of v) [
    | none ↦ none
    | some x ↦
        if is_below def x
        then some below_minimum
        else if is_above def x
        then some above_maximum
        else none
  ]

  unfoldable pub check_allowed : ParameterDef D → ParameterValue D → Option ParameterError
  unfolding contains
  check_allowed def (parameter_string s) = elim def.def_allowed [
    | none ↦ none
    | some allowed ↦ if contains s allowed then none else some not_allowed
  ]
  check_allowed def _ = none

  -- ParameterDef::validate.
  unfoldable pub validate : ParameterDef D → ParameterValue D → Option ParameterError
  unfolding parameter_value_matches_type check_range check_allowed
  validate def v =
      if not (parameter_value_matches_type def.def_type v)
      then some (type_mismatch def.def_type (parameter_value_type_name v))
      else elim (check_range def v) [ some e ↦ some e | none ↦ check_allowed def v ]

  unfoldable pub define :
      ParameterManager D
      → Text
      → ParameterType
      → ParameterValue D
      → Option Double
      → Option Double
      → Option (List Text)
      → ParameterManager D × Bool
  unfolding find assign validate
  define m name type value low high allowed =
      let def : ParameterDef D = record {
        def_type = type;
        def_value = value;
        def_min = low;
        def_max = high;
        def_allowed = allowed;
        set_by_operator = false;
      } in
      elim (find name m.parameters) [
        | some _ ↦ (m, false)
        | none ↦ elim (validate def value) [
          | some _ ↦ (m, false)
          | none ↦ (record m { parameters = assign name def m.parameters }, true)
        ]
      ]

  -- `old_val == new_val` of two alternatives of the variant.
  unfoldable pub same_value : ParameterValue D → ParameterValue D → Bool
  same_value (parameter_double x) (parameter_double y) = double_eq x y
  same_value (parameter_int64 n) (parameter_int64 k) = not (ltb_ℤ n k) && not (ltb_ℤ k n)
  same_value (parameter_bool a) (parameter_bool b) = (a && b) || (not a && not b)
  same_value (parameter_string s) (parameter_string t) = text_eq s t
  same_value _ _ = false

  abbrev pub stored :
      ParameterManager D → Text → ParameterDef D → ParameterValue D → ParameterManager D
  unfolding assign
  stored m name def v = record m {
    parameters = assign name (record def { def_value = v; set_by_operator = true }) m.parameters;
  }

  abbrev pub change_of : Text → ParameterDef D → ParameterValue D → ParameterChange D
  change_of name def v = record { change_name = name; old_value = def.def_value; new_value = v }

  unfoldable pub set : ParameterManager D → Text → ParameterValue D → SetResult D
  unfolding find assign validate same_value
  set m name v = elim (find name m.parameters) [
    | none ↦ record { manager = m; refused = some not_found; calls = [] }
    | some def ↦ elim (validate def v) [
      | some e ↦ record { manager = m; refused = some e; calls = [] }
      | none ↦
          if same_value def.def_value v
          then record { manager = m; refused = none; calls = [] }
          else record {
            manager = stored m name def v;
            refused = none;
            calls = map (λ c. (c, change_of name def v)) m.callbacks;
          }
    ]
  ]

  unfoldable pub get : ParameterManager D → Text → Option (ParameterValue D)
  unfolding find
  get m name = elim (find name m.parameters) [ none ↦ none | some def ↦ some def.def_value ]

  unfoldable pub get_double : ParameterManager D → Text → Double → Double
  unfolding get
  get_double m name default = elim (get m name) [ some (parameter_double x) ↦ x | _ ↦ default ]

  unfoldable pub get_int64 : ParameterManager D → Text → ℤ → ℤ
  unfolding get
  get_int64 m name default = elim (get m name) [ some (parameter_int64 n) ↦ n | _ ↦ default ]

  unfoldable pub get_bool : ParameterManager D → Text → Bool → Bool
  unfolding get
  get_bool m name default = elim (get m name) [ some (parameter_bool b) ↦ b | _ ↦ default ]

  unfoldable pub get_string : ParameterManager D → Text → Text → Text
  unfolding get
  get_string m name default = elim (get m name) [ some (parameter_string s) ↦ s | _ ↦ default ]

  unfoldable pub get_definition : ParameterManager D → Text → Option (ParameterDef D)
  unfolding find
  get_definition m name = find name m.parameters

  unfoldable pub on_parameter_change : ParameterManager D → ℕ → ParameterManager D
  on_parameter_change m callback = record m { callbacks = m.callbacks ++ callback ∷ [] }

  unfoldable pub has_parameter : ParameterManager D → Text → Bool
  unfolding find
  has_parameter m name = not (is_none (find name m.parameters))

  unfoldable pub parameter_count : ParameterManager D → ℕ
  parameter_count m = length m.parameters

  abbrev pub new_manager : ParameterManager D
  new_manager = record { parameters = []; callbacks = [] }

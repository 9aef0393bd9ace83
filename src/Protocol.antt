-- ===== src/Protocol.antt =====
-- The names that the program uses of the protocol's generated enumerations (protocol.pb.h): status
-- codes, value types, signal qualities and function categories. `other` is any value that the
-- program does not name.
use anolis.Base.{ℕ, Bool, true, false, ℤ, pos, Option, List, [], Text, eqb}

pub data StatusCode : Type 0 where
  code_ok code_invalid_argument code_not_found code_failed_precondition code_unavailable :
      StatusCode
  code_deadline_exceeded code_internal code_resource_exhausted code_out_of_range : StatusCode
  code_other : ℕ → StatusCode

abbrev pub is_code_unavailable : StatusCode → Bool
is_code_unavailable code_unavailable = true
is_code_unavailable _ = false

abbrev pub is_code_deadline_exceeded : StatusCode → Bool
is_code_deadline_exceeded code_deadline_exceeded = true
is_code_deadline_exceeded _ = false

pub data ValueType : Type 0 where
  type_bool type_int64 type_uint64 type_double type_string type_bytes : ValueType
  type_other : ℕ → ValueType

-- FunctionPolicy_Category.
pub data Category : Type 0 where
  category_unspecified category_read category_actuate category_config : Category
  category_other : ℕ → Category

-- SignalValue_Quality.
pub data SignalQuality : Type 0 where
  signal_unspecified signal_ok signal_stale signal_fault signal_unknown : SignalQuality
  signal_other : ℕ → SignalQuality

abbrev pub quality_eq : SignalQuality → SignalQuality → Bool
quality_eq signal_unspecified signal_unspecified = true
quality_eq signal_ok signal_ok = true
quality_eq signal_stale signal_stale = true
quality_eq signal_fault signal_fault = true
quality_eq signal_unknown signal_unknown = true
quality_eq (signal_other a) (signal_other b) = eqb a b
quality_eq _ _ = false

-- What the registry of providers says of one: get_provider() and is_available().
pub data ProviderState : Type 0 where
  no_provider unavailable available : ProviderState

-- C++ `double`, and what the program does with one: the conversion of an integer, the order, the
-- value 0.0 that an absent field reads as, and the 64 bits.
pub record Doubles : Type 1 where
  pub Double : Type 0
  pub of_ℤ : ℤ → Double
  pub double_lt : Double → Double → Bool
  pub double_zero : Double
  pub double_bits : Double → ℕ
  pub double_eq : Double → Double → Bool

-- The oneof of a protobuf Value, and the message with its `type` field.
pub data Kind (D : Doubles) : Type 0 where
  unset : Kind D
  bool_value : Bool → Kind D
  int64_value : ℤ → Kind D
  uint64_value : ℕ → Kind D
  double_value : D.Double → Kind D
  string_value : Text → Kind D
  bytes_value : Text → Kind D

pub record Value (D : Doubles) : Type 0 where
  pub value_type : ValueType
  pub kind : Kind D

-- ArgSpec: the bounds are optional fields.
pub record ArgSpec (D : Doubles) : Type 0 where
  pub arg_name : Text
  pub arg_type : ValueType
  pub required : Bool
  pub min_double : Option D.Double
  pub max_double : Option D.Double
  pub min_int64 : Option ℤ
  pub max_int64 : Option ℤ
  pub min_uint64 : Option ℕ
  pub max_uint64 : Option ℕ
  pub allowed_values : List Text

abbrev pub type_eq : ValueType → ValueType → Bool
type_eq type_bool type_bool = true
type_eq type_int64 type_int64 = true
type_eq type_uint64 type_uint64 = true
type_eq type_double type_double = true
type_eq type_string type_string = true
type_eq type_bytes type_bytes = true
type_eq (type_other a) (type_other b) = eqb a b
type_eq _ _ = false

module _ {D : Doubles} where
  open D use {Double, double_zero}

  -- The accessors of the oneof: 0, false or the empty text where another member is set.
  abbrev pub get_double : Kind D → Double
  get_double (double_value d) = d
  get_double _ = double_zero

  abbrev pub get_int64 : Kind D → ℤ
  get_int64 (int64_value n) = n
  get_int64 _ = pos 0

  abbrev pub get_uint64 : Kind D → ℕ
  get_uint64 (uint64_value n) = n
  get_uint64 _ = 0

  abbrev pub get_string : Kind D → Text
  get_string (string_value s) = s
  get_string _ = []

  abbrev pub get_bool : Kind D → Bool
  get_bool (bool_value b) = b
  get_bool _ = false

  abbrev pub get_bytes : Kind D → Text
  get_bytes (bytes_value s) = s
  get_bytes _ = []

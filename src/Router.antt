-- ===== src/Router.antt =====
-- core/control/call_router.{hpp,cpp}: requests and results of the control path, and what a refusal
-- says. The error texts are values with the parts that the text is built from; only those of the
-- selector's resolution are built as texts, since execute_call searches them.
pub mod Arguments
pub mod Selector
pub mod Checks
pub mod Execute
use anolis.Base.{◌≡◌, refl, ap, true, false, if◌then◌else◌, ℕ, Bool, Option, List, Text, Map, ℤ}
use anolis.Protocol.{StatusCode, ValueType, Value, Doubles}

pub record CallRequest (D : Doubles) : Type 0 where
  pub device_handle : Text
  pub function_id : ℕ
  pub function_name : Text
  pub request_args : Map Text (Value D)
  pub is_automated : Bool
  pub is_behavior_tree : Bool
  pub safe_state : Bool
  pub fault_entry_hook : Bool

-- Why one argument's value is not accepted: std::string error of validate_argument_type and
-- validate_argument_range.
pub data ValueError : Type 0 where
  unknown_type : ValueError
  type_mismatch : ValueType → ValueType → ValueError
  below_minimum above_maximum not_allowed : ValueError

pub data CallError : Type 0 where
  blocked_in_idle blocked_in_auto : CallError
  bad_handle_format empty_handle_part : Text → CallError
  provider_not_found provider_not_available : Text → CallError
  device_not_found : CallError
  selector_error : Text → CallError
  mode_not_allowed : Text → List Text → Text → CallError
  latched_by_estop not_rearmed : CallError
  negative_for_uint64 beyond_int64 not_exact_double : Text → ℤ → CallError
  missing_required unknown_argument : Text → CallError
  bad_argument : Text → ValueError → CallError
  too_soon : Text → ℕ → ℕ → CallError
  provider_failed : Text → CallError

pub data Result {ℓ} (A : Type ℓ) : Type ℓ where
  ok : A → Result A
  err : StatusCode → CallError → Result A

infixr 5 ◌>>=◌ ◌>>◌
abbrev pub ◌>>=◌ {ℓ κ} : {A : Type ℓ} {B : Type κ} → Result A → (A → Result B) → Result B
ok a >>= f = f a
err c e >>= f = err c e

abbrev pub ◌>>◌ {ℓ} : {B : Type ℓ} → Result (Unit {0}) → Result B → Result B
m >> k = m >>= λ _. k

abbrev pub is_ok {ℓ} : {A : Type ℓ} → Result A → Bool
is_ok (ok _) = true
is_ok (err _ _) = false

abbrev pub ok_or {ℓ} : {A : Type ℓ} → A → Result A → A
ok_or d (ok a) = a
ok_or d (err _ _) = d

pub ok-injective {ℓ} : {A : Type ℓ} {a b : A} → ok a ≡ ok b → a ≡ b
ok-injective {a} e = ap (ok_or a) e

-- A chain succeeds only through each of its steps.
pub bind_ok {ℓ κ} :
    {A : Type ℓ} {B : Type κ} (m : Result A) (f : A → Result B) (b : B)
    → (m >>= f) ≡ ok b
    → (a : A) × (m ≡ ok a) × (f a ≡ ok b)
bind_ok (ok a) f b h = (a, refl, h)
bind_ok (err c e) f b h = cc

pub ok-is_ok {ℓ} : {A : Type ℓ} (m : Result A) → is_ok m ≡ true → (a : A) × (m ≡ ok a)
ok-is_ok (ok a) h = (a, refl)
ok-is_ok (err c e) h = cc

-- A guarded success was not refused.
pub guard_ok {ℓ} :
    {A : Type ℓ} (t : Bool) (c : StatusCode) (e : CallError) (a b : A)
    → (if t then err c e else ok a) ≡ ok b
    → (t ≡ false) × (a ≡ b)
guard_ok true c e a b h = cc
guard_ok false c e a b h = (refl, ok-injective h)

pub record CallResult (D : Doubles) : Type 0 where
  pub success : Bool
  pub error_message : Option CallError
  pub results : Map Text (Value D)
  pub status_code : StatusCode
  pub dispatched : Bool

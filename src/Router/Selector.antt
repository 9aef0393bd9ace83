-- ===== src/Router/Selector.antt =====
-- Which device and which function a request names: parse_device_handle, validate_function_exists,
-- resolve_function_spec, and the status that execute_call derives from the error's text.
pub mod Resolution
use anolis.Base.{
  ℕ, Bool, true, false, not, ◌&&◌, ◌||◌, Option, none, some, List, [], ◌∷◌, ◌++◌, if◌then◌else◌,
  eqb, Text, codes, text_eq, text_key, Map, find, is_empty, has_part, to_string,
}
use anolis.Protocol.{Doubles, StatusCode, code_invalid_argument, code_not_found, Value}
use anolis.Registry.{FunctionSpec, RegisteredDevice, get_handle}
use anolis.Router.{
  CallRequest, CallError, bad_handle_format, empty_handle_part, selector_error, Result, ok, err,
}

-- The part before the first '/' and the part after it.
unfoldable pub split_slash : Text → Option (Text × Text)
split_slash [] = none
split_slash (c ∷ s) = if eqb c 47 then some ([], s) else elim (split_slash s) [
  | none ↦ none
  | some (provider_id, device_id) ↦ some (c ∷ provider_id, device_id)
]

unfoldable pub parse_device_handle : Text → Result (Text × Text)
unfolding split_slash
parse_device_handle handle = elim (split_slash handle) [
  | none ↦ err code_invalid_argument (bad_handle_format handle)
  | some (provider_id, device_id) ↦
      if is_empty provider_id || is_empty device_id
      then err code_invalid_argument (empty_handle_part handle)
      else ok (provider_id, device_id)
]

-- resolve_function_spec either finds a function, by the name it is listed under, or says why not.
pub data Selection (D : Doubles) : Type 0 where
  selected : Text → FunctionSpec D → Selection D
  unresolved : Text → Selection D

-- NOT_FOUND when the error's text has "not found" in it.
unfoldable pub selector_status : Text → StatusCode
unfolding has_part
selector_status error =
    if has_part error (codes "not found") then code_not_found else code_invalid_argument

unfoldable pub mismatch_error : ℕ → Text → Text → Text
unfolding to_string
mismatch_error function_id name requested =
    codes "Function selector mismatch: function_id "
    ++ (to_string function_id
        ++ (codes " maps to '" ++ (name ++ (codes "', not '" ++ (requested ++ codes "'")))))

module _ {D : Doubles} where
  -- The first entry with the id, in the map's order.
  unfoldable pub find_by_id : ℕ → Map Text (FunctionSpec D) → Option (Text × FunctionSpec D)
  find_by_id i [] = none
  find_by_id i ((name, spec) ∷ m) =
      if eqb spec.spec_function_id i then some (name, spec) else find_by_id i m

  unfoldable pub validate_function_exists : RegisteredDevice D → Text → Selection D
  validate_function_exists device name = elim (find name device.functions_by_id) [
    | none ↦
        unresolved
          (codes "Function not found: " ++ (name ++ (codes " on device " ++ get_handle device)))
    | some spec ↦ selected name spec
  ]

  unfoldable pub resolve_by_id : RegisteredDevice D → ℕ → Text → Selection D
  unfolding find_by_id mismatch_error to_string
  resolve_by_id device function_id requested =
      elim (find_by_id function_id device.functions_by_id) [
        | none ↦ unresolved (codes "Function ID not found: " ++ to_string function_id)
        | some (name, spec) ↦
            if not (is_empty requested) && not (text_eq requested name)
            then unresolved (mismatch_error function_id name requested)
            else selected name spec
      ]

  unfoldable pub resolve_function_spec : RegisteredDevice D → CallRequest D → Selection D
  unfolding resolve_by_id validate_function_exists
  resolve_function_spec device request =
      if not (eqb request.function_id 0)
      then resolve_by_id device request.function_id request.function_name
      else if is_empty request.function_name
      then unresolved (codes "Missing function selector (function_id or function_name)")
      else validate_function_exists device request.function_name

  -- The resolution in execute_call, with its status.
  unfoldable pub resolve_call : RegisteredDevice D → CallRequest D → Result (Text × FunctionSpec D)
  unfolding resolve_function_spec selector_status
  resolve_call device request = elim (resolve_function_spec device request) [
    | selected name spec ↦ ok (name, spec)
    | unresolved error ↦ err (selector_status error) (selector_error error)
  ]

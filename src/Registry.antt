-- ===== src/Registry.antt =====
-- core/registry/device_registry.{hpp,cpp}: the published inventory and its index by handle. Each
-- method is one critical section of the registry's lock. The discovery that builds an inventory from
-- the provider's answers is left out. A device's two maps stand for its DeviceCapabilitySet.
pub mod Index
use anolis.Base.{
  ℕ, zero, suc, ◌+◌, Bool, true, false, not, Option, none, some, List, [], ◌∷◌, ◌++◌, if◌then◌else◌,
  Text, codes, text_eq, text_key, Map, find, assign, keep, get_elem?, length,
}
use anolis.Protocol.{Doubles, ArgSpec, Category, category_read, ValueType}

pub record SignalSpec (D : Doubles) : Type 0 where
  pub signal_id : Text
  pub signal_label : Text
  pub unit : Text
  pub description : Text
  pub signal_type : ValueType
  pub readable : Bool
  pub writable : Bool
  pub is_default : Bool
  pub stale_after_ms : ℕ
  pub poll_hint_hz : D.Double

pub record FunctionSpec (D : Doubles) : Type 0 where
  pub spec_function_id : ℕ
  pub spec_function_name : Text
  pub label : Text
  pub args : List (ArgSpec D)
  pub category : Category
  pub allowed_modes : List Text
  pub min_interval_ms : ℕ
  pub requires_lease : Bool

pub record RegisteredDevice (D : Doubles) : Type 0 where
  pub provider_id : Text
  pub device_id : Text
  pub signals_by_id : Map Text (SignalSpec D)
  pub functions_by_id : Map Text (FunctionSpec D)

pub record DeviceRegistry (D : Doubles) : Type 0 where
  pub devices : List (RegisteredDevice D)
  pub handle_to_index : Map Text ℕ

abbrev pub join_handle : Text → Text → Text
join_handle provider_id device_id = provider_id ++ (codes "/" ++ device_id)

abbrev pub is_category_read : Category → Bool
is_category_read category_read = true
is_category_read _ = false

module _ {D : Doubles} where
  unfoldable pub is_actuating : FunctionSpec D → Bool
  is_actuating spec = not (is_category_read spec.category)

  abbrev pub get_handle : RegisteredDevice D → Text
  get_handle device = join_handle device.provider_id device.device_id

  -- `handle_to_index_[devices_[i].get_handle()] = i` for each i from `i` on.
  unfoldable pub index_from : ℕ → List (RegisteredDevice D) → Map Text ℕ → Map Text ℕ
  index_from i [] index = index
  index_from i (device ∷ rest) index = index_from (suc i) rest (assign (get_handle device) i index)

  unfoldable pub reindexed : List (RegisteredDevice D) → DeviceRegistry D
  unfolding index_from
  reindexed devices = record { devices = devices; handle_to_index = index_from 0 devices [] }

  abbrev pub without_provider : Text → List (RegisteredDevice D) → List (RegisteredDevice D)
  without_provider provider_id = keep (λ device. not (text_eq device.provider_id provider_id))

  unfoldable pub commit_provider_devices :
      DeviceRegistry D → Text → List (RegisteredDevice D) → Bool → DeviceRegistry D
  unfolding reindexed
  commit_provider_devices r provider_id discovered replace_existing = reindexed (
      (if replace_existing then without_provider provider_id r.devices else r.devices)
      ++ discovered)

  unfoldable pub clear_provider_devices : DeviceRegistry D → Text → DeviceRegistry D
  unfolding reindexed
  clear_provider_devices r provider_id = reindexed (without_provider provider_id r.devices)

  -- `devices_[it->second]`: `none` where the handle is unknown, and also where the index would lie
  -- out of bounds.
  unfoldable pub get_device_by_handle_copy : DeviceRegistry D → Text → Option (RegisteredDevice D)
  get_device_by_handle_copy r handle = elim (find handle r.handle_to_index) [
    | none ↦ none
    | some index ↦ get_elem? r.devices index
  ]

  unfoldable pub get_device_copy : DeviceRegistry D → Text → Text → Option (RegisteredDevice D)
  unfolding get_device_by_handle_copy
  get_device_copy r provider_id device_id =
      get_device_by_handle_copy r (join_handle provider_id device_id)

  unfoldable pub get_devices_for_provider : DeviceRegistry D → Text → List (RegisteredDevice D)
  get_devices_for_provider r provider_id =
      keep (λ device. text_eq device.provider_id provider_id) r.devices

  unfoldable pub device_count : DeviceRegistry D → ℕ
  device_count r = length r.devices

  unfoldable pub get_all_devices : DeviceRegistry D → List (RegisteredDevice D)
  get_all_devices r = r.devices

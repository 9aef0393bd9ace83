-- ===== src/Registry/Index.antt =====
-- The index and the inventory agree.
use mathlib.Core.List.{append-nil, append_assoc}
use anolis.Base.{
  ℕ, suc, ◌≡◌, refl, sym, ap, ◌∙◌, Bool, Option, none, some, arith, List, [], ◌∷◌, ◌++◌,
  if◌then◌else◌, Text, text_eq_iff, text_key, ◌==◌, Map, find, assign, find-assign, get_elem?,
  length, length-append,
}
use anolis.Protocol.{Doubles}
use anolis.Registry.{
  RegisteredDevice, DeviceRegistry, get_handle, index_from, reindexed, without_provider,
  commit_provider_devices, clear_provider_devices, get_device_by_handle_copy,
}

module _ {D : Doubles} where
  -- The specification of a lookup: the last device of the inventory that has the handle.
  abbrev pub last_with : Text → List (RegisteredDevice D) → Option (RegisteredDevice D)
  last_with handle [] = none
  last_with handle (device ∷ rest) = elim (last_with handle rest) [
    | some found ↦ some found
    | none ↦ if get_handle device == handle then some device else none
  ]

  abbrev lookup_in : List (RegisteredDevice D) → Map Text ℕ → Text → Option (RegisteredDevice D)
  lookup_in devices index handle = elim (find handle index) [
    | none ↦ none
    | some i ↦ get_elem? devices i
  ]

  last_with-append_one :
      (handle : Text) (pre : List (RegisteredDevice D)) (device : RegisteredDevice D)
      → last_with handle (pre ++ device ∷ [])
        ≡ (if get_handle device == handle then some device else last_with handle pre)
  last_with-append_one handle [] device = refl
  last_with-append_one handle (d ∷ pre) device =
      ground (arith, last_with-append_one handle pre device)

  get_elem?-append_length :
      (pre rest : List (RegisteredDevice D)) (device : RegisteredDevice D)
      → get_elem? (pre ++ device ∷ rest) (length pre) ≡ some device
  get_elem?-append_length [] rest device = refl
  get_elem?-append_length (d ∷ pre) rest device = get_elem?-append_length pre rest device

  -- The index is right for the devices of `pre`; those of `rest` are still to be entered.
  indexed_step :
      (all pre rest : List (RegisteredDevice D)) (device : RegisteredDevice D) (n : ℕ)
      (index : Map Text ℕ) (handle : Text)
      → get_elem? all n ≡ some device
      → lookup_in all index handle ≡ last_with handle pre
      → lookup_in all (assign (get_handle device) n index) handle
        ≡ last_with handle (pre ++ device ∷ [])
  indexed_step all pre rest device n index handle here right = ground (
    arith,
    find-assign (get_handle device) handle n index,
    last_with-append_one handle pre device,
  )

  index_from-lem :
      (all rest pre : List (RegisteredDevice D)) (n : ℕ) (index : Map Text ℕ)
      → all ≡ pre ++ rest
      → n ≡ length pre
      → ((handle : Text) → lookup_in all index handle ≡ last_with handle pre)
      → (handle : Text) → lookup_in all (index_from n rest index) handle ≡ last_with handle all
  unfolding index_from
  index_from-lem all [] pre n index whole count right handle =
      right handle ∙ ap (last_with handle) (sym (whole ∙ append-nil pre))
  index_from-lem all (device ∷ rest) pre n index whole count right handle =
      index_from-lem all rest (pre ++ device ∷ []) (suc n) (assign (get_handle device) n index)
        (whole ∙ sym (append_assoc pre (device ∷ []) rest))
        (omega (arith, length-append pre (device ∷ [])))
        (λ h.
          indexed_step all pre rest device n index h
            (rw (whole, count) (get_elem?-append_length pre rest device)) (right h))
        handle

  reindexed-lookup :
      (devices : List (RegisteredDevice D)) (handle : Text)
      → get_device_by_handle_copy (reindexed devices) handle ≡ last_with handle devices
  unfolding get_device_by_handle_copy reindexed find
  reindexed-lookup devices handle =
      index_from-lem devices devices [] 0 [] refl refl (λ h. refl) handle

  last_with-append :
      (handle : Text) (xs ys : List (RegisteredDevice D))
      → last_with handle (xs ++ ys)
        ≡ elim (last_with handle ys) [ some found ↦ some found | none ↦ last_with handle xs ]
  last_with-append handle [] ys = ground arith
  last_with-append handle (x ∷ xs) ys = ground (arith, last_with-append handle xs ys)

  -- Publishing an inventory: a lookup by handle finds the last device of the new inventory that has
  -- the handle, and if that has none, what stood in the registry before, less the provider's own
  -- devices when they are replaced.
  pub commit_provider_devices-lookup :
      (r : DeviceRegistry D) (provider : Text) (discovered : List (RegisteredDevice D))
      (replace : Bool) (handle : Text)
      → get_device_by_handle_copy (commit_provider_devices r provider discovered replace) handle
        ≡ elim (last_with handle discovered) [
          | some found ↦ some found
          | none ↦
              last_with handle (if replace then without_provider provider r.devices else r.devices)
        ]
  unfolding commit_provider_devices
  commit_provider_devices-lookup r provider discovered replace handle =
      let kept = if replace then without_provider provider r.devices else r.devices in
      reindexed-lookup (kept ++ discovered) handle ∙ last_with-append handle kept discovered

  -- Every device that a lookup finds has the handle that was asked for.
  last_with-handle :
      (handle : Text) (devices : List (RegisteredDevice D)) (device : RegisteredDevice D)
      → last_with handle devices ≡ some device
      → get_handle device ≡ handle
  last_with-handle handle [] device e = cc
  last_with-handle handle (d ∷ devices) device e =
      ground (arith, last_with-handle handle devices device, text_eq_iff (get_handle d) handle)

  -- A registry that was filled by publishing and clearing only.
  pub data Published : DeviceRegistry D → Type 0 where
    opened : Published (reindexed [])
    committed :
        {r : DeviceRegistry D} (provider : Text) (discovered : List (RegisteredDevice D))
        (replace : Bool)
        → Published r
        → Published (commit_provider_devices r provider discovered replace)
    cleared :
        {r : DeviceRegistry D} (provider : Text)
        → Published r
        → Published (clear_provider_devices r provider)

  -- In a registry filled by publishing and clearing, a lookup by handle gives the last of its
  -- devices with that handle.
  pub Published-lookup :
      {r : DeviceRegistry D}
      → Published r
      → (handle : Text) → get_device_by_handle_copy r handle ≡ last_with handle r.devices
  unfolding commit_provider_devices clear_provider_devices
  Published-lookup opened handle = reindexed-lookup [] handle
  Published-lookup (committed provider discovered replace p) handle = reindexed-lookup _ handle
  Published-lookup (cleared provider p) handle = reindexed-lookup _ handle

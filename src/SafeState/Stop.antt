-- ===== src/SafeState/Stop.antt =====
-- The software stop over restarts of the runtime: the controller with the disk that its latch is kept on.
use anolis.Base.{◌≡◌, Bool, true, false, Option, none, some, List, [], ◌∷◌, Text, ℤ}
use anolis.Protocol.{Doubles}
use anolis.LatchStore.{
  Disk, ReadFault, exists_fails, load, SaveEnd, saves, directory_sync_fails, crash_after_rename,
  save, RemoveEnd, removes, remove,
}
use anolis.SafeState.Controller.{
  SafeStateController, Effect, saved, removed_record, called, entered_fault, Plant, new_controller,
  attach_latch_store, trigger, clear, hold,
}

-- A call of the controller, with how its write of the record ends, or a restart of the process on the
-- same disk.
pub data StopOp (D : Doubles) : Type 0 where
  triggers : Text → ℤ → Plant D → Bool → SaveEnd → StopOp D
  clears : Option (Option Text) → RemoveEnd → StopOp D
  holds : Text → ℤ → SaveEnd → StopOp D
  restarts : ℤ → ReadFault → StopOp D

pub record Machine : Type 0 where
  pub controller : SafeStateController
  pub disk : Disk

-- The record reaches its place on disk, durably or not.
abbrev pub puts_record : SaveEnd → Bool
puts_record saves = true
puts_record directory_sync_fails = true
puts_record crash_after_rename = true
puts_record _ = false

abbrev pub has_file : Disk → Bool
has_file disk = elim disk.file [ none ↦ false | some _ ↦ true ]

abbrev pub can_check : ReadFault → Bool
can_check exists_fails = false
can_check _ = true

module _ {D : Doubles} where
  abbrev pub IsSaved : StopOp D → Type 0
  IsSaved (triggers _ _ _ _ how) = puts_record how ≡ true
  IsSaved (holds _ _ how) = puts_record how ≡ true
  IsSaved (restarts _ fault) = can_check fault ≡ true
  IsSaved (clears _ _) = Unit {0}

-- The first start: a store is attached and there is nothing on disk.
abbrev pub first_start : Machine
first_start = record {
  controller = record new_controller { has_store = true };
  disk = record { file = none; tmp = none };
}

module _ (D : Doubles) (config_dir : Text) where
  -- The effects on the disk.
  unfoldable pub on_disk : SaveEnd → RemoveEnd → List (Effect D) → Disk → Disk
  unfolding save remove
  on_disk how how' [] disk = disk
  on_disk how how' (saved at reason ∷ effects) disk =
      on_disk how how' effects (save config_dir at reason disk how).0
  on_disk how how' (removed_record ∷ effects) disk = on_disk how how' effects (remove disk how').0
  on_disk how how' (called _ ∷ effects) disk = on_disk how how' effects disk
  on_disk how how' (entered_fault _ ∷ effects) disk = on_disk how how' effects disk

  unfoldable pub stop_step : Machine → StopOp D → Machine
  unfolding on_disk trigger clear hold attach_latch_store load
  stop_step m (triggers reason now plant fault_ok how) =
      let (c, (_, effects)) = trigger m.controller reason now plant fault_ok in
      record { controller = c; disk = on_disk how removes effects m.disk }
  stop_step m (clears guard how) =
      let (c, (_, effects)) = clear {D = D} m.controller guard in
      record { controller = c; disk = on_disk saves how effects m.disk }
  stop_step m (holds reason now how) =
      let (c, effects) = hold {D = D} m.controller reason now in
      record { controller = c; disk = on_disk how removes effects m.disk }
  stop_step m (restarts now fault) = record {
    controller = attach_latch_store new_controller (some (load config_dir m.disk fault)) now;
    disk = m.disk;
  }

  unfoldable pub stop_steps : Machine → List (StopOp D) → Machine
  unfolding stop_step
  stop_steps m [] = m
  stop_steps m (op ∷ ops) = stop_steps (stop_step m op) ops

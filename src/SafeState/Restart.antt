-- ===== src/SafeState/Restart.antt =====
-- A stop is not lost by a restart.
use anolis.Base.{
  ◌≡◌, ◌≢◌, refl, ap, ◌∙◌, Bool, true, false, Option, none, some, List, [], ◌∷◌, ◌++◌,
  if◌then◌else◌, arith, map, All, Text, ℤ, Option-cases, Bool-cases, inl, inr,
}
use anolis.Protocol.{Doubles}
use anolis.Router.Execute.{Dispatch}
use anolis.LatchStore.{
  Disk, PersistedLatch, PersistedState, absent, unreadable, persisted, ReadFault, reads_well,
  read_fails, exists_fails, directory_fails, write_fails, sync_fails, rename_fails, crash_before,
  crash_writing, crash_before_rename, load, SaveEnd, saves, directory_sync_fails,
  crash_after_rename, save, RemoveEnd, removes,
}
use anolis.LatchStore.Crash.{load_present}
use anolis.SafeState.Ladder.{run_ladder, is_no_rung}
use anolis.SafeState.Controller.{
  SafeStateController, Effect, saved, called, entered_fault, new_controller, attach_latch_store,
  trigger, clear, hold,
}
use anolis.SafeState.Stop.{
  StopOp, triggers, clears, holds, restarts, Machine, on_disk, stop_step, stop_steps, puts_record,
  IsSaved, has_file, can_check, first_start,
}

-- A held latch is on disk.
pub record OnDisk (m : Machine) : Type 0 where
  pub with_store : m.controller.has_store ≡ true
  pub on_file : m.controller.latched ≡ true → has_file m.disk ≡ true

save-has_file :
    (config_dir : Text) (at : ℤ) (reason : Text) (disk : Disk) (how : SaveEnd)
    → puts_record how ≡ true
    → has_file (save config_dir at reason disk how).0 ≡ true
unfolding save
save-has_file dir at reason disk saves h = refl
save-has_file dir at reason disk directory_sync_fails h = refl
save-has_file dir at reason disk crash_after_rename h = refl
save-has_file dir at reason disk directory_fails h = absurd (ground (arith, h))
save-has_file dir at reason disk write_fails h = absurd (ground (arith, h))
save-has_file dir at reason disk sync_fails h = absurd (ground (arith, h))
save-has_file dir at reason disk rename_fails h = absurd (ground (arith, h))
save-has_file dir at reason disk crash_before h = absurd (ground (arith, h))
save-has_file dir at reason disk (crash_writing _) h = absurd (ground (arith, h))
save-has_file dir at reason disk crash_before_rename h = absurd (ground (arith, h))

load_missing :
    (dir : Text) (disk : Disk) (fault : ReadFault)
    → can_check fault ≡ true
    → has_file disk ≡ false
    → (load dir disk fault).persisted_state ≡ absent
unfolding load
load_missing dir disk exists_fails c e = absurd (ground (arith, c))
load_missing dir disk reads_well c e = ground (arith, e)
load_missing dir disk read_fails c e = ground (arith, e)

load_there :
    (dir : Text) (disk : Disk) (fault : ReadFault)
    → has_file disk ≡ true
    → (load dir disk fault).persisted_state ≢ absent
load_there dir disk fault e = elim (Option-cases disk.file) [
  | inl gone ↦ absurd (ground (arith, gone, e))
  | inr (content, there) ↦ load_present dir disk fault content there
]

attach_latched :
    (found : PersistedLatch) (now : ℤ)
    → found.persisted_state ≢ absent
    → (attach_latch_store new_controller (some found) now).latched ≡ true
unfolding attach_latch_store
attach_latched found now h = go found.persisted_state refl
  where
    go :
        (state : PersistedState)
        → found.persisted_state ≡ state
        → (attach_latch_store new_controller (some found) now).latched ≡ true
    go absent e = absurd (h e)
    go unreadable e = rw (e, attach_latch_store) refl
    go persisted e = rw (e, attach_latch_store) refl

attach_absent :
    (found : PersistedLatch) (now : ℤ)
    → found.persisted_state ≡ absent
    → (attach_latch_store new_controller (some found) now).latched ≡ false
unfolding attach_latch_store
attach_absent found now h = rw (h, attach_latch_store) refl

attach_store :
    (found : PersistedLatch) (now : ℤ)
    → (attach_latch_store new_controller (some found) now).has_store ≡ true
unfolding attach_latch_store
attach_store found now = go found.persisted_state refl
  where
    go :
        (state : PersistedState)
        → found.persisted_state ≡ state
        → (attach_latch_store new_controller (some found) now).has_store ≡ true
    go absent e = rw (e, attach_latch_store) refl
    go unreadable e = rw (e, attach_latch_store) refl
    go persisted e = rw (e, attach_latch_store) refl

module _ {D : Doubles} where
  abbrev fault_effect : Bool → Bool → List (Effect D)
  fault_effect b t = if b then entered_fault t ∷ [] else []

module _ (D : Doubles) (config_dir : Text) where
  on_disk_called :
      (how : SaveEnd) (how' : RemoveEnd) (calls : List (Dispatch D)) (fault : List (Effect D))
      (disk : Disk)
      → on_disk D config_dir how how' (map called calls ++ fault) disk
        ≡ on_disk D config_dir how how' fault disk
  unfolding on_disk
  on_disk_called how how' [] fault disk = refl
  on_disk_called how how' (call ∷ calls) fault disk = on_disk_called how how' calls fault disk

  on_disk_fault :
      (how : SaveEnd) (how' : RemoveEnd) (b t : Bool) (disk : Disk)
      → on_disk D config_dir how how' (fault_effect b t) disk ≡ disk
  unfolding on_disk
  on_disk_fault how how' true t disk = refl
  on_disk_fault how how' false t disk = refl

  on_disk_saved :
      (how : SaveEnd) (how' : RemoveEnd) (b : Bool) (now : ℤ) (reason : Text)
      (rest : List (Effect D)) (disk : Disk)
      → b ≡ true
      → puts_record how ≡ true
      → ((d : Disk) → on_disk D config_dir how how' rest d ≡ d)
      → has_file
          (on_disk D config_dir how how' ((if b then saved now reason ∷ [] else []) ++ rest) disk)
        ≡ true
  unfolding on_disk
  on_disk_saved how how' false now reason rest disk e h keeps = absurd (ground (arith, e))
  on_disk_saved how how' true now reason rest disk e h keeps =
      ap has_file (keeps _) ∙ save-has_file config_dir now reason disk how h

  if-OnDisk :
      (b : Bool) (how : SaveEnd) (x y : SafeStateController × List (Effect D)) (disk : Disk)
      → (b ≡ true
          → OnDisk (record { controller = x.0; disk = on_disk D config_dir how removes x.1 disk }))
      → (b ≡ false
          → OnDisk (record { controller = y.0; disk = on_disk D config_dir how removes y.1 disk }))
      → OnDisk (record {
        controller = (if b then x else y).0;
        disk = on_disk D config_dir how removes (if b then x else y).1 disk;
      })
  if-OnDisk true how x y disk p q = p refl
  if-OnDisk false how x y disk p q = q refl

  clear-OnDisk :
      (m : Machine) (guard : Option (Option Text)) (how : RemoveEnd)
      → OnDisk m
      → OnDisk (stop_step D config_dir m (clears guard how))
  unfolding stop_step clear on_disk
  clear-OnDisk m (some (some refusal)) how k = k
  clear-OnDisk m (some none) how k = record {
    with_store = k.with_store;
    on_file = λ h. absurd (ground (arith, h));
  }
  clear-OnDisk m none how k = record {
    with_store = k.with_store;
    on_file = λ h. absurd (ground (arith, h));
  }

  stop_step-OnDisk :
      (m : Machine) (op : StopOp D) → IsSaved op → OnDisk m → OnDisk (stop_step D config_dir m op)
  unfolding stop_step trigger hold
  stop_step-OnDisk m (triggers reason now plant fault_ok how) v k = record {
    with_store = k.with_store;
    on_file = λ _.
        on_disk_saved how removes m.controller.has_store now reason _ m.disk k.with_store v (
          let run = run_ladder plant.devices plant.safety none none plant.seen plant.router in
          λ d.
            on_disk_called how removes run.1.0.dispatched_calls
              (fault_effect m.controller.has_manager (is_no_rung run.0)) d
            ∙ on_disk_fault how removes m.controller.has_manager (is_no_rung run.0) d);
  }
  stop_step-OnDisk m (clears guard how) v k = clear-OnDisk m guard how k
  stop_step-OnDisk m (holds reason now how) v k =
      if-OnDisk m.controller.latched how _ _ m.disk
        (λ t. record {
          with_store = k.with_store;
          on_file = λ h.
              ap has_file (on_disk_fault how removes m.controller.has_manager false m.disk)
              ∙ k.on_file h;
        })
        (λ f. record {
          with_store = k.with_store;
          on_file = λ _.
              on_disk_saved how removes m.controller.has_store now reason _ m.disk k.with_store v
                (on_disk_fault how removes m.controller.has_manager false);
        })
  stop_step-OnDisk m (restarts now fault) v k = record {
    with_store = attach_store (load config_dir m.disk fault) now;
    on_file = λ h. elim (Bool-cases (has_file m.disk)) [
      | inl there ↦ there
      | inr gone ↦ absurd (
          ground (
            arith,
            h,
            attach_absent (load config_dir m.disk fault) now
                (load_missing config_dir m.disk fault v gone),
          ))
    ];
  }

  stop_steps-OnDisk :
      (m : Machine) (ops : List (StopOp D))
      → All IsSaved ops
      → OnDisk m
      → OnDisk (stop_steps D config_dir m ops)
  unfolding stop_steps
  stop_steps-OnDisk m [] v k = k
  stop_steps-OnDisk m (op ∷ ops) v k =
      stop_steps-OnDisk (stop_step D config_dir m op) ops v.1 (stop_step-OnDisk m op v.0 k)

-- A stop is not lost by a restart: from a controller with a store and an empty disk, after any calls,
-- restarts and crashes in which every save puts the record in its place and no restart fails to ask
-- whether the file exists, a latch that is held is held again by the next start, however that reads
-- the file.
pub latch_survives_restart :
    (D : Doubles) (config_dir : Text) (ops : List (StopOp D)) (now : ℤ) (fault : ReadFault)
    → All IsSaved ops
    → (stop_steps D config_dir first_start ops).controller.latched ≡ true
    → (stop_step D config_dir
        (stop_steps D config_dir first_start ops)
        (restarts now fault)).controller.latched
      ≡ true
unfolding stop_step
latch_survives_restart D config_dir ops now fault v held =
    let kept =
      stop_steps-OnDisk D config_dir first_start ops v
        record { with_store = refl; on_file = λ h. absurd (ground (arith, h)) } in
    attach_latched _ now (
      load_there config_dir (stop_steps D config_dir first_start ops).disk fault
        (kept.on_file held))

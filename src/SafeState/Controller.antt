-- ===== src/SafeState/Controller.antt =====
-- SafeStateController: the latch, its record on disk and the drive to FAULT. The mutex is held over a
-- whole trigger, clear or attachment and over the first part of hold. What a call does outside of the
-- controller is its list of effects, in order; whether a write of the record succeeds is only logged,
-- and is left to the disk's model.
use anolis.Base.{
  ℕ, Bool, true, false, not, ◌&&◌, Option, none, some, List, [], ◌∷◌, ◌++◌, if◌then◌else◌, length,
  keep, map, Text, Map, ℤ,
}
use anolis.Protocol.{Doubles}
use anolis.Registry.{RegisteredDevice, DeviceRegistry}
use anolis.Router.Checks.{CallRouter, Readings}
use anolis.Router.Execute.{Dispatch}
use anolis.LatchStore.{LatchDetail, absent, PersistedLatch}
use anolis.SafeState.{
  SafeStateConfig, SafeStateKind, no_rung, planned_safe_state_kind, uncovered_functions,
}
use anolis.SafeState.Ladder.{
  CallOutcome, SkippedAction, LadderRun, run_ladder, is_success, is_no_rung,
}

pub record StartupReport : Type 0 where
  pub ran : Bool
  pub report_kind : SafeStateKind
  pub report_achieved : Bool
  pub failed_actions : List CallOutcome
  pub skipped_actions : List SkippedAction

-- The pointers are whether each is set; fault_entry_hook_thread_ is whether it names a thread.
pub record SafeStateController : Type 0 where
  pub has_manager : Bool
  pub has_store : Bool
  pub latched : Bool
  pub latched_at_ms : Option ℤ
  pub restored_reason : Option LatchDetail
  pub admits_fault_entry_hooks : Bool
  pub startup_report : StartupReport

pub record EstopResult : Type 0 where
  pub result_kind : SafeStateKind
  pub actions : List CallOutcome
  pub skipped : List SkippedAction
  pub safe_state_achieved : Bool
  pub fault_requested : Bool
  pub fault_ok : Bool

-- `entered_fault b`: set_mode(FAULT), with the FAULT-entry hooks of this thread admitted or not.
pub data Effect (D : Doubles) : Type 0 where
  saved : ℤ → Text → Effect D
  removed_record : Effect D
  called : Dispatch D → Effect D
  entered_fault : Bool → Effect D

-- What a ladder reads and drives.
pub record Plant (D : Doubles) : Type 0 where
  pub devices : List (RegisteredDevice D)
  pub safety : SafeStateConfig D
  pub seen : ℕ → Readings D
  pub router : CallRouter

abbrev pub new_controller : SafeStateController
new_controller = record {
  has_manager = false;
  has_store = false;
  latched = false;
  latched_at_ms = none;
  restored_reason = none;
  admits_fault_entry_hooks = false;
  startup_report = record {
    ran = false;
    report_kind = no_rung;
    report_achieved = false;
    failed_actions = [];
    skipped_actions = [];
  };
}

unfoldable pub set_mode_manager : SafeStateController → Bool → SafeStateController
set_mode_manager c manager = record c { has_manager = manager }

unfoldable pub is_engaged : SafeStateController → Bool
is_engaged c = c.latched

-- The latch is kept on, with the time at which the record was found where it has none.
unfoldable pub attach_latch_store :
    SafeStateController → Option PersistedLatch → ℤ → SafeStateController
attach_latch_store c none now = record c { has_store = false }
attach_latch_store c (some found) now = elim found.persisted_state [
  | absent ↦ record c { has_store = true }
  | _ ↦ record c {
    has_store = true;
    latched = true;
    latched_at_ms = elim found.latched_at_epoch_ms [ some at ↦ some at | none ↦ some now ];
    restored_reason = some found.detail;
  }
]

abbrev engaged_at : SafeStateController → ℤ → SafeStateController
engaged_at c now = record c { latched = true; latched_at_ms = some now; restored_reason = none }

module _ {D : Doubles} where
  abbrev save_record : SafeStateController → ℤ → Text → List (Effect D)
  save_record c now reason = if c.has_store then saved now reason ∷ [] else []

  -- `fault_ok` is what set_mode answers.
  unfoldable pub trigger :
      SafeStateController
      → Text
      → ℤ
      → Plant D
      → Bool
      → SafeStateController × (EstopResult × List (Effect D))
  unfolding run_ladder
  trigger c reason now plant fault_ok =
      let run = run_ladder plant.devices plant.safety none none plant.seen plant.router in
      let admit_hooks = is_no_rung run.0 in
      (
        record (engaged_at c now) {
          admits_fault_entry_hooks = if c.has_manager then false else c.admits_fault_entry_hooks;
        },
        (
          record {
            result_kind = run.0;
            actions = run.1.0.actions;
            skipped = run.1.0.skipped;
            safe_state_achieved = run.1.1;
            fault_requested = c.has_manager;
            fault_ok = c.has_manager && fault_ok;
          },
          save_record c now reason
              ++ (map called run.1.0.dispatched_calls
                  ++ (if c.has_manager then entered_fault admit_hooks ∷ [] else [])),
        ),
      )

  -- The guard, where one is set, gives a reason to refuse.
  unfoldable pub clear :
      SafeStateController
      → Option (Option Text)
      → SafeStateController × (Option Text × List (Effect D))
  clear c (some (some refusal)) = (c, (some refusal, []))
  clear c _ = (
    record c { latched = false; latched_at_ms = none; restored_reason = none },
    (none, if c.has_store then removed_record ∷ [] else []),
  )

  unfoldable pub hold : SafeStateController → Text → ℤ → SafeStateController × List (Effect D)
  hold c reason now =
      let fault = if c.has_manager then entered_fault false ∷ [] else [] in
      if c.latched then (c, fault) else (engaged_at c now, save_record c now reason ++ fault)

  unfoldable pub reassert_for : Text → Plant D → SafeStateKind × (LadderRun D × Bool)
  unfolding run_ladder
  reassert_for handle plant =
      run_ladder plant.devices plant.safety (some handle) none plant.seen plant.router

  unfoldable pub drive_safe_state :
      SafeStateController
      → Map Text Text
      → Plant D
      → SafeStateController × (SafeStateKind × (LadderRun D × Bool))
  unfolding run_ladder
  drive_safe_state c absent_devices plant =
      let run =
        run_ladder plant.devices plant.safety none (some absent_devices) plant.seen plant.router in
      (
        record c {
          startup_report = record {
            ran = not (is_no_rung run.0);
            report_kind = run.0;
            report_achieved = run.1.1;
            failed_actions = keep (λ a. not (is_success a)) run.1.0.actions;
            skipped_actions = run.1.0.skipped;
          };
        },
        run,
      )

-- EstopCapability.
pub record EstopCapability : Type 0 where
  pub capability_latched : Bool
  pub software_safe_state : SafeStateKind
  pub capability_latched_at : Option ℤ
  pub uncovered_count : ℕ
  pub uncovered : List Text
  pub capability_reason : Option LatchDetail

unfoldable pub capability :
    {D : Doubles} → SafeStateController → DeviceRegistry D → SafeStateConfig D → EstopCapability
unfolding planned_safe_state_kind uncovered_functions
capability c registry safety =
    let kind = planned_safe_state_kind registry.devices safety in
    let uncovered_now = uncovered_functions registry safety kind in
    record {
      capability_latched = c.latched;
      software_safe_state = kind;
      capability_latched_at = c.latched_at_ms;
      uncovered_count = length uncovered_now;
      uncovered = uncovered_now;
      capability_reason = c.restored_reason;
    }

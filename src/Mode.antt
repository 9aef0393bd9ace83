-- ===== src/Mode.antt =====
-- core/automation/mode_manager.{hpp,cpp}: the runtime's mode machine. A callback is what it answers
-- in the world that it reads when it is called; W is the type of such worlds. `set_mode` releases
-- its lock while the before-callbacks run, so it is three steps here: begin_change under the lock,
-- run_before without it, commit under it again. The callbacks told of a change are names (ℕ), and
-- what they do is left out: they run after the change and an exception of theirs is only logged.
pub mod Names
pub mod Change
pub mod Gates
pub mod Threads
use anolis.Base.{
  ℕ, suc, Bool, true, false, not, ◌&&◌, ◌||◌, Option, none, some, List, [], ◌∷◌, ◌++◌,
  if◌then◌else◌, Text, codes, text_eq, is_empty, map,
}

pub data RuntimeMode : Type 0 where
  manual auto idle fault : RuntimeMode

unfoldable pub mode_to_string : RuntimeMode → Text
mode_to_string manual = codes "MANUAL"
mode_to_string auto = codes "AUTO"
mode_to_string idle = codes "IDLE"
mode_to_string fault = codes "FAULT"

unfoldable pub string_to_mode : Text → Option RuntimeMode
string_to_mode str =
    if text_eq str (codes "MANUAL")
    then some manual
    else if text_eq str (codes "AUTO")
    then some auto
    else if text_eq str (codes "IDLE")
    then some idle
    else if text_eq str (codes "FAULT")
    then some fault
    else none

abbrev pub mode_eq : RuntimeMode → RuntimeMode → Bool
mode_eq manual manual = true
mode_eq auto auto = true
mode_eq idle idle = true
mode_eq fault fault = true
mode_eq _ _ = false

unfoldable pub is_valid_transition : RuntimeMode → RuntimeMode → Bool
is_valid_transition from to =
    if mode_eq from to
    then true
    else if mode_eq to fault
    then true
    else if mode_eq from fault
    then mode_eq to manual
    else if mode_eq from manual
    then mode_eq to auto || mode_eq to idle
    else if mode_eq from auto || mode_eq from idle
    then mode_eq to manual
    else false

-- The answer of a before-callback or a commit guard: true, false with the error text that it set,
-- or an exception with its text.
pub data Verdict : Type 0 where
  allows : Verdict
  rejects throws : Text → Verdict

abbrev pub Callback : Type 0 → Type 0
Callback W = W → RuntimeMode → RuntimeMode → Verdict

pub record ModeManager (W : Type 0) : Type 0 where
  pub current_mode : RuntimeMode
  pub before_callbacks : List (Callback W)
  pub commit_guards : List (Callback W)
  pub callbacks : List ℕ

abbrev pub new_manager : {W : Type 0} → RuntimeMode → ModeManager W
new_manager initial = record {
  current_mode = initial;
  before_callbacks = [];
  commit_guards = [];
  callbacks = [];
}

-- A change between its two critical sections.
pub record Pending (W : Type 0) : Type 0 where
  pub previous_mode : RuntimeMode
  pub new_mode : RuntimeMode
  pub before_copy : List (Callback W)
  pub callbacks_copy : List ℕ

pub data Begun (W : Type 0) : Type 0 where
  already : Begun W
  invalid : Text → Begun W
  running : Pending W → Begun W

-- What set_mode returns: true with the callbacks that were told, or false with the error.
pub data Outcome : Type 0 where
  accepted : List (ℕ × RuntimeMode × RuntimeMode) → Outcome
  refused : Text → Outcome

abbrev pub or_default : Text → Text → Text
or_default text otherwise = if is_empty text then otherwise else text

unfoldable pub invalid_error : RuntimeMode → RuntimeMode → Text
invalid_error from to =
    codes "Invalid mode transition: "
    ++ (mode_to_string from ++ (codes " -> " ++ mode_to_string to))

-- What a before-callback's answer does to a change that is not into FAULT.
unfoldable pub before_veto : Verdict → Option Text
before_veto allows = none
before_veto (rejects e) =
    some (or_default e (codes "Mode transition rejected by before-mode callback"))
before_veto (throws e) = some (codes "Before mode change callback error: " ++ e)

unfoldable pub guard_veto : Verdict → Option Text
guard_veto allows = none
guard_veto (rejects e) = some (or_default e (codes "Mode transition rejected at commit"))
guard_veto (throws e) = some (
    or_default (codes "Mode commit guard error: " ++ e)
      (codes "Mode transition rejected at commit"))

unfoldable pub notify : List ℕ → RuntimeMode → RuntimeMode → List (ℕ × RuntimeMode × RuntimeMode)
notify callbacks previous_mode new_mode = map (λ c. (c, previous_mode, new_mode)) callbacks

module _ {W : Type 0} where
  unfoldable pub is_idle : ModeManager W → Bool
  is_idle m = mode_eq m.current_mode idle

  unfoldable pub on_before_mode_change : ModeManager W → Callback W → ModeManager W
  on_before_mode_change m callback = record m {
    before_callbacks = m.before_callbacks ++ callback ∷ [];
  }

  unfoldable pub add_commit_guard : ModeManager W → Callback W → ModeManager W
  add_commit_guard m guard = record m { commit_guards = m.commit_guards ++ guard ∷ [] }

  unfoldable pub on_mode_change : ModeManager W → ℕ → ModeManager W
  on_mode_change m callback = record m { callbacks = m.callbacks ++ callback ∷ [] }

  -- The first critical section.
  unfoldable pub begin_change : ModeManager W → RuntimeMode → Begun W
  begin_change m new_mode =
      if mode_eq m.current_mode new_mode
      then already
      else if not (is_valid_transition m.current_mode new_mode)
      then invalid (invalid_error m.current_mode new_mode)
      else running (record {
        previous_mode = m.current_mode;
        new_mode = new_mode;
        before_copy = m.before_callbacks;
        callbacks_copy = m.callbacks;
      })

  -- The before-callbacks in turn, the i-th of them in the world `seen i`; FAULT is not vetoed.
  unfoldable pub run_before :
      (ℕ → W) → ℕ → List (Callback W) → RuntimeMode → RuntimeMode → Option Text
  unfolding before_veto
  run_before seen i [] previous_mode new_mode = none
  run_before seen i (callback ∷ rest) previous_mode new_mode =
      let later = run_before seen (suc i) rest previous_mode new_mode in
      if mode_eq new_mode fault
      then later
      else elim (before_veto (callback (seen i) previous_mode new_mode)) [
        | none ↦ later
        | some e ↦ some e
      ]

  unfoldable pub run_guards : List (Callback W) → W → RuntimeMode → RuntimeMode → Option Text
  unfolding guard_veto
  run_guards [] w previous_mode new_mode = none
  run_guards (guard ∷ rest) w previous_mode new_mode =
      let later = run_guards rest w previous_mode new_mode in
      elim (guard_veto (guard w previous_mode new_mode)) [ none ↦ later | some e ↦ some e ]

  -- The end of the second critical section, with the mode that the change commits from.
  unfoldable pub commit_from : ModeManager W → Pending W → RuntimeMode → W → ModeManager W × Outcome
  unfolding run_guards
  commit_from m p previous_mode w =
      if not (is_valid_transition m.current_mode p.new_mode)
      then (m, refused (invalid_error m.current_mode p.new_mode))
      else elim (if mode_eq p.new_mode fault
          then none
          else run_guards m.commit_guards w previous_mode p.new_mode) [
            | some e ↦ (m, refused e)
            | none ↦ (
              record m { current_mode = p.new_mode },
              accepted (notify p.callbacks_copy previous_mode p.new_mode),
            )
          ]

  -- The second critical section, after the before-callbacks let the change through.
  unfoldable pub commit : ModeManager W → Pending W → W → ModeManager W × Outcome
  unfolding commit_from
  commit m p w =
      if mode_eq m.current_mode p.previous_mode
      then commit_from m p p.previous_mode w
      else if mode_eq p.new_mode fault
      then if mode_eq m.current_mode fault
        then (m, accepted [])
        else commit_from m p m.current_mode w
      else (
        m,
        refused (codes "Concurrent mode change detected while processing transition callbacks"),
      )

  -- The change after begin_change: the before-callbacks in their worlds, then the commit.
  unfoldable pub finish : ModeManager W → Pending W → (ℕ → W) → W → ModeManager W × Outcome
  unfolding run_before commit
  finish m p seen w = elim (run_before seen 0 p.before_copy p.previous_mode p.new_mode) [
    | some e ↦ (m, refused e)
    | none ↦ commit m p w
  ]

  -- set_mode when nothing else changes the mode meanwhile.
  unfoldable pub set_mode : ModeManager W → RuntimeMode → (ℕ → W) → W → ModeManager W × Outcome
  unfolding begin_change finish
  set_mode m new_mode seen w = elim (begin_change m new_mode) [
    | already ↦ (m, accepted [])
    | invalid e ↦ (m, refused e)
    | running p ↦ finish m p seen w
  ]

-- ===== src/Journal/Operations.antt =====
-- The operations of RunJournal, each one critical section of its lock, and the restart after its process
-- has ended or was killed. `running` is false until initialize() has succeeded; until then nothing reads
-- the memory of the journal. A fault is how one append ends.
use anolis.Base.{
  ℕ, suc, ◌%◌, ◌^◌, Bool, true, false, not, Option, none, some, List, [], ◌∷◌, ◌++◌, if◌then◌else◌,
  leb, length, take, drop, Text, codes, text_eq, text_key, Map, find, assign, erase,
}
use anolis.Journal.{
  Json, open_state, closed_state, CloseReason, abandoned, RunEventCategory, run_opened, run_closed,
  automation_faulted, mode_changed, Run, close_reason_to_string,
}
use anolis.Journal.Files.{WriteEnd}
use anolis.Journal.Log.{replay}
use anolis.Journal.Records.{QueuedEvent, RunJournal, EventParts, OpenSpec, append_record}
use anolis.Journal.Stream.{append_event_locked, append_event}

module _ (J : Json) where
  open J use {object, text, boolean}

  unfoldable pub opened_run : OpenSpec J → Run J
  opened_run spec = record {
    run_id = spec.minted_id;
    label = spec.open_label;
    state = open_state;
    close_reason = none;
    started_at = spec.open_at;
    ended_at = none;
    automation_version = spec.open_version;
    runtime_version = spec.build_version;
    polling_interval_ms = spec.interval_ms;
    params = spec.open_params;
    tag_scope = spec.open_scope;
    schema_version = 1;
  }

  abbrev plain_event : RunEventCategory → Text → ℕ → EventParts J
  plain_event category type at = record {
    event_category = category;
    event_text = type;
    event_payload = object [];
    event_occurred = at;
    clock_ms = at;
  }

  -- What open() does once its record is synced.
  unfoldable pub opened_journal : RunJournal J → Run J → WriteEnd → RunJournal J
  unfolding append_event_locked assign
  opened_journal j run we =
      (append_event_locked J
        (record j {
          runs = assign run.run_id run j.runs;
          order = j.order ++ run.run_id ∷ [];
          open_run_id = some run.run_id;
        })
        run.run_id (plain_event run_opened [] run.started_at) we).0

  -- open(): the two faults are those of the record and of the run_opened event.
  unfoldable pub open_run :
      RunJournal J → OpenSpec J → WriteEnd → WriteEnd → RunJournal J × Option (Run J)
  unfolding append_record opened_run opened_journal
  open_run j spec w we = elim j.open_run_id [
    | some _ ↦ (j, none)
    | none ↦
        let run = opened_run spec in
        let (j', ok) = append_record J j run w in
        if not ok then (j', none) else (opened_journal j' run we, some run)
  ]

  abbrev pub closed_run : Run J → CloseReason → ℕ → Run J
  closed_run run reason now = record run {
    state = closed_state;
    close_reason = some reason;
    ended_at = some now;
  }

  -- The bookkeeping after the last event of a run.
  unfoldable pub forget_open : RunJournal J → Text → RunJournal J
  unfolding erase
  forget_open j id = record j {
    next_seq = erase id j.next_seq;
    open_run_id = elim j.open_run_id [
      | none ↦ none
      | some o ↦ if text_eq o id then none else some o
    ];
  }

  -- What close() does once its record is synced.
  unfoldable pub closed_journal :
      RunJournal J → Text → Run J → CloseReason → ℕ → WriteEnd → RunJournal J
  unfolding append_event_locked assign forget_open close_reason_to_string
  closed_journal j id updated reason now we =
      forget_open
        (append_event_locked J (record j { runs = assign id updated j.runs }) id
          (plain_event run_closed (close_reason_to_string reason) now) we).0
        id

  unfoldable pub close_run :
      RunJournal J → Text → CloseReason → ℕ → WriteEnd → WriteEnd → RunJournal J × Option (Run J)
  unfolding append_record find closed_journal
  close_run j id reason now w we = elim (find id j.runs) [
    | none ↦ (j, none)
    | some run ↦ elim run.state [
      | closed_state ↦ (j, some run)
      | open_state ↦
          let updated = closed_run run reason now in
          let (j', ok) = append_record J j updated w in
          if not ok then (j', none) else (closed_journal j' id updated reason now we, some updated)
    ]
  ]

  -- One id of the loop that closes what a former process left open.
  unfoldable pub recovered_journal : RunJournal J → Text → ℕ → WriteEnd → RunJournal J
  unfolding append_event_locked erase
  recovered_journal j id now we =
      let j' =
        (append_event_locked J j id
          (record (plain_event run_closed (codes "abandoned") now) {
            event_payload = object ((codes "recovery", boolean true) ∷ []);
          })
          we).0 in
      record j' { next_seq = erase id j'.next_seq }

  unfoldable pub recover_run : RunJournal J → Text → ℕ → WriteEnd × WriteEnd → RunJournal J × Bool
  unfolding append_record find assign recovered_journal
  recover_run j id now faults = elim (find id j.runs) [
    | none ↦ (j, true)
    | some run ↦ elim run.state [
      | closed_state ↦ (j, true)
      | open_state ↦
          let updated = closed_run run abandoned now in
          let (j', ok) =
            append_record J (record j { runs = assign id updated j.runs }) updated faults.0 in
          if not ok then (j', false) else (recovered_journal j' id now faults.1, true)
    ]
  ]

  unfoldable pub recover_all :
      RunJournal J → List Text → ℕ → (Text → WriteEnd × WriteEnd) → RunJournal J × Bool
  unfolding recover_run
  recover_all j [] now faults = (j, true)
  recover_all j (id ∷ ids) now faults =
      let (j', ok) = recover_run j id now (faults id) in
      let rest = recover_all j' ids now faults in if ok then rest else (j', false)

  -- A new process: its journal before initialize(), on the files that it finds.
  unfoldable pub reread : RunJournal J → RunJournal J
  unfolding replay
  reread j = record {
    running = false;
    runs = (replay J j.index_file).runs;
    order = (replay J j.index_file).order;
    open_run_id = none;
    next_seq = [];
    fault_queue = [];
    events_dropped = 0;
    index_file = j.index_file;
    event_files = j.event_files;
  }

  unfoldable pub initialize : RunJournal J → Bool → ℕ → (Text → WriteEnd × WriteEnd) → RunJournal J
  unfolding reread recover_all
  initialize j has_directory now faults =
      let (j', ok) = recover_all (reread j) (reread j).order now faults in
      if not has_directory then record j { running = false } else record j' { running = ok }

  unfoldable pub enqueue_event : RunJournal J → QueuedEvent J → RunJournal J
  enqueue_event j event =
      if leb 512 (length j.fault_queue)
      then record j { events_dropped = suc j.events_dropped % 2 ^ 64 }
      else record j { fault_queue = j.fault_queue ++ event ∷ [] }

  abbrev is_fault : RunEventCategory → Bool
  is_fault automation_faulted = true
  is_fault _ = false

  -- One round of the writer's loop, at the time `now`.
  unfoldable pub writer_step : RunJournal J → ℕ → WriteEnd → RunJournal J
  unfolding append_event_locked
  writer_step j now w = elim j.fault_queue [
    | [] ↦ j
    | event ∷ rest ↦ elim j.open_run_id [
      | none ↦ record j {
        fault_queue = rest;
        events_dropped =
            if is_fault event.queued_category
            then suc j.events_dropped % 2 ^ 64
            else j.events_dropped;
      }
      | some id ↦
          (append_event_locked J (record j { fault_queue = rest }) id
            (record {
              event_category = event.queued_category;
              event_text = event.queued_type;
              event_payload = event.queued_payload;
              event_occurred = event.queued_at;
              clock_ms = now;
            })
            w).0
    ]
  ]

  unfoldable pub get_run : RunJournal J → Text → Option (Run J)
  unfolding find
  get_run j id = find id j.runs

  unfoldable pub enqueue_fault : RunJournal J → Text → Text → ℕ → RunJournal J
  unfolding enqueue_event
  enqueue_fault j locus message at = enqueue_event j (record {
    queued_category = automation_faulted;
    queued_type = locus;
    queued_payload = object ((codes "message", text message) ∷ []);
    queued_at = at;
  })

  unfoldable pub record_mode_change :
      RunJournal J → Text → Text → Bool → ℕ → WriteEnd → RunJournal J
  unfolding enqueue_event append_event
  record_mode_change j previous_mode new_mode from_tick_thread now w =
      let change =
        object
          ((codes "previous_mode", text previous_mode) ∷ (codes "new_mode", text new_mode) ∷ []) in
      if from_tick_thread
      then enqueue_event j (record {
        queued_category = mode_changed;
        queued_type = [];
        queued_payload = change;
        queued_at = now;
      })
      else elim j.open_run_id [
        | none ↦ j
        | some id ↦
            (append_event J j id
              (record {
                event_category = mode_changed;
                event_text = [];
                event_payload = change;
                event_occurred = 0;
                clock_ms = now;
              })
              w).0
      ]

  abbrev known_runs : Map Text (Run J) → List Text → List (Run J)
  unfolding find
  known_runs m [] = []
  known_runs m (id ∷ ids) = elim (find id m) [
    | none ↦ known_runs m ids
    | some r ↦ r ∷ known_runs m ids
  ]

  abbrev newest_first : List Text → List Text
  newest_first [] = []
  newest_first (id ∷ ids) = newest_first ids ++ id ∷ []

  unfoldable pub list_runs : RunJournal J → ℕ → ℕ → List (Run J)
  unfolding known_runs
  list_runs j limit offset = take limit (known_runs j.runs (drop offset (newest_first j.order)))

-- ===== src/Journal/Closing.antt =====
-- Histories of the journal: calls, writes of the queue and restarts; a closed run in them.
use anolis.Base.{
  ℕ, ◌≡◌, ◌≢◌, refl, sym, ap, subst, ◌∙◌, Bool, true, false, ◌||◌, Option, some, List, [], ◌∷◌,
  if◌then◌else◌, Text, text_key, find, assign, find-assign, beq_refl, All, arith, inl, inr,
  Bool-cases,
}
use anolis.Journal.{Json, open_state, closed_state, CloseReason, Run}
use anolis.Journal.Files.{WriteEnd, append_line}
use anolis.Journal.Log.{logged, line_of, append-logged}
use anolis.Journal.Settled.{
  Settled, open-Settled, close-Settled, initialize-Settled, assign-IsKeyed, IsKeyed,
}
use anolis.Journal.Records.{QueuedEvent, RunJournal, EventParts, OpenSpec, append_record}
use anolis.Journal.Stream.{append_event_locked, append_event}
use anolis.Journal.Operations.{
  open_run, closed_run, closed_journal, close_run, initialize, enqueue_event, writer_step, get_run,
}

pub data JournalOp (J : Json) : Type 0 where
  opens : OpenSpec J → WriteEnd → WriteEnd → JournalOp J
  closes : Text → CloseReason → ℕ → WriteEnd → WriteEnd → JournalOp J
  appends : Text → EventParts J → WriteEnd → JournalOp J
  queues : QueuedEvent J → JournalOp J
  writes : ℕ → WriteEnd → JournalOp J
  restarts : Bool → ℕ → (Text → WriteEnd × WriteEnd) → JournalOp J

-- The id is not minted again.
abbrev pub MintsOther : {J : Json} → Text → JournalOp J → Type 0
MintsOther id (opens spec w we) = id ≢ spec.minted_id
MintsOther id _ = Unit {0}

module _ (J : Json) where
  open J use {is_object}

  -- What runs while the journal does.
  unfoldable pub run_op : RunJournal J → JournalOp J → RunJournal J
  unfolding open_run close_run append_event enqueue_event writer_step initialize
  run_op j (opens spec w we) = (open_run J j spec w we).0
  run_op j (closes id reason now w we) = (close_run J j id reason now w we).0
  run_op j (appends id parts w) = (append_event J j id parts w).0
  run_op j (queues event) = enqueue_event J j event
  run_op j (writes now w) = writer_step J j now w
  run_op j (restarts has_directory now faults) = initialize J j has_directory now faults

  abbrev pub is_restart : JournalOp J → Bool
  is_restart (restarts has_directory now faults) = true
  is_restart _ = false

  unfoldable pub journal_step : RunJournal J → JournalOp J → RunJournal J
  unfolding run_op
  journal_step j op = if j.running || is_restart op then run_op j op else j

  unfoldable pub journal_steps : RunJournal J → List (JournalOp J) → RunJournal J
  unfolding journal_step
  journal_steps j [] = j
  journal_steps j (op ∷ ops) = journal_steps (journal_step j op) ops

  -- The other operations touch neither the runs nor the log.
  same-Settled :
      (id : Text) (r : Run J) (j j' : RunJournal J)
      → j'.index_file ≡ j.index_file
      → j'.runs ≡ j.runs
      → Settled J id r j
      → Settled J id r j'
  same-Settled id r j j' same_log same_runs s = record {
    in_log = ap (λ f. logged J f id) same_log ∙ s.in_log;
    in_memory = ap (λ m. find id m) same_runs ∙ s.in_memory;
    keyed = subst (IsKeyed J) (sym same_runs) s.keyed;
  }

  op-Settled :
      (id : Text) (r : Run J) (j : RunJournal J) (op : JournalOp J)
      → r.state ≡ closed_state
      → MintsOther id op
      → Settled J id r j
      → Settled J id r (run_op j op)
  unfolding run_op append_event append_event_locked enqueue_event writer_step
  op-Settled id r j (opens spec w we) closed ne s = open-Settled J id r j spec w we ne s
  op-Settled id r j (closes key reason now w we) closed _ s =
      close-Settled J id r j key reason now w we closed s
  op-Settled id r j (appends key parts w) closed _ s =
      same-Settled id r j (run_op j (appends key parts w)) (ground arith) (ground arith) s
  op-Settled id r j (queues event) closed _ s =
      same-Settled id r j (run_op j (queues event)) (ground arith) (ground arith) s
  op-Settled id r j (writes now w) closed _ s =
      same-Settled id r j (run_op j (writes now w)) (ground arith) (ground arith) s
  op-Settled id r j (restarts has_directory now faults) closed _ s =
      initialize-Settled J id r j has_directory now faults closed s

  steps-Settled :
      (id : Text) (r : Run J) (j : RunJournal J) (ops : List (JournalOp J))
      → r.state ≡ closed_state
      → All (MintsOther id) ops
      → Settled J id r j
      → Settled J id r (journal_steps j ops)
  unfolding journal_steps journal_step
  steps-Settled id r j [] closed others s = s
  steps-Settled id r j (op ∷ ops) closed others s =
      steps-Settled id r (journal_step j op) ops closed others.1 (one (j.running || is_restart op))
    where
      one : (b : Bool) → Settled J id r (if b then run_op j op else j)
      one true = op-Settled id r j op closed others.0 s
      one false = s

  synced-written :
      (file : Option Text) (line : Text) (w : WriteEnd)
      → (append_line file line w).is_synced ≡ true
      → (append_line file line w).is_written ≡ true
  unfolding append_line
  synced-written file line w h = ground (arith, h)

  -- A close that reports the run has its record in the log and the run in the journal.
  close_reported :
      (j : RunJournal J) (id : Text) (run out : Run J) (reason : CloseReason) (now : ℕ)
      (w we : WriteEnd)
      → IsKeyed J j.runs
      → find id j.runs ≡ some run
      → run.state ≡ open_state
      → is_object run.params ≡ true
      → (close_run J j id reason now w we).1 ≡ some out
      → Settled J id (closed_run J run reason now) (close_run J j id reason now w we).0
  unfolding close_run append_record closed_journal append_event_locked
  close_reported j id run out reason now w we keyed found is_open params reported =
      subst (Settled J id updated) (sym done) (record {
        in_log =
            ap (logged J (append_line j.index_file (line_of J updated) w).file)
              (sym (keyed id run found))
            ∙ append-logged J j.index_file updated w params
                (synced-written j.index_file (line_of J updated) w good);
        in_memory = find-assign id id updated j.runs ∙ rw (beq_refl id) refl;
        keyed =
            subst (λ k. IsKeyed J (assign k updated j.runs)) (keyed id run found)
              (assign-IsKeyed J j.runs updated keyed);
      })
    where
      updated : Run J
      updated = closed_run J run reason now

      good : (append_record J j updated w).1 ≡ true
      good = elim (Bool-cases (append_record J j updated w).1) [
        | inl yes_it_is ↦ yes_it_is
        | inr bad ↦ absurd (ground (arith, reported, found, is_open, bad))
      ]

      done :
          (close_run J j id reason now w we).0
          ≡ closed_journal J (append_record J j updated w).0 id updated reason now we
      done = ground (arith, found, is_open, good)

  -- A run that a close reports stays as it was closed, in a journal that runs and as its last record in the log,
  -- whatever calls, failed or cut writes and restarts follow, while its id is not minted again.
  pub closed_stays_closed :
      (j : RunJournal J) (id : Text) (run out : Run J) (reason : CloseReason) (now : ℕ)
      (w we : WriteEnd) (ops : List (JournalOp J))
      → IsKeyed J j.runs
      → find id j.runs ≡ some run
      → run.state ≡ open_state
      → is_object run.params ≡ true
      → (close_run J j id reason now w we).1 ≡ some out
      → All (MintsOther id) ops
      → ((journal_steps (close_run J j id reason now w we).0 ops).running ≡ true
          → get_run J (journal_steps (close_run J j id reason now w we).0 ops) id
            ≡ some (closed_run J run reason now))
        × (logged J (journal_steps (close_run J j id reason now w we).0 ops).index_file id
            ≡ some (closed_run J run reason now))
  unfolding get_run
  closed_stays_closed j id run out reason now w we ops keyed found is_open params reported others =
      ((λ _. settled.in_memory), settled.in_log)
    where
      settled :
          Settled J id
            (closed_run J run reason now)
            (journal_steps (close_run J j id reason now w we).0 ops)
      settled =
          steps-Settled id (closed_run J run reason now) (close_run J j id reason now w we).0 ops
            refl others
            (close_reported j id run out reason now w we keyed found is_open params reported)

-- ===== src/Tests/Journals.antt =====
-- Runs of the journal, on files with torn lines.
use anolis.Base.{
  ◌⊎◌, ◌≡◌, ◌≢◌, ◌↔◌, map, ℕ, refl, true, none, some, List, [], ◌∷◌, ◌++◌, codes, pos, length, take,
  Text, text_key, find, assign, arith,
}
use anolis.Journal.{
  open_state, closed_state, abandoned, run_state_to_string, completed, failed, automation_faulted,
  annotation, category_to_string, Run,
}
use anolis.Journal.Codec.{scope_to_json, event_to_json, run_to_json, run_from_json}
use anolis.Journal.Readback.{run_from_json-run_to_json}
use anolis.Journal.Files.{WriteEnd, append_line, written, not_synced, cut_off}
use anolis.Journal.Log.{logged, line_of}
use anolis.Journal.Records.{append_record, RunJournal, EventParts, OpenSpec, new_journal}
use anolis.Journal.Stream.{event_of, event_of_line, append_event, list_events}
use anolis.Journal.Operations.{opened_run, closed_run, close_run, get_run, initialize}
use anolis.Journal.Settled.{IsKeyed, assign-IsKeyed}
use anolis.Journal.Closing.{
  JournalOp, opens, closes, queues, writes, restarts, journal_steps, closed_stays_closed,
}
use anolis.Journal.Open.{one_open}
use anolis.Journal.Single.{initialize_closes}
use anolis.Journal.Streams.{stream, IsOpenRun, Recorded, append_event-Recorded}
use anolis.Journal.Kept.{append_event-kept}
use anolis.Tests.Documents.{Tree, documents}

abbrev settings : Tree
settings = documents.object ((codes "p", documents.unsigned 3) ∷ [])

abbrev first_spec : OpenSpec documents
first_spec = record {
  minted_id = codes "a";
  open_label = some (codes "x");
  open_params = settings;
  open_scope = record { provider_ids = codes "s" ∷ []; device_ids = []; signal_ids = [] };
  open_version = none;
  open_at = 7;
  build_version = codes "1";
  interval_ms = pos 500;
}

abbrev second_spec : OpenSpec documents
second_spec = record first_spec { minted_id = codes "b" }

abbrev first_run : Run documents
unfolding opened_run
first_run = opened_run documents first_spec

abbrev at_work : RunJournal documents
at_work = record (new_journal documents) {
  running = true;
  runs = (codes "a", first_run) ∷ [];
  order = codes "a" ∷ [];
  open_run_id = some (codes "a");
}

abbrev all_written : Text → WriteEnd × WriteEnd
all_written id = (written, written)

abbrev later_calls : List (JournalOp documents)
later_calls =
    opens second_spec written (cut_off 3)
    ∷ closes (codes "a") failed 11 written written
    ∷ queues (record {
      queued_category = automation_faulted;
      queued_type = codes "t";
      queued_payload = settings;
      queued_at = 12;
    })
    ∷ writes 13 not_synced
    ∷ restarts true 14 all_written
    ∷ []

-- Only what is closed was open.
at_work-IsKeyed : IsKeyed documents at_work.runs
unfolding assign find first_run
at_work-IsKeyed = assign-IsKeyed documents [] first_run (λ k x found. absurd (no_run k x found))
  where
    no_run : (k : Text) (x : Run documents) → find k [] ≡ some x → ⊥
    no_run k x found = ground (arith, found)

run_from_json-run_to_json_example :
    run_from_json documents (run_to_json documents first_run) ≡ some first_run
unfolding first_run
run_from_json-run_to_json_example = run_from_json-run_to_json documents first_run refl

closed_stays_closed_example :
    ((journal_steps documents
          (close_run documents at_work (codes "a") completed 9 written (cut_off 4)).0
          later_calls).running
        ≡ true
      → get_run documents
          (journal_steps documents
            (close_run documents at_work (codes "a") completed 9 written (cut_off 4)).0
            later_calls)
          (codes "a")
        ≡ some (closed_run documents first_run completed 9))
    × (logged documents
          (journal_steps documents
            (close_run documents at_work (codes "a") completed 9 written (cut_off 4)).0
            later_calls).index_file
          (codes "a")
        ≡ some (closed_run documents first_run completed 9))
unfolding find close_run append_record append_line first_run
closed_stays_closed_example =
    closed_stays_closed documents at_work (codes "a") first_run
      (closed_run documents first_run completed 9) completed 9 written (cut_off 4) later_calls
      at_work-IsKeyed refl refl refl refl (other, (tt, (tt, (tt, (tt, tt)))))
  where
    other : codes "a" ≢ codes "b"
    other e = absurd (ground (arith, e))

-- A file with the record of an open run and a part of another.
abbrev left_open : RunJournal documents
left_open = record (new_journal documents) {
  index_file = some (line_of documents first_run ++ 10 ∷ take 40 (line_of documents first_run));
}

initialize_closes_example : (closed_run documents first_run abandoned 9).state ≡ closed_state
unfolding initialize first_run find run_to_json run_state_to_string scope_to_json
initialize_closes_example =
    initialize_closes documents left_open true 9 all_written refl (codes "a")
      (closed_run documents first_run abandoned 9) refl

-- A start, a run that is closed and one whose opening is recorded, but its event is not.
abbrev first_calls : List (JournalOp documents)
first_calls =
    restarts true 5 all_written
    ∷ opens first_spec written not_synced
    ∷ closes (codes "a") completed 9 written written
    ∷ opens second_spec written (cut_off 3)
    ∷ []

one_open_example :
    ((journal_steps documents (new_journal documents) first_calls).open_run_id ≡ some (codes "b"))
    ↔ ((x : Run documents) × ((get_run documents
              (journal_steps documents (new_journal documents) first_calls)
              (codes "b")
            ≡ some x)
          × (x.state ≡ open_state)))
unfolding journal_steps
one_open_example = one_open documents first_calls (codes "b") refl

abbrev noted : ℕ → EventParts documents
noted at = record {
  event_category = annotation;
  event_text = codes "n";
  event_payload = settings;
  event_occurred = at;
  clock_ms = at;
}

append_event-Recorded_example :
    IsOpenRun documents at_work (codes "a")
    × Recorded documents at_work
        (append_event documents at_work (codes "a") (noted 8) written).0
        (codes "a")
        (noted 8)
        (event_of documents at_work (codes "a") (noted 8))
unfolding append_event first_run find
append_event-Recorded_example =
    append_event-Recorded documents at_work (codes "a") (noted 8) written
      (event_of documents at_work (codes "a") (noted 8)) refl

append_event-kept_example :
    (stream documents
        (append_event documents at_work (codes "a") (noted 8) (cut_off 5)).0
        (codes "a")
      ≡ stream documents at_work (codes "a"))
    ⊎ (stream documents
          (append_event documents at_work (codes "a") (noted 8) (cut_off 5)).0
          (codes "a")
        ≡ stream documents at_work (codes "a")
          ++ event_of documents at_work (codes "a") (noted 8) ∷ [])
append_event-kept_example = append_event-kept documents at_work (codes "a") (noted 8) (cut_off 5)

-- A write that fails after the whole record, but before its newline, and the next event: both have the
-- same number.
abbrev numbers : List ℕ
unfolding append_event list_events first_run event_of_line category_to_string
numbers =
    let first = (append_event documents at_work (codes "a") (noted 7) written).0 in
    let line =
      documents.dump (event_to_json documents (event_of documents first (codes "a") (noted 8))) in
    let failed_write =
      (append_event documents first (codes "a") (noted 8) (cut_off (length line))).0 in
    let next = (append_event documents failed_write (codes "a") (noted 9) written).0 in
    map (λ e. e.sequence) (list_events documents next (codes "a") 10 0)

same_number_twice : numbers ≡ 1 ∷ 2 ∷ 2 ∷ []
unfolding numbers
same_number_twice = refl

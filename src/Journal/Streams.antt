-- ===== src/Journal/Streams.antt =====
-- What append_event does to the stream of events that list_events reads.
use anolis.Base.{
  suc, ◌%◌, ◌^◌, ◌≡◌, ◌≢◌, refl, sym, ap, subst, ◌∙◌, true, false, Option, some, List, [], ◌∷◌,
  ◌++◌, Text, codes, text_eq, text_key, find, assign, find-assign, beq_refl, arith, inl, inr,
  Option-cases,
}
use anolis.Journal.{
  Json, open_state, RunEventCategory, run_opened, run_closed, mode_changed, parameter_changed,
  automation_faulted, annotation, Run, RunEvent, category_to_string, run_event_category_from_string,
}
use anolis.Journal.Codec.{event_members, event_to_json, run_event_from_json}
use anolis.Journal.Readback.{
  text_or-object, unsigned_or-object, optional_text-object, optional_object-object,
}
use anolis.Journal.Files.{
  lines, contents, appended, WriteEnd, written, cannot_open, not_synced, directory_not_synced,
  cut_off, append_line,
}
use anolis.Journal.Lines.{lines-appended}
use anolis.Journal.Log.{nonempty, unequal}
use anolis.Journal.Records.{RunJournal, EventParts}
use anolis.Journal.Stream.{
  event_of_line, next_sequence, event_of, append_event_locked, append_event, events_of_lines,
}
use anolis.Journal.Settled.{RunState-cases}

category_read :
    (c : RunEventCategory) → run_event_category_from_string (category_to_string c) ≡ some c
unfolding run_event_category_from_string category_to_string
category_read run_opened = refl
category_read run_closed = refl
category_read mode_changed = refl
category_read parameter_changed = refl
category_read automation_faulted = refl
category_read annotation = refl

module _ (J : Json) where
  open J use {Document, dump, is_object, object, object_is, parse-dump, dump_one_line, dump_given}

  abbrev pub stream : RunJournal J → Text → List (RunEvent J)
  stream j id = events_of_lines J (lines (contents (find id j.event_files)))

  run_event_from_json-event_to_json :
      (e : RunEvent J)
      → is_object e.payload ≡ true
      → run_event_from_json J (event_to_json J e) ≡ some e
  unfolding run_event_from_json event_to_json find
  run_event_from_json-event_to_json e is = ground (
    arith,
    object_is ms,
    optional_text-object J ms (codes "run_id") e.event_run_id refl,
    text_or-object J ms (codes "category") (codes "annotation") (category_to_string e.category)
        refl,
    category_read e.category,
    unsigned_or-object J ms (codes "schema_version") 1 e.event_schema_version refl,
    unsigned_or-object J ms (codes "sequence") 0 e.sequence refl,
    text_or-object J ms (codes "type") [] e.event_type refl,
    unsigned_or-object J ms (codes "occurred_at_epoch_ms") 0 e.occurred_at refl,
    unsigned_or-object J ms (codes "recorded_at_epoch_ms") 0 e.recorded_at refl,
    optional_object-object J ms (codes "payload") e.payload refl is,
  )
    where
      ms : List (Text × Document)
      ms = event_members J e

  pub event_read :
      (e : RunEvent J)
      → is_object e.payload ≡ true
      → event_of_line J (dump (event_to_json J e)) ≡ some e
  unfolding event_of_line
  event_read e is = ground (
    arith,
    nonempty (dump (event_to_json J e)) (dump_given (event_to_json J e)),
    parse-dump (event_to_json J e),
    run_event_from_json-event_to_json e is,
  )

  pub events_of_lines-append :
      (ls : List Text) (line : Text) (e : RunEvent J)
      → event_of_line J line ≡ some e
      → events_of_lines J (ls ++ line ∷ []) ≡ events_of_lines J ls ++ e ∷ []
  unfolding events_of_lines
  events_of_lines-append [] line e h = ground (arith, h)
  events_of_lines-append (l ∷ ls) line e h = ground (arith, events_of_lines-append ls line e h)

  pub event_of-is_object :
      (j : RunJournal J) (id : Text) (parts : EventParts J)
      → is_object (event_of J j id parts).payload ≡ true
  unfolding event_of
  event_of-is_object j id parts = ground (arith, object_is [])

  -- The bytes of a whole event add the event.
  pub events_appended :
      (s : Text) (e : RunEvent J)
      → is_object e.payload ≡ true
      → events_of_lines J (lines (s ++ appended s (dump (event_to_json J e))))
        ≡ events_of_lines J (lines s) ++ e ∷ []
  events_appended s e is =
      ap (events_of_lines J)
        (lines-appended s (dump (event_to_json J e)) (dump_one_line (event_to_json J e)))
      ∙ events_of_lines-append (lines s) (dump (event_to_json J e)) e (event_read e is)

  synced_bytes :
      (file : Option Text) (line : Text) (w : WriteEnd)
      → (append_line file line w).is_synced ≡ true
      → (append_line file line w).file ≡ some (contents file ++ appended (contents file) line)
  unfolding append_line
  synced_bytes file line written h = refl
  synced_bytes file line not_synced h = refl
  synced_bytes file line directory_not_synced h = refl
  synced_bytes file line cannot_open h = absurd (ground (arith, h))
  synced_bytes file line (cut_off n) h = absurd (ground (arith, h))

  abbrev pub IsOpenRun : RunJournal J → Text → Type 0
  IsOpenRun j id = (run : Run J) × ((find id j.runs ≡ some run) × (run.state ≡ open_state))

  -- A reported event, from the stream's file to the journal.
  pub record Recorded (j j' : RunJournal J) (id : Text) (parts : EventParts J) (e : RunEvent J)
      : Type 0 where
    pub made : e ≡ event_of J j id parts
    pub at_end : stream j' id ≡ stream j id ++ e ∷ []
    pub others : (other : Text) → other ≢ id → stream j' other ≡ stream j other
    pub next : next_sequence J j' id ≡ suc e.sequence % 2 ^ 64
    pub same_runs : j'.runs ≡ j.runs

  synced-written :
      (file : Option Text) (line : Text) (w : WriteEnd)
      → (append_line file line w).is_synced ≡ true
      → (append_line file line w).is_written ≡ true
  unfolding append_line
  synced-written file line w h = ground (arith, h)

  locked-Recorded :
      (j : RunJournal J) (id : Text) (parts : EventParts J) (w : WriteEnd) (e : RunEvent J)
      → (append_event_locked J j id parts w).1 ≡ some e
      → Recorded j (append_event_locked J j id parts w).0 id parts e
  unfolding append_event_locked next_sequence
  locked-Recorded j id parts w e reported = record {
    made = made_of;
    at_end =
        ap (λ o. events_of_lines J (lines (contents o))) here
        ∙ events_appended (contents (find id j.event_files)) (event_of J j id parts)
            (event_of-is_object j id parts)
        ∙ ap (λ x. stream j id ++ x ∷ []) (sym made_of);
    others = λ other ne.
        ap (λ o. events_of_lines J (lines (contents o)))
          (ap (find other) files ∙ elsewhere other (unequal id other (λ s. ne (sym s))));
    next = ground (
      arith,
      seqs,
      find-assign id id (suc (event_of J j id parts).sequence % 2 ^ 64) j.next_seq,
      beq_refl id,
      made_of,
    );
    same_runs = refl;
  }
    where
      line : Text
      line = dump (event_to_json J (event_of J j id parts))

      after : Text
      after = contents (find id j.event_files) ++ appended (contents (find id j.event_files)) line

      good : (append_line (find id j.event_files) line w).is_synced ≡ true
      good = ground (arith, reported)

      made_of : e ≡ event_of J j id parts
      made_of = ground (arith, reported, good)

      files : (append_event_locked J j id parts w).0.event_files ≡ assign id after j.event_files
      files = ground (arith, synced_bytes (find id j.event_files) line w good)

      seqs :
          (append_event_locked J j id parts w).0.next_seq
          ≡ assign id (suc (event_of J j id parts).sequence % 2 ^ 64) j.next_seq
      seqs = ground (arith, synced-written (find id j.event_files) line w good)

      here : find id (append_event_locked J j id parts w).0.event_files ≡ some after
      here = ground (arith, files, find-assign id id after j.event_files, beq_refl id)

      elsewhere :
          (other : Text)
          → text_eq id other ≡ false
          → find other (assign id after j.event_files) ≡ find other j.event_files
      elsewhere other ne = ground (arith, find-assign id other after j.event_files, ne)

  -- An event that append_event reports is of an open run, is the last event of its stream after the ones
  -- that were there, leaves the streams of other runs as they were, and the next event has the next number.
  pub append_event-Recorded :
      (j : RunJournal J) (id : Text) (parts : EventParts J) (w : WriteEnd) (e : RunEvent J)
      → (append_event J j id parts w).1 ≡ some e
      → IsOpenRun j id × Recorded j (append_event J j id parts w).0 id parts e
  unfolding append_event
  append_event-Recorded j id parts w e reported = elim (Option-cases (find id j.runs)) [
    | inl missing ↦ absurd (ground (arith, reported, missing))
    | inr (run, found) ↦ elim (RunState-cases run.state) [
      | inr done ↦ absurd (ground (arith, reported, found, done))
      | inl is_open ↦ (
        (run, (found, is_open)),
        subst (λ p. Recorded j p.0 id parts e) (sym (locked run found is_open))
            (locked-Recorded j id parts w e
              (ap (λ p. p.1) (sym (locked run found is_open)) ∙ reported)),
      )
    ]
  ]
    where
      locked :
          (run : Run J)
          → find id j.runs ≡ some run
          → run.state ≡ open_state
          → append_event J j id parts w ≡ append_event_locked J j id parts w
      locked run a b = ground (arith, a, b)

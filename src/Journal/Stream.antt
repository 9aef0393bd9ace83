-- ===== src/Journal/Stream.antt =====
-- The streams of events in core/runs/run_journal.cpp: their sequences, append_event and list_events.
use anolis.Base.{
  ℕ, suc, ◌%◌, ◌^◌, Option, none, some, List, [], ◌∷◌, if◌then◌else◌, ltb, eqb, take, drop,
  is_empty, Text, text_key, find, assign,
}
use anolis.Journal.{Json, open_state, closed_state, RunEvent}
use anolis.Journal.Codec.{event_to_json, run_event_from_json}
use anolis.Journal.Files.{lines, contents, WriteEnd, append_line}
use anolis.Journal.Records.{RunJournal, EventParts}

module _ (J : Json) where
  open J use {dump, parse, is_object, object}

  -- What a line of a stream says, where it is whole.
  unfoldable pub event_of_line : Text → Option (RunEvent J)
  unfolding run_event_from_json
  event_of_line line =
      if is_empty line
      then none
      else elim (parse line) [ none ↦ none | some d ↦ run_event_from_json J d ]

  -- The scan for the largest sequence of a stream.
  unfoldable pub max_sequence : ℕ → List Text → ℕ
  unfolding event_of_line
  max_sequence top [] = top
  max_sequence top (line ∷ ls) =
      max_sequence
        (elim (event_of_line line) [
          | none ↦ top
          | some e ↦ if ltb top e.sequence then e.sequence else top
        ])
        ls

  unfoldable pub next_sequence : RunJournal J → Text → ℕ
  unfolding find max_sequence lines
  next_sequence j id = elim (find id j.next_seq) [
    | some n ↦ n
    | none ↦ suc (max_sequence 0 (lines (contents (find id j.event_files)))) % 2 ^ 64
  ]

  unfoldable pub event_of : RunJournal J → Text → EventParts J → RunEvent J
  unfolding next_sequence
  event_of j id parts = record {
    event_run_id = id;
    sequence = next_sequence j id;
    category = parts.event_category;
    event_type = parts.event_text;
    occurred_at = if eqb parts.event_occurred 0 then parts.clock_ms else parts.event_occurred;
    recorded_at = parts.clock_ms;
    payload = if is_object parts.event_payload then parts.event_payload else object [];
    event_schema_version = 1;
  }

  unfoldable pub append_event_locked :
      RunJournal J → Text → EventParts J → WriteEnd → RunJournal J × Option (RunEvent J)
  unfolding event_of append_line assign event_to_json
  append_event_locked j id parts w =
      let event = event_of j id parts in
      let a = append_line (find id j.event_files) (dump (event_to_json J event)) w in
      (
        record j {
          event_files = elim a.file [ none ↦ j.event_files | some t ↦ assign id t j.event_files ];
          next_seq =
              if a.is_written
              then assign id (suc event.sequence % 2 ^ 64) j.next_seq
              else j.next_seq;
        },
        if a.is_synced then some event else none,
      )

  unfoldable pub append_event :
      RunJournal J → Text → EventParts J → WriteEnd → RunJournal J × Option (RunEvent J)
  unfolding append_event_locked find
  append_event j id parts w = elim (find id j.runs) [
    | none ↦ (j, none)
    | some r ↦ elim r.state [
      | closed_state ↦ (j, none)
      | open_state ↦ append_event_locked j id parts w
    ]
  ]

  unfoldable pub events_of_lines : List Text → List (RunEvent J)
  unfolding event_of_line
  events_of_lines [] = []
  events_of_lines (line ∷ ls) = elim (event_of_line line) [
    | none ↦ events_of_lines ls
    | some e ↦ e ∷ events_of_lines ls
  ]

  unfoldable pub list_events : RunJournal J → Text → ℕ → ℕ → List (RunEvent J)
  unfolding lines find events_of_lines
  list_events j id limit offset =
      take limit (drop offset (events_of_lines (lines (contents (find id j.event_files)))))

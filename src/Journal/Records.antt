-- ===== src/Journal/Records.antt =====
-- The state of RunJournal in core/runs/run_journal.hpp, what an event and an open() are given, and the
-- append of a record to the index.
use anolis.Base.{ℕ, Bool, false, Option, none, List, [], Text, text_key, Map, ℤ}
use anolis.Journal.{Json, RunEventCategory, TagScope, AutomationVersion, Run}
use anolis.Journal.Files.{WriteEnd, append_line}
use anolis.Journal.Log.{line_of}

pub record QueuedEvent (J : Json) : Type 0 where
  pub queued_category : RunEventCategory
  pub queued_type : Text
  pub queued_payload : J.Document
  pub queued_at : ℕ

pub record RunJournal (J : Json) : Type 0 where
  pub running : Bool
  pub runs : Map Text (Run J)
  pub order : List Text
  pub open_run_id : Option Text
  pub next_seq : Map Text ℕ
  pub fault_queue : List (QueuedEvent J)
  pub events_dropped : ℕ
  pub index_file : Option Text
  pub event_files : Map Text Text

-- What an event is made of, with the clock as it is read.
pub record EventParts (J : Json) : Type 0 where
  pub event_category : RunEventCategory
  pub event_text : Text
  pub event_payload : J.Document
  pub event_occurred : ℕ
  pub clock_ms : ℕ

-- RunOpenSpec, the version, and what open() adds: the id that it mints, the time, the build's version and
-- the interval of the journal.
pub record OpenSpec (J : Json) : Type 0 where
  pub minted_id : Text
  pub open_label : Option Text
  pub open_params : J.Document
  pub open_scope : TagScope
  pub open_version : Option AutomationVersion
  pub open_at : ℕ
  pub build_version : Text
  pub interval_ms : ℤ

module _ (J : Json) where
  -- A journal whose files are not there, before its first start.
  abbrev pub new_journal : RunJournal J
  new_journal = record {
    running = false;
    runs = [];
    order = [];
    open_run_id = none;
    next_seq = [];
    fault_queue = [];
    events_dropped = 0;
    index_file = none;
    event_files = [];
  }

  unfoldable pub append_record : RunJournal J → Run J → WriteEnd → RunJournal J × Bool
  unfolding append_line
  append_record j run w =
      let a = append_line j.index_file (line_of J run) w in
      (record j { index_file = a.file }, a.is_synced)

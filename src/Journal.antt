-- ===== src/Journal.antt =====
-- core/runs/{run_types.hpp,run_journal.hpp,run_journal.cpp}: the journal of runs, its records and its
-- files. JSON values and their text are nlohmann::json's, a parameter with what the journal relies on.
-- The texts in a record are UTF-8, which dump() asks for, and a stored document has no NaN.
pub mod Codec
pub mod Readback
pub mod Files
pub mod Lines
pub mod Log
pub mod Records
pub mod Stream
pub mod Operations
pub mod Settled
pub mod Closing
pub mod Single
pub mod Open
pub mod Streams
pub mod Kept
use anolis.Base.{
  ℕ, ◌<◌, ◌≡◌, ◌≢◌, Bool, true, false, Option, none, some, List, [], ◌∷◌, map, length, take, Text,
  codes, text_eq, text_key, find, ℤ, All, eqb, if◌then◌else◌,
}

pub record Json : Type 1 where
  pub Document : Type 0
  pub dump : Document → Text
  pub parse : Text → Option Document
  pub null : Document
  pub text : Text → Document
  pub boolean : Bool → Document
  pub unsigned : ℕ → Document
  pub integer : ℤ → Document
  pub array : List Document → Document
  pub object : List (Text × Document) → Document
  pub is_object : Document → Bool
  pub member : Text → Document → Option Document
  pub elements : Document → List Document
  pub as_text : Document → Option Text
  pub is_unsigned : Document → Bool
  pub as_unsigned : Document → Option ℕ
  pub as_int : Document → Option ℤ
  pub parse-dump : (d : Document) → parse (dump d) ≡ some d
  pub dump_one_line : (d : Document) → All (λ c. eqb c 10 ≡ false) (dump d)
  pub dump_given : (d : Document) → dump d ≢ []
  pub parse_cut :
      (ms : List (Text × Document)) (n : ℕ)
      → n < length (dump (object ms))
      → parse (take n (dump (object ms))) ≡ none
  pub object_is : (ms : List (Text × Document)) → is_object (object ms) ≡ true
  pub member-object : (k : Text) (ms : List (Text × Document)) → member k (object ms) ≡ find k ms
  pub elements-array : (ds : List Document) → elements (array ds) ≡ ds
  pub text_read : (s : Text) → as_text (text s) ≡ some s
  pub unsigned_is : (n : ℕ) → is_unsigned (unsigned n) ≡ true
  pub unsigned_read : (n : ℕ) → as_unsigned (unsigned n) ≡ some n
  pub int_read : (n : ℤ) → as_int (integer n) ≡ some n
  pub null_no_text : as_text null ≡ none
  pub null_no_number : is_unsigned null ≡ false
  pub null_no_object : is_object null ≡ false

pub data RunState : Type 0 where
  open_state closed_state : RunState

pub data CloseReason : Type 0 where
  operator_stop completed failed superseded abandoned : CloseReason

unfoldable pub run_state_to_string : RunState → Text
run_state_to_string open_state = codes "open"
run_state_to_string closed_state = codes "closed"

unfoldable pub close_reason_to_string : CloseReason → Text
close_reason_to_string operator_stop = codes "operator_stop"
close_reason_to_string completed = codes "completed"
close_reason_to_string failed = codes "failed"
close_reason_to_string superseded = codes "superseded"
close_reason_to_string abandoned = codes "abandoned"

unfoldable pub close_reason_from_string : Text → Option CloseReason
close_reason_from_string s =
    if text_eq s (codes "operator_stop")
    then some operator_stop
    else if text_eq s (codes "completed")
    then some completed
    else if text_eq s (codes "failed")
    then some failed
    else if text_eq s (codes "superseded")
    then some superseded
    else if text_eq s (codes "abandoned")
    then some abandoned
    else none

pub data RunEventCategory : Type 0 where
  run_opened run_closed mode_changed parameter_changed automation_faulted annotation :
      RunEventCategory

unfoldable pub category_to_string : RunEventCategory → Text
category_to_string run_opened = codes "run_opened"
category_to_string run_closed = codes "run_closed"
category_to_string mode_changed = codes "mode_change"
category_to_string parameter_changed = codes "parameter_change"
category_to_string automation_faulted = codes "automation_fault"
category_to_string annotation = codes "annotation"

unfoldable pub run_event_category_from_string : Text → Option RunEventCategory
run_event_category_from_string s =
    if text_eq s (codes "run_opened")
    then some run_opened
    else if text_eq s (codes "run_closed")
    then some run_closed
    else if text_eq s (codes "mode_change")
    then some mode_changed
    else if text_eq s (codes "parameter_change")
    then some parameter_changed
    else if text_eq s (codes "automation_fault")
    then some automation_faulted
    else if text_eq s (codes "annotation")
    then some annotation
    else none

pub record TagScope : Type 0 where
  pub provider_ids : List Text
  pub device_ids : List Text
  pub signal_ids : List Text

pub record AutomationVersion : Type 0 where
  pub engine_kind : Text
  pub version_id : Text
  pub digest : Text
  pub digest_scope : Text

pub record Run (J : Json) : Type 0 where
  pub run_id : Text
  pub label : Option Text
  pub state : RunState
  pub close_reason : Option CloseReason
  pub started_at : ℕ
  pub ended_at : Option ℕ
  pub automation_version : Option AutomationVersion
  pub runtime_version : Text
  pub polling_interval_ms : ℤ
  pub params : J.Document
  pub tag_scope : TagScope
  pub schema_version : ℕ

pub record RunEvent (J : Json) : Type 0 where
  pub event_run_id : Text
  pub sequence : ℕ
  pub category : RunEventCategory
  pub event_type : Text
  pub occurred_at : ℕ
  pub recorded_at : ℕ
  pub payload : J.Document
  pub event_schema_version : ℕ

-- ===== src/Journal/Codec.antt =====
-- to_json and the readers of core/runs/run_journal.cpp. A read that throws is `none`, which the callers
-- take for a malformed line.
use anolis.Base.{
  ℕ, not, Option, none, some, List, [], ◌∷◌, map, if◌then◌else◌, Text, codes, text_eq, ℤ, pos,
}
use anolis.Journal.{
  Json, open_state, closed_state, CloseReason, TagScope, AutomationVersion, Run, RunEvent,
  run_state_to_string, close_reason_to_string, close_reason_from_string, category_to_string,
  run_event_category_from_string,
}

infixl 5 ◌>>=◌
abbrev ◌>>=◌ {ℓ κ} : {A : Type ℓ} {B : Type κ} → Option A → (A → Option B) → Option B
none >>= f = none
some a >>= f = f a

module _ (J : Json) where
  open J use {
    Document, null, text, unsigned, integer, array, object, is_object, member, elements, as_text,
    is_unsigned, as_unsigned, as_int,
  }

  -- j.value(key, default).
  unfoldable pub text_or : Document → Text → Text → Option Text
  text_or j key default = elim (member key j) [ none ↦ some default | some v ↦ as_text v ]

  unfoldable pub unsigned_or : Document → Text → ℕ → Option ℕ
  unsigned_or j key default = elim (member key j) [ none ↦ some default | some v ↦ as_unsigned v ]

  unfoldable pub int_or : Document → Text → ℤ → Option ℤ
  int_or j key default = elim (member key j) [ none ↦ some default | some v ↦ as_int v ]

  -- `j.contains(key) && j[key].is_string()`, and the text.
  unfoldable pub optional_text : Document → Text → Option Text
  optional_text j key = elim (member key j) [ none ↦ none | some v ↦ as_text v ]

  unfoldable pub optional_unsigned : Document → Text → Option ℕ
  optional_unsigned j key = elim (member key j) [
    | none ↦ none
    | some v ↦ if is_unsigned v then as_unsigned v else none
  ]

  unfoldable pub optional_object : Document → Text → Option Document
  optional_object j key = elim (member key j) [
    | none ↦ none
    | some v ↦ if is_object v then some v else none
  ]

  abbrev pub texts_of : List Document → List Text
  texts_of [] = []
  texts_of (d ∷ ds) = elim (as_text d) [ some s ↦ s ∷ texts_of ds | none ↦ texts_of ds ]

  unfoldable pub to_str_vec : Document → List Text
  to_str_vec d = texts_of (elements d)

  abbrev pub or_null : Option Document → Document
  or_null none = null
  or_null (some d) = d

  unfoldable pub scope_to_json : TagScope → Document
  scope_to_json scope = object (
      (codes "provider_ids", array (map text scope.provider_ids))
      ∷ (codes "device_ids", array (map text scope.device_ids))
      ∷ (codes "signal_ids", array (map text scope.signal_ids))
      ∷ [])

  unfoldable pub version_to_json : AutomationVersion → Document
  version_to_json v = object (
      (codes "engine_kind", text v.engine_kind)
      ∷ (codes "id", text v.version_id)
      ∷ (codes "digest", text v.digest)
      ∷ (codes "digest_scope", text v.digest_scope)
      ∷ [])

  -- to_json(RunEvent).
  abbrev pub event_members : RunEvent J → List (Text × Document)
  event_members e =
      (codes "schema_version", unsigned e.event_schema_version)
      ∷ (codes "run_id", text e.event_run_id)
      ∷ (codes "sequence", unsigned e.sequence)
      ∷ (codes "category", text (category_to_string e.category))
      ∷ (codes "type", text e.event_type)
      ∷ (codes "occurred_at_epoch_ms", unsigned e.occurred_at)
      ∷ (codes "recorded_at_epoch_ms", unsigned e.recorded_at)
      ∷ (codes "payload", e.payload)
      ∷ []

  unfoldable pub event_to_json : RunEvent J → Document
  unfolding category_to_string
  event_to_json e = object (event_members e)

  unfoldable pub run_event_from_json : Document → Option (RunEvent J)
  unfolding text_or unsigned_or optional_text optional_object run_event_category_from_string
  run_event_from_json j = if not (is_object j) then none else do
    id ← optional_text j (codes "run_id")
    name ← text_or j (codes "category") (codes "annotation")
    cat ← run_event_category_from_string name
    version ← unsigned_or j (codes "schema_version") 1
    seq ← unsigned_or j (codes "sequence") 0
    type ← text_or j (codes "type") []
    occurred ← unsigned_or j (codes "occurred_at_epoch_ms") 0
    recorded ← unsigned_or j (codes "recorded_at_epoch_ms") 0
    some (record {
      event_run_id = id;
      sequence = seq;
      category = cat;
      event_type = type;
      occurred_at = occurred;
      recorded_at = recorded;
      payload = elim (optional_object j (codes "payload")) [ some d ↦ d | none ↦ object [] ];
      event_schema_version = version;
    })

  -- to_json(Run).
  abbrev pub run_members : Run J → List (Text × Document)
  run_members r =
      (codes "schema_version", unsigned r.schema_version)
      ∷ (codes "run_id", text r.run_id)
      ∷ (codes "state", text (run_state_to_string r.state))
      ∷ (codes "started_at_epoch_ms", unsigned r.started_at)
      ∷ (codes "runtime_version", text r.runtime_version)
      ∷ (codes "polling_interval_ms", integer r.polling_interval_ms)
      ∷ (codes "params", r.params)
      ∷ (codes "tag_scope", scope_to_json r.tag_scope)
      ∷ (codes "label", elim r.label [ none ↦ null | some s ↦ text s ])
      ∷ (codes "experiment_label", elim r.label [ none ↦ null | some s ↦ text s ])
      ∷ (
        codes "close_reason",
        elim r.close_reason [ none ↦ null | some reason ↦ text (close_reason_to_string reason) ],
      )
      ∷ (codes "ended_at_epoch_ms", elim r.ended_at [ none ↦ null | some n ↦ unsigned n ])
      ∷ (
        codes "automation_version",
        elim r.automation_version [ none ↦ null | some v ↦ version_to_json v ],
      )
      ∷ []

  unfoldable pub run_to_json : Run J → Document
  run_to_json r = object (run_members r)

  unfoldable pub label_of : Document → Option Text
  unfolding optional_text
  label_of j = elim (optional_text j (codes "label")) [
    | some s ↦ some s
    | none ↦ optional_text j (codes "experiment_label")
  ]

  unfoldable pub close_reason_of : Document → Option CloseReason
  unfolding optional_text close_reason_from_string
  close_reason_of j = optional_text j (codes "close_reason") >>= close_reason_from_string

  -- tag_scope.value(key, array()).
  unfoldable pub ids_of : Document → Text → List Text
  unfolding to_str_vec
  ids_of scope key = elim (member key scope) [ none ↦ [] | some d ↦ to_str_vec d ]

  unfoldable pub scope_of : Document → TagScope
  unfolding optional_object ids_of
  scope_of j = elim (optional_object j (codes "tag_scope")) [
    | none ↦ record { provider_ids = []; device_ids = []; signal_ids = [] }
    | some scope ↦ record {
      provider_ids = ids_of scope (codes "provider_ids");
      device_ids = ids_of scope (codes "device_ids");
      signal_ids = ids_of scope (codes "signal_ids");
    }
  ]

  -- The outer `none` is a read that throws.
  unfoldable pub version_of : Document → Option (Option AutomationVersion)
  unfolding optional_object text_or
  version_of j = elim (optional_object j (codes "automation_version")) [
    | none ↦ some none
    | some v ↦ do
      kind ← text_or v (codes "engine_kind") []
      id ← text_or v (codes "id") []
      digest ← text_or v (codes "digest") []
      scope ← text_or v (codes "digest_scope") []
      some (
          some
            (record { engine_kind = kind; version_id = id; digest = digest; digest_scope = scope }))
  ]

  unfoldable pub run_from_json : Document → Option (Run J)
  unfolding optional_text optional_unsigned optional_object text_or unsigned_or int_or label_of
      close_reason_of scope_of version_of
  run_from_json j = if not (is_object j) then none else do
    id ← optional_text j (codes "run_id")
    schema ← unsigned_or j (codes "schema_version") 1
    state_name ← text_or j (codes "state") (codes "open")
    started ← unsigned_or j (codes "started_at_epoch_ms") 0
    runtime ← text_or j (codes "runtime_version") []
    interval ← int_or j (codes "polling_interval_ms") (pos 0)
    version ← version_of j
    some (record {
      run_id = id;
      label = label_of j;
      state = if text_eq state_name (codes "closed") then closed_state else open_state;
      close_reason = close_reason_of j;
      started_at = started;
      ended_at = optional_unsigned j (codes "ended_at_epoch_ms");
      automation_version = version;
      runtime_version = runtime;
      polling_interval_ms = interval;
      params = elim (optional_object j (codes "params")) [ some d ↦ d | none ↦ object [] ];
      tag_scope = scope_of j;
      schema_version = schema;
    })

  -- The label of a request, or `none` where its two names differ.
  unfoldable pub label_from_open_request : Document → Option (Option Text)
  unfolding optional_text
  label_from_open_request body = elim (optional_text body (codes "label")) [
    | none ↦ some (optional_text body (codes "experiment_label"))
    | some current ↦ elim (optional_text body (codes "experiment_label")) [
      | none ↦ some (some current)
      | some deprecated ↦ if not (text_eq current deprecated) then none else some (some current)
    ]
  ]

-- ===== src/Journal/Readback.antt =====
-- Reading a run back from the document that it is written as.
use anolis.Base.{
  ℕ, ◌≡◌, refl, ap, ◌∙◌, true, Option, none, some, List, [], ◌∷◌, map, if◌then◌else◌, Text, codes,
  text_eq, text_key, find, ℤ, pos, arith,
}
use anolis.Journal.{
  Json, RunState, open_state, closed_state, CloseReason, operator_stop, completed, failed,
  superseded, abandoned, TagScope, AutomationVersion, Run, run_state_to_string,
  close_reason_to_string, close_reason_from_string,
}
use anolis.Journal.Codec.{
  text_or, unsigned_or, int_or, optional_text, optional_unsigned, optional_object, texts_of,
  to_str_vec, scope_to_json, version_to_json, run_members, run_to_json, label_of, close_reason_of,
  ids_of, scope_of, version_of, run_from_json,
}

pub close_reason_read :
    (r : CloseReason) → close_reason_from_string (close_reason_to_string r) ≡ some r
unfolding close_reason_from_string close_reason_to_string
close_reason_read operator_stop = refl
close_reason_read completed = refl
close_reason_read failed = refl
close_reason_read superseded = refl
close_reason_read abandoned = refl

state_read :
    (s : RunState)
    → (if text_eq (run_state_to_string s) (codes "closed") then closed_state else open_state) ≡ s
unfolding run_state_to_string
state_read open_state = refl
state_read closed_state = refl

module _ (J : Json) where
  open J use {
    Document, text, unsigned, integer, array, object, is_object, member, as_text, member-object,
    object_is, text_read, unsigned_is, unsigned_read, int_read, elements-array, null_no_text,
    null_no_number, null_no_object,
  }

  texts_of-text : (ss : List Text) → texts_of J (map text ss) ≡ ss
  texts_of-text [] = refl
  texts_of-text (s ∷ ss) = rw (text_read s) (ap (λ r. s ∷ r) (texts_of-text ss))

  pub text_or-object :
      (ms : List (Text × Document)) (key default s : Text)
      → find key ms ≡ some (text s)
      → text_or J (object ms) key default ≡ some s
  unfolding text_or
  text_or-object ms key default s e = ground (arith, member-object key ms, e, text_read s)

  pub unsigned_or-object :
      (ms : List (Text × Document)) (key : Text) (default n : ℕ)
      → find key ms ≡ some (unsigned n)
      → unsigned_or J (object ms) key default ≡ some n
  unfolding unsigned_or
  unsigned_or-object ms key default n e = ground (arith, member-object key ms, e, unsigned_read n)

  int_or-object :
      (ms : List (Text × Document)) (key : Text) (default n : ℤ)
      → find key ms ≡ some (integer n)
      → int_or J (object ms) key default ≡ some n
  unfolding int_or
  int_or-object ms key default n e = ground (arith, member-object key ms, e, int_read n)

  pub optional_text-object :
      (ms : List (Text × Document)) (key s : Text)
      → find key ms ≡ some (text s)
      → optional_text J (object ms) key ≡ some s
  unfolding optional_text
  optional_text-object ms key s e = ground (arith, member-object key ms, e, text_read s)

  pub optional_object-object :
      (ms : List (Text × Document)) (key : Text) (d : Document)
      → find key ms ≡ some d
      → is_object d ≡ true
      → optional_object J (object ms) key ≡ some d
  unfolding optional_object
  optional_object-object ms key d e is = ground (arith, member-object key ms, e, is)

  -- A member that is null where there is nothing to write.
  label_from :
      (ms : List (Text × Document)) (o : Option Text)
      → find (codes "label") ms ≡ some (elim o [ none ↦ J.null | some s ↦ text s ])
      → find (codes "experiment_label") ms ≡ some (elim o [ none ↦ J.null | some s ↦ text s ])
      → label_of J (object ms) ≡ o
  unfolding label_of optional_text
  label_from ms none e e' = ground (
    arith,
    member-object (codes "label") ms,
    e,
    member-object (codes "experiment_label") ms,
    e',
    null_no_text,
  )
  label_from ms (some s) e e' = ground (arith, member-object (codes "label") ms, e, text_read s)

  ended_from :
      (ms : List (Text × Document)) (key : Text) (o : Option ℕ)
      → find key ms ≡ some (elim o [ none ↦ J.null | some n ↦ unsigned n ])
      → optional_unsigned J (object ms) key ≡ o
  unfolding optional_unsigned
  ended_from ms key none e = ground (arith, member-object key ms, e, null_no_number)
  ended_from ms key (some n) e =
      ground (arith, member-object key ms, e, unsigned_is n, unsigned_read n)

  reason_from :
      (ms : List (Text × Document)) (o : Option CloseReason)
      → find (codes "close_reason") ms
        ≡ some (elim o [ none ↦ J.null | some reason ↦ text (close_reason_to_string reason) ])
      → close_reason_of J (object ms) ≡ o
  unfolding close_reason_of optional_text
  reason_from ms none e = ground (arith, member-object (codes "close_reason") ms, e, null_no_text)
  reason_from ms (some reason) e = ground (
    arith,
    member-object (codes "close_reason") ms,
    e,
    text_read (close_reason_to_string reason),
    close_reason_read reason,
  )

  ids_from :
      (ms : List (Text × Document)) (key : Text) (ss : List Text)
      → find key ms ≡ some (array (map text ss))
      → ids_of J (object ms) key ≡ ss
  unfolding ids_of to_str_vec
  ids_from ms key ss e =
      ground (arith, member-object key ms, e, elements-array (map text ss), texts_of-text ss)

  scope_from :
      (ms : List (Text × Document)) (scope : TagScope)
      → find (codes "tag_scope") ms ≡ some (scope_to_json J scope)
      → scope_of J (object ms) ≡ scope
  unfolding scope_of scope_to_json find
  scope_from ms scope e = ground (
    arith,
    optional_object-object ms (codes "tag_scope") (object ids) e (object_is ids),
    ids_from ids (codes "provider_ids") scope.provider_ids refl,
    ids_from ids (codes "device_ids") scope.device_ids refl,
    ids_from ids (codes "signal_ids") scope.signal_ids refl,
  )
    where
      ids : List (Text × Document)
      ids =
          (codes "provider_ids", array (map text scope.provider_ids))
          ∷ (codes "device_ids", array (map text scope.device_ids))
          ∷ (codes "signal_ids", array (map text scope.signal_ids))
          ∷ []

  version_from :
      (ms : List (Text × Document)) (o : Option AutomationVersion)
      → find (codes "automation_version") ms
        ≡ some (elim o [ none ↦ J.null | some v ↦ version_to_json J v ])
      → version_of J (object ms) ≡ some o
  unfolding version_of version_to_json optional_object find
  version_from ms none e =
      ground (arith, member-object (codes "automation_version") ms, e, null_no_object)
  version_from ms (some v) e = ground (
    arith,
    member-object (codes "automation_version") ms,
    e,
    object_is parts,
    text_or-object parts (codes "engine_kind") [] v.engine_kind refl,
    text_or-object parts (codes "id") [] v.version_id refl,
    text_or-object parts (codes "digest") [] v.digest refl,
    text_or-object parts (codes "digest_scope") [] v.digest_scope refl,
  )
    where
      parts : List (Text × Document)
      parts =
          (codes "engine_kind", text v.engine_kind)
          ∷ (codes "id", text v.version_id)
          ∷ (codes "digest", text v.digest)
          ∷ (codes "digest_scope", text v.digest_scope)
          ∷ []

  params_from :
      (ms : List (Text × Document)) (d : Document)
      → find (codes "params") ms ≡ some d
      → elim (optional_object J (object ms) (codes "params")) as (λ _. Document) [
        | some p ↦ p
        | none ↦ object []
      ]
        ≡ (if is_object d then d else object [])
  unfolding optional_object
  params_from ms d e = ground (arith, member-object (codes "params") ms, e)

  -- Parameters that are no object are dropped.
  abbrev pub normal : Run J → Run J
  normal r = record r { params = if is_object r.params then r.params else object [] }

  pub run_from_json-normal : (r : Run J) → run_from_json J (run_to_json J r) ≡ some (normal r)
  unfolding run_from_json run_to_json find
  run_from_json-normal r = ground (
    arith,
    object_is ms,
    optional_text-object ms (codes "run_id") r.run_id refl,
    unsigned_or-object ms (codes "schema_version") 1 r.schema_version refl,
    text_or-object ms (codes "state") (codes "open") (run_state_to_string r.state) refl,
    unsigned_or-object ms (codes "started_at_epoch_ms") 0 r.started_at refl,
    text_or-object ms (codes "runtime_version") [] r.runtime_version refl,
    int_or-object ms (codes "polling_interval_ms") (pos 0) r.polling_interval_ms refl,
    version_from ms r.automation_version refl,
    label_from ms r.label refl refl,
    reason_from ms r.close_reason refl,
    ended_from ms (codes "ended_at_epoch_ms") r.ended_at refl,
    params_from ms r.params refl,
    scope_from ms r.tag_scope refl,
    state_read r.state,
  )
    where
      ms : List (Text × Document)
      ms = run_members J r

  pub normal-object : (r : Run J) → is_object r.params ≡ true → normal r ≡ r
  normal-object r h = ground (arith, h)

  -- A run whose parameters are an object is read back from the document that it is written as.
  pub run_from_json-run_to_json :
      (r : Run J) → is_object r.params ≡ true → run_from_json J (run_to_json J r) ≡ some r
  run_from_json-run_to_json r h = run_from_json-normal r ∙ ap some (normal-object r h)

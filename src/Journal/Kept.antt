-- ===== src/Journal/Kept.antt =====
-- The events of a stream where the write of one fails or is cut off.
use anolis.Base.{
  ℕ, ◌≤◌, ◌≡◌, ◌⊎◌, refl, sym, ap, subst, ◌∙◌, true, false, Option, none, some, List, [], ◌∷◌, ◌++◌,
  length, take, Text, text_key, find, assign, find-assign, beq_refl, ltb, arith, inl, inr,
  Bool-cases, Option-cases,
}
use anolis.Journal.{Json, open_state, closed_state, Run, RunEvent}
use anolis.Journal.Codec.{event_members, event_to_json}
use anolis.Journal.Files.{
  lines, contents, appended, WriteEnd, written, cannot_open, not_synced, directory_not_synced,
  cut_off, append_line,
}
use anolis.Journal.Lines.{lines-cut, take_all}
use anolis.Journal.Records.{RunJournal, EventParts}
use anolis.Journal.Stream.{
  event_of_line, event_of, append_event_locked, append_event, events_of_lines,
}
use anolis.Journal.Settled.{RunState-cases}
use anolis.Journal.Streams.{
  stream, event_read, events_of_lines-append, events_appended, event_of-is_object,
}

module _ (J : Json) where
  open J use {dump, is_object, object, parse, parse_cut, dump_one_line}

  events_of_lines-append_none :
      (ls : List Text) (line : Text)
      → event_of_line J line ≡ none
      → events_of_lines J (ls ++ line ∷ []) ≡ events_of_lines J ls
  unfolding events_of_lines
  events_of_lines-append_none [] line h = ground (arith, h)
  events_of_lines-append_none (l ∷ ls) line h =
      ground (arith, events_of_lines-append_none ls line h)

  -- A part of a line is no event or the whole one.
  event_part :
      (e : RunEvent J) (k : ℕ)
      → is_object e.payload ≡ true
      → k ≤ length (dump (event_to_json J e))
      → (event_of_line J (take k (dump (event_to_json J e))) ≡ none)
        ⊎ (event_of_line J (take k (dump (event_to_json J e))) ≡ some e)
  unfolding event_of_line event_to_json
  event_part e k is le = elim (Bool-cases (ltb k (length line))) [
    | inl short ↦ inl (ground (arith, parse_cut (event_members J e) k (ground (arith, short))))
    | inr long ↦ inr (
        ap (λ n. event_of_line J (take n line)) (same_length long)
        ∙ ap (event_of_line J) (take_all line)
        ∙ event_read J e is)
  ]
    where
      line : Text
      line = dump (event_to_json J e)

      same_length : ltb k (length line) ≡ false → k ≡ length line
      same_length h = ground (arith, h, le)

  abbrev KeptOrAdded : List (RunEvent J) → RunEvent J → List (RunEvent J) → Type 0
  KeptOrAdded before e after = (after ≡ before) ⊎ (after ≡ before ++ e ∷ [])

  abbrev events_in : Option Text → List (RunEvent J)
  events_in file = events_of_lines J (lines (contents file))

  cut_kept :
      (file : Option Text) (e : RunEvent J) (n : ℕ)
      → is_object e.payload ≡ true
      → KeptOrAdded (events_in file) e (
          events_in
            (some (contents file ++ take n (appended (contents file) (dump (event_to_json J e))))))
  cut_kept file e n is =
      elim (lines-cut (contents file) (dump (event_to_json J e)) n
        (dump_one_line (event_to_json J e))) [
          | inl same ↦ inl (ap (events_of_lines J) same)
          | inr (k, (le, one)) ↦ elim (event_part e k is le) [
            | inl nothing ↦ inl (
                ap (events_of_lines J) one
                ∙ events_of_lines-append_none (lines (contents file))
                    (take k (dump (event_to_json J e))) nothing)
            | inr whole ↦ inr (
                ap (events_of_lines J) one
                ∙ events_of_lines-append J (lines (contents file))
                    (take k (dump (event_to_json J e))) e whole)
          ]
        ]

  append_line-kept :
      (file : Option Text) (e : RunEvent J) (w : WriteEnd)
      → is_object e.payload ≡ true
      → KeptOrAdded
          (events_in file)
          e
          (events_in (append_line file (dump (event_to_json J e)) w).file)
  unfolding append_line
  append_line-kept file e written is = inr (events_appended J (contents file) e is)
  append_line-kept file e not_synced is = inr (events_appended J (contents file) e is)
  append_line-kept file e directory_not_synced is = inr (events_appended J (contents file) e is)
  append_line-kept file e cannot_open is = inl refl
  append_line-kept file e (cut_off n) is = cut_kept file e n is

  stored :
      (j : RunJournal J) (id : Text) (o : Option Text)
      → (o ≡ none → find id j.event_files ≡ none)
      → find id (elim o as (λ _. List (Text × Text)) [
        | none ↦ j.event_files
        | some t ↦ assign id t j.event_files
      ])
        ≡ o
  stored j id none h = h refl
  stored j id (some t) h = ground (arith, find-assign id id t j.event_files, beq_refl id)

  no_file :
      (file : Option Text) (line : Text) (w : WriteEnd)
      → (append_line file line w).file ≡ none
      → file ≡ none
  unfolding append_line
  no_file file line written e = absurd (ground (arith, e))
  no_file file line not_synced e = absurd (ground (arith, e))
  no_file file line directory_not_synced e = absurd (ground (arith, e))
  no_file file line cannot_open e = e
  no_file file line (cut_off n) e = absurd (ground (arith, e))

  locked_kept :
      (j : RunJournal J) (id : Text) (parts : EventParts J) (w : WriteEnd)
      → KeptOrAdded
          (stream J j id)
          (event_of J j id parts)
          (stream J (append_event_locked J j id parts w).0 id)
  unfolding append_event_locked
  locked_kept j id parts w =
      subst (λ o. KeptOrAdded (stream J j id) event (events_in o))
        (sym (
          stored j id (append_line file (dump (event_to_json J event)) w).file
            (no_file file (dump (event_to_json J event)) w)))
        (append_line-kept file event w (event_of-is_object J j id parts))
    where
      event : RunEvent J
      event = event_of J j id parts

      file : Option Text
      file = find id j.event_files

  -- However the write of an event ends, the stream is as it was or has the whole event at its end.
  pub append_event-kept :
      (j : RunJournal J) (id : Text) (parts : EventParts J) (w : WriteEnd)
      → (stream J (append_event J j id parts w).0 id ≡ stream J j id)
        ⊎ (stream J (append_event J j id parts w).0 id
            ≡ stream J j id ++ event_of J j id parts ∷ [])
  unfolding append_event
  append_event-kept j id parts w = elim (Option-cases (find id j.runs)) [
    | inl missing ↦ inl (ap (λ p. stream J p.0 id) (unknown missing))
    | inr (run, found) ↦ elim (RunState-cases run.state) [
      | inr done ↦ inl (ap (λ p. stream J p.0 id) (immutable run found done))
      | inl is_open ↦
          subst (λ p. KeptOrAdded (stream J j id) (event_of J j id parts) (stream J p.0 id))
            (sym (locked run found is_open)) (locked_kept j id parts w)
    ]
  ]
    where
      unknown : find id j.runs ≡ none → append_event J j id parts w ≡ (j, none)
      unknown a = ground (arith, a)

      immutable :
          (run : Run J)
          → find id j.runs ≡ some run
          → run.state ≡ closed_state
          → append_event J j id parts w ≡ (j, none)
      immutable run a b = ground (arith, a, b)

      locked :
          (run : Run J)
          → find id j.runs ≡ some run
          → run.state ≡ open_state
          → append_event J j id parts w ≡ append_event_locked J j id parts w
      locked run a b = ground (arith, a, b)

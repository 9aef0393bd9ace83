-- ===== src/Journal/Log.antt =====
-- The run log as RunJournal::initialize reads it, where a later record of a run takes the place of an
-- earlier one, and what an append does to that.
use anolis.Base.{
  ℕ, ◌≤◌, ◌≡◌, ◌≢◌, ◌⊎◌, refl, sym, ap, ◌∙◌, true, false, Option, none, some, List, [], ◌∷◌, ◌++◌,
  if◌then◌else◌, take, length, is_empty, Text, text_eq, text_eq_iff, text_key, Map, find, assign,
  find-assign, beq_refl, arith, inl, inr, Bool-cases, ltb,
}
use anolis.Journal.{Json, Run}
use anolis.Journal.Codec.{run_to_json, run_from_json, run_members}
use anolis.Journal.Readback.{run_from_json-normal, normal, normal-object}
use anolis.Journal.Files.{
  lines, contents, appended, WriteEnd, written, cannot_open, not_synced, directory_not_synced,
  cut_off, append_line,
}
use anolis.Journal.Lines.{lines-appended, lines-cut, take_all}

-- The runs by their ids, and the ids in the order of their first records.
pub record Index (J : Json) : Type 0 where
  pub runs : Map Text (Run J)
  pub order : List Text

pub nonempty : (s : Text) → s ≢ [] → is_empty s ≡ false
nonempty [] h = absurd (h refl)
nonempty (x ∷ s) h = refl

pub unequal : (a b : Text) → a ≢ b → text_eq a b ≡ false
unequal a b h = elim (Bool-cases (text_eq a b)) [
  | inl e ↦ absurd (h ((text_eq_iff a b).0 e))
  | inr e ↦ e
]

module _ (J : Json) where
  open J use {Document, dump, parse, is_object, parse-dump, dump_one_line, dump_given, parse_cut}

  abbrev pub no_runs : Index J
  no_runs = record { runs = []; order = [] }

  unfoldable pub run_of_line : Text → Option (Run J)
  unfolding run_from_json
  run_of_line line =
      if is_empty line then none else elim (parse line) [ none ↦ none | some d ↦ run_from_json J d ]

  unfoldable pub absorb : Index J → Option (Run J) → Index J
  unfolding find assign
  absorb ix none = ix
  absorb ix (some r) = record {
    runs = assign r.run_id r ix.runs;
    order = elim (find r.run_id ix.runs) [ some _ ↦ ix.order | none ↦ ix.order ++ r.run_id ∷ [] ];
  }

  unfoldable pub replay_from : Index J → List Text → Index J
  unfolding run_of_line absorb
  replay_from ix [] = ix
  replay_from ix (line ∷ ls) = replay_from (absorb ix (run_of_line line)) ls

  unfoldable pub replay : Option Text → Index J
  unfolding replay_from lines
  replay file = replay_from no_runs (lines (contents file))

  -- The last record of a run.
  abbrev pub logged : Option Text → Text → Option (Run J)
  logged file id = find id (replay file).runs

  replay_from-append :
      (ix : Index J) (ls : List Text) (line : Text)
      → replay_from ix (ls ++ line ∷ []) ≡ absorb (replay_from ix ls) (run_of_line line)
  unfolding replay_from
  replay_from-append ix [] line = refl
  replay_from-append ix (l ∷ ls) line = replay_from-append (absorb ix (run_of_line l)) ls line

  run_read : (r : Run J) → run_of_line (dump (run_to_json J r)) ≡ some (normal J r)
  unfolding run_of_line
  run_read r = ground (
    arith,
    nonempty (dump (run_to_json J r)) (dump_given (run_to_json J r)),
    parse-dump (run_to_json J r),
    run_from_json-normal J r,
  )

  cut_read :
      (r : Run J) (k : ℕ)
      → k ≤ length (dump (run_to_json J r))
      → (run_of_line (take k (dump (run_to_json J r))) ≡ none)
        ⊎ (run_of_line (take k (dump (run_to_json J r))) ≡ some (normal J r))
  unfolding run_of_line run_to_json
  cut_read r k le = elim (Bool-cases (ltb k (length line))) [
    | inl short ↦ inl (ground (arith, parse_cut (run_members J r) k (ground (arith, short))))
    | inr long ↦ inr (
        ap (λ n. run_of_line (take n line)) (same_length long)
        ∙ ap run_of_line (take_all line)
        ∙ run_read r)
  ]
    where
      line : Text
      line = dump (run_to_json J r)

      same_length : ltb k (length line) ≡ false → k ≡ length line
      same_length e = ground (arith, e, le)

  find-absorb_other :
      (ix : Index J) (r : Run J) (id : Text)
      → id ≢ r.run_id
      → find id (absorb ix (some r)).runs ≡ find id ix.runs
  unfolding absorb
  find-absorb_other ix r id ne =
      find-assign r.run_id id r ix.runs ∙ ground (arith, unequal r.run_id id (λ e. ne (sym e)))

  find-absorb : (ix : Index J) (r : Run J) → find r.run_id (absorb ix (some r)).runs ≡ some r
  unfolding absorb
  find-absorb ix r = find-assign r.run_id r.run_id r ix.runs ∙ rw (beq_refl r.run_id) refl

  -- The line of a record.
  abbrev pub line_of : Run J → Text
  line_of r = dump (run_to_json J r)

  replay-written :
      (file : Option Text) (r : Run J)
      → replay (some (contents file ++ appended (contents file) (line_of r)))
        ≡ absorb (replay file) (run_of_line (line_of r))
  unfolding replay
  replay-written file r =
      ap (replay_from no_runs)
        (lines-appended (contents file) (line_of r) (dump_one_line (run_to_json J r)))
      ∙ replay_from-append no_runs (lines (contents file)) (line_of r)

  -- An append that the writer takes for written makes its record the last one of its run.
  pub append-logged :
      (file : Option Text) (r : Run J) (w : WriteEnd)
      → is_object r.params ≡ true
      → (append_line file (line_of r) w).is_written ≡ true
      → logged (append_line file (line_of r) w).file r.run_id ≡ some r
  unfolding append_line absorb
  append-logged file r w h ok = whole w ok
    where
      last : logged (some (contents file ++ appended (contents file) (line_of r))) r.run_id ≡ some r
      last =
          ap (λ ix. find r.run_id ix.runs)
            (replay-written file r
              ∙ ap (absorb (replay file)) (run_read r ∙ ap some (normal-object J r h)))
          ∙ find-absorb (replay file) r

      whole :
          (v : WriteEnd)
          → (append_line file (line_of r) v).is_written ≡ true
          → logged (append_line file (line_of r) v).file r.run_id ≡ some r
      whole written e = last
      whole not_synced e = last
      whole directory_not_synced e = last
      whole cannot_open e = absurd (ground (arith, e))
      whole (cut_off n) e = absurd (ground (arith, e))

  -- However an append ends, the last records of the other runs are as before.
  pub append-other :
      (file : Option Text) (r : Run J) (w : WriteEnd) (id : Text)
      → id ≢ r.run_id
      → logged (append_line file (line_of r) w).file id ≡ logged file id
  unfolding append_line replay absorb
  append-other file r w id ne = whole w
    where
      kept :
          (o : Option (Run J))
          → (o ≡ none) ⊎ (o ≡ some (normal J r))
          → find id (absorb (replay file) o).runs ≡ logged file id
      kept o (inl e) = ap (λ x. find id (absorb (replay file) x).runs) e
      kept o (inr e) =
          ap (λ x. find id (absorb (replay file) x).runs) e
          ∙ find-absorb_other (replay file) (normal J r) id ne

      added :
          logged (some (contents file ++ appended (contents file) (line_of r))) id ≡ logged file id
      added =
          ap (λ ix. find id ix.runs) (replay-written file r)
          ∙ kept (run_of_line (line_of r)) (inr (run_read r))

      part :
          (n : ℕ)
          → logged (some (contents file ++ take n (appended (contents file) (line_of r)))) id
            ≡ logged file id
      part n = elim (lines-cut (contents file) (line_of r) n (dump_one_line (run_to_json J r))) [
        | inl same ↦ ap (λ ls. find id (replay_from no_runs ls).runs) same
        | inr (k, (le, one)) ↦
            ap (λ ls. find id (replay_from no_runs ls).runs) one
            ∙ ap (λ ix. find id ix.runs)
                (replay_from-append no_runs (lines (contents file)) (take k (line_of r)))
            ∙ kept (run_of_line (take k (line_of r))) (cut_read r k le)
      ]

      whole : (v : WriteEnd) → logged (append_line file (line_of r) v).file id ≡ logged file id
      whole written = added
      whole not_synced = added
      whole directory_not_synced = added
      whole cannot_open = refl
      whole (cut_off n) = part n

-- ===== src/Journal/Single.antt =====
-- The runs of a journal as a start closes them: the order of the index has each, and recovery visits each.
use anolis.Base.{
  ℕ, ◌≡◌, refl, sym, ap, subst, ◌∙◌, Bool, true, false, ◌||◌, Option, none, some, List, [], ◌∷◌,
  ◌++◌, Text, text_eq, text_eq_iff, text_key, Map, find, assign, find-assign, contains, arith, inl,
  inr, Bool-cases, Option-cases,
}
use anolis.Journal.{Json, open_state, closed_state, abandoned, Run}
use anolis.Journal.Files.{lines, contents, WriteEnd}
use anolis.Journal.Log.{Index, no_runs, absorb, run_of_line, replay_from, replay}
use anolis.Journal.Records.{RunJournal, append_record}
use anolis.Journal.Stream.{append_event_locked}
use anolis.Journal.Operations.{
  closed_run, recovered_journal, recover_run, recover_all, reread, initialize,
}
use anolis.Journal.Settled.{RunState-cases}

module _ (J : Json) where
  -- Every run that is still open is among these.
  abbrev OpenAmong : Map Text (Run J) → List Text → Type 0
  OpenAmong m keys =
      (k : Text) (x : Run J) → find k m ≡ some x → x.state ≡ open_state → contains k keys ≡ true

  -- Every run of the index is in the order.
  abbrev IsOrdered : Index J → Type 0
  IsOrdered ix = (k : Text) (x : Run J) → find k ix.runs ≡ some x → contains k ix.order ≡ true

  contains-append :
      (k : Text) (xs ys : List Text) → contains k (xs ++ ys) ≡ (contains k xs || contains k ys)
  unfolding contains
  contains-append k [] ys = refl
  contains-append k (x ∷ xs) ys = ground (arith, contains-append k xs ys)

  absorb-IsOrdered : (ix : Index J) (o : Option (Run J)) → IsOrdered ix → IsOrdered (absorb J ix o)
  unfolding absorb contains
  absorb-IsOrdered ix none h k x found = h k x found
  absorb-IsOrdered ix (some r) h k x found = elim (Option-cases (find r.run_id ix.runs)) [
    | inr (old, known) ↦ elim (Bool-cases (text_eq r.run_id k)) [
      | inl same ↦ ground (
        arith,
        known,
        ap (λ n. contains n ix.order) (sym ((text_eq_iff r.run_id k).0 same)),
        h r.run_id old known,
      )
      | inr other ↦ ground (arith, known, h k x (earlier other))
    ]
    | inl new ↦ elim (Bool-cases (text_eq r.run_id k)) [
      | inl same ↦ ground (arith, new, same, contains-append k ix.order (r.run_id ∷ []))
      | inr other ↦
          ground (arith, new, h k x (earlier other), contains-append k ix.order (r.run_id ∷ []))
    ]
  ]
    where
      earlier : text_eq r.run_id k ≡ false → find k ix.runs ≡ some x
      earlier other = ground (arith, found, find-assign r.run_id k r ix.runs, other)

  replay_from-IsOrdered :
      (ix : Index J) (ls : List Text) → IsOrdered ix → IsOrdered (replay_from J ix ls)
  unfolding replay_from
  replay_from-IsOrdered ix [] h = h
  replay_from-IsOrdered ix (l ∷ ls) h =
      replay_from-IsOrdered (absorb J ix (run_of_line J l)) ls
        (absorb-IsOrdered ix (run_of_line J l) h)

  replay-IsOrdered : (file : Option Text) → IsOrdered (replay J file)
  unfolding replay find
  replay-IsOrdered file =
      replay_from-IsOrdered (no_runs J) (lines (contents file))
        (λ k x h. absurd (ground (arith, h)))

  -- A run that is closed now takes its key off.
  closed-OpenAmong :
      (m : Map Text (Run J)) (id : Text) (run : Run J) (keys : List Text)
      → run.state ≡ closed_state
      → OpenAmong m (id ∷ keys)
      → OpenAmong (assign id run m) keys
  unfolding contains
  closed-OpenAmong m id run keys closed h k x found is_open = elim (Bool-cases (text_eq id k)) [
    | inl same ↦ cc (closed, is_open, ap (λ r. r.state) (the_new same))
    | inr other ↦
        ground (arith, other, h k x (ground (arith, found, find-assign id k run m, other)) is_open)
  ]
    where
      the_new : text_eq id k ≡ true → x ≡ run
      the_new same = ground (arith, found, find-assign id k run m, same)

  -- A key whose run is not open can go.
  drop-OpenAmong :
      (m : Map Text (Run J)) (id : Text) (keys : List Text)
      → ((x : Run J) → find id m ≡ some x → x.state ≡ closed_state)
      → OpenAmong m (id ∷ keys)
      → OpenAmong m keys
  unfolding contains
  drop-OpenAmong m id keys shut h k x found is_open = elim (Bool-cases (text_eq id k)) [
    | inl same ↦ cc (shut x (ap (λ n. find n m) ((text_eq_iff id k).0 same) ∙ found), is_open)
    | inr other ↦ ground (arith, other, h k x found is_open)
  ]

  recover-OpenAmong :
      (j : RunJournal J) (id : Text) (keys : List Text) (now : ℕ) (faults : WriteEnd × WriteEnd)
      → (recover_run J j id now faults).1 ≡ true
      → OpenAmong j.runs (id ∷ keys)
      → OpenAmong (recover_run J j id now faults).0.runs keys
  unfolding recover_run append_record recovered_journal append_event_locked
  recover-OpenAmong j id keys now faults ok h = elim (Option-cases (find id j.runs)) [
    | inl missing ↦
        subst (λ m. OpenAmong m keys) (sym (unknown missing))
          (drop-OpenAmong j.runs id keys (λ x e. absurd (ground (arith, e, missing))) h)
    | inr (run, found) ↦ elim (RunState-cases run.state) [
      | inr done ↦
          subst (λ m. OpenAmong m keys) (sym (idle run found done))
            (drop-OpenAmong j.runs id keys (λ x e. ap (λ r. r.state) (the_run run x found e) ∙ done)
              h)
      | inl is_open ↦
          subst (λ m. OpenAmong m keys) (sym (recovered run found is_open))
            (closed-OpenAmong j.runs id (closed_run J run abandoned now) keys refl h)
    ]
  ]
    where
      the_run : (run x : Run J) → find id j.runs ≡ some run → find id j.runs ≡ some x → x ≡ run
      the_run run x a b = ground (arith, a, b)

      unknown : find id j.runs ≡ none → (recover_run J j id now faults).0.runs ≡ j.runs
      unknown e = ground (arith, e)

      idle :
          (run : Run J)
          → find id j.runs ≡ some run
          → run.state ≡ closed_state
          → (recover_run J j id now faults).0.runs ≡ j.runs
      idle run e f = ground (arith, e, f)

      recovered :
          (run : Run J)
          → find id j.runs ≡ some run
          → run.state ≡ open_state
          → (recover_run J j id now faults).0.runs
            ≡ assign id (closed_run J run abandoned now) j.runs
      recovered run e f = ground (arith, e, f, ok)

  recover_all-OpenAmong :
      (j : RunJournal J) (keys : List Text) (now : ℕ) (faults : Text → WriteEnd × WriteEnd)
      → (recover_all J j keys now faults).1 ≡ true
      → OpenAmong j.runs keys
      → OpenAmong (recover_all J j keys now faults).0.runs []
  unfolding recover_all
  recover_all-OpenAmong j [] now faults ok h = h
  recover_all-OpenAmong j (id ∷ keys) now faults ok h =
      elim (Bool-cases (recover_run J j id now (faults id)).1) [
        | inr bad ↦ absurd (ground (arith, ok, bad))
        | inl good ↦
            subst (λ p. OpenAmong p.0.runs []) (sym (went_on good))
              (recover_all-OpenAmong (recover_run J j id now (faults id)).0 keys now faults
                (ap (λ p. p.1) (sym (went_on good)) ∙ ok)
                (recover-OpenAmong j id keys now (faults id) good h))
      ]
    where
      went_on :
          (recover_run J j id now (faults id)).1 ≡ true
          → recover_all J j (id ∷ keys) now faults
            ≡ recover_all J (recover_run J j id now (faults id)).0 keys now faults
      went_on e = ground (arith, e)

  -- After a start that succeeds, no run is open.
  pub initialize_closes :
      (j : RunJournal J) (has_directory : Bool) (now : ℕ) (faults : Text → WriteEnd × WriteEnd)
      → (initialize J j has_directory now faults).running ≡ true
      → (k : Text) (x : Run J) → find k (initialize J j has_directory now faults).runs ≡ some x
      → x.state ≡ closed_state
  unfolding initialize contains reread
  initialize_closes j false now faults on k x found = absurd (ground (arith, on))
  initialize_closes j true now faults on k x found = elim (RunState-cases x.state) [
    | inr done ↦ done
    | inl is_open ↦ absurd (
        ground (
          arith,
          recover_all-OpenAmong (reread J j) (reread J j).order now faults on
              (λ n y e _. replay-IsOrdered j.index_file n y e) k x found is_open,
        ))
  ]

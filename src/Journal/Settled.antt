-- ===== src/Journal/Settled.antt =====
-- A record that the log has as the last one of its run, and what the operations leave of that.
use anolis.Base.{
  ℕ, ◌≡◌, ◌≢◌, ◌⊎◌, refl, sym, ap, subst, ◌∙◌, Bool, true, false, Option, none, some, List, [], ◌∷◌,
  Text, text_eq, text_eq_iff, text_key, Map, find, assign, find-assign, arith, inl, inr, Bool-cases,
  Option-cases,
}
use anolis.Journal.{Json, RunState, open_state, closed_state, CloseReason, abandoned, Run}
use anolis.Journal.Files.{lines, contents, WriteEnd}
use anolis.Journal.Log.{
  Index, no_runs, absorb, run_of_line, replay_from, replay, logged, append-other, unequal,
}
use anolis.Journal.Records.{RunJournal, EventParts, OpenSpec, append_record}
use anolis.Journal.Stream.{append_event_locked}
use anolis.Journal.Operations.{
  opened_run, opened_journal, open_run, closed_run, closed_journal, close_run, recovered_journal,
  recover_run, recover_all, reread, initialize,
}

pub RunState-cases : (x : RunState) → (x ≡ open_state) ⊎ (x ≡ closed_state)
RunState-cases open_state = inl refl
RunState-cases closed_state = inr refl

module _ (J : Json) where
  -- Each run stands under its own id.
  abbrev pub IsKeyed : Map Text (Run J) → Type 0
  IsKeyed m = (k : Text) (x : Run J) → find k m ≡ some x → x.run_id ≡ k

  pub assign-IsKeyed :
      (m : Map Text (Run J)) (x : Run J) → IsKeyed m → IsKeyed (assign x.run_id x m)
  assign-IsKeyed m x h k y found = elim (Bool-cases (text_eq x.run_id k)) [
    | inl same ↦ ap (λ r. r.run_id) (the_new same) ∙ (text_eq_iff x.run_id k).0 same
    | inr other ↦ h k y (ground (arith, found, find-assign x.run_id k x m, other))
  ]
    where
      the_new : text_eq x.run_id k ≡ true → y ≡ x
      the_new same = ground (arith, found, find-assign x.run_id k x m, same)

  absorb-IsKeyed :
      (ix : Index J) (o : Option (Run J)) → IsKeyed ix.runs → IsKeyed (absorb J ix o).runs
  unfolding absorb
  absorb-IsKeyed ix none h = h
  absorb-IsKeyed ix (some r) h = assign-IsKeyed ix.runs r h

  replay_from-IsKeyed :
      (ix : Index J) (ls : List Text) → IsKeyed ix.runs → IsKeyed (replay_from J ix ls).runs
  unfolding replay_from
  replay_from-IsKeyed ix [] h = h
  replay_from-IsKeyed ix (l ∷ ls) h =
      replay_from-IsKeyed (absorb J ix (run_of_line J l)) ls (absorb-IsKeyed ix (run_of_line J l) h)

  pub replay-IsKeyed : (file : Option Text) → IsKeyed (replay J file).runs
  unfolding replay find
  replay-IsKeyed file =
      replay_from-IsKeyed (no_runs J) (lines (contents file)) (λ k x h. absurd (ground (arith, h)))

  -- The log has the record as the run's last, and so has the journal.
  pub record Settled (id : Text) (r : Run J) (j : RunJournal J) : Type 0 where
    pub in_log : logged J j.index_file id ≡ some r
    pub in_memory : find id j.runs ≡ some r
    pub keyed : IsKeyed j.runs

  module _ (id : Text) (r : Run J) where
    record-Settled :
        (j : RunJournal J) (run : Run J) (w : WriteEnd)
        → id ≢ run.run_id
        → Settled id r j
        → Settled id r (append_record J j run w).0
    unfolding append_record
    record-Settled j run w ne s = record {
      in_log = append-other J j.index_file run w id ne ∙ s.in_log;
      in_memory = s.in_memory;
      keyed = s.keyed;
    }

    -- Another run among the runs of a journal with the same log.
    assign-Settled :
        (j : RunJournal J) (run : Run J)
        → id ≢ run.run_id
        → Settled id r j
        → Settled id r (record j { runs = assign run.run_id run j.runs })
    assign-Settled j run ne s = record {
      in_log = s.in_log;
      in_memory =
          find-assign run.run_id id run j.runs
          ∙ ground (arith, unequal run.run_id id (λ e. ne (sym e)), s.in_memory);
      keyed = assign-IsKeyed j.runs run s.keyed;
    }

    -- An event touches neither the runs nor the log.
    pub event-Settled :
        (j : RunJournal J) (other : Text) (parts : EventParts J) (w : WriteEnd)
        → Settled id r j
        → Settled id r (append_event_locked J j other parts w).0
    unfolding append_event_locked
    event-Settled j other parts w s = record {
      in_log = s.in_log;
      in_memory = s.in_memory;
      keyed = s.keyed;
    }

    opened-Settled :
        (j : RunJournal J) (run : Run J) (we : WriteEnd)
        → id ≢ run.run_id
        → Settled id r j
        → Settled id r (opened_journal J j run we)
    unfolding opened_journal append_event_locked
    opened-Settled j run we ne s =
        let s' = assign-Settled j run ne s in
        record { in_log = s'.in_log; in_memory = s'.in_memory; keyed = s'.keyed }

    pub open-Settled :
        (j : RunJournal J) (spec : OpenSpec J) (w we : WriteEnd)
        → id ≢ spec.minted_id
        → Settled id r j
        → Settled id r (open_run J j spec w we).0
    unfolding open_run opened_run
    open-Settled j spec w we ne s = elim (Option-cases j.open_run_id) [
      | inr (o, busy) ↦ subst (Settled id r) (sym (refused o busy)) s
      | inl idle ↦ elim (Bool-cases (append_record J j (opened_run J spec) w).1) [
        | inr bad ↦
            subst (Settled id r) (sym (failed idle bad))
              (record-Settled j (opened_run J spec) w ne s)
        | inl good ↦ subst (Settled id r) (sym (opened idle good)) (
            opened-Settled _ (opened_run J spec) we ne
              (record-Settled j (opened_run J spec) w ne s))
      ]
    ]
      where
        refused : (o : Text) → j.open_run_id ≡ some o → (open_run J j spec w we).0 ≡ j
        refused o e = ground (arith, e)

        failed :
            j.open_run_id ≡ none
            → (append_record J j (opened_run J spec) w).1 ≡ false
            → (open_run J j spec w we).0 ≡ (append_record J j (opened_run J spec) w).0
        failed e b = ground (arith, e, b)

        opened :
            j.open_run_id ≡ none
            → (append_record J j (opened_run J spec) w).1 ≡ true
            → (open_run J j spec w we).0
              ≡ opened_journal J (append_record J j (opened_run J spec) w).0 (opened_run J spec) we
        opened e b = ground (arith, e, b)

    -- A run that is still open is another one.
    other_run :
        (j : RunJournal J) (key : Text) (run : Run J)
        → r.state ≡ closed_state
        → Settled id r j
        → find key j.runs ≡ some run
        → run.state ≡ open_state
        → id ≢ run.run_id
    other_run j key run closed s found is_open same =
        cc (is_open, closed, ap (λ x. x.state) the_same)
      where
        the_same : run ≡ r
        the_same =
            ground
              (arith, s.in_memory, found, ap (λ k. find k j.runs) (same ∙ s.keyed key run found))

    pub keyed-Settled :
        (j : RunJournal J) (key : Text) (run : Run J)
        → run.run_id ≡ key
        → id ≢ run.run_id
        → Settled id r j
        → Settled id r (record j { runs = assign key run j.runs })
    keyed-Settled j key run e ne s =
        subst (λ k. Settled id r (record j { runs = assign k run j.runs })) e
          (assign-Settled j run ne s)

    pub closed-Settled :
        (j : RunJournal J) (key : Text) (run : Run J) (reason : CloseReason) (now : ℕ)
        (we : WriteEnd)
        → run.run_id ≡ key
        → id ≢ run.run_id
        → Settled id r j
        → Settled id r (closed_journal J j key run reason now we)
    unfolding closed_journal append_event_locked
    closed-Settled j key run reason now we e ne s =
        let s' = keyed-Settled j key run e ne s in
        record { in_log = s'.in_log; in_memory = s'.in_memory; keyed = s'.keyed }

    pub close-Settled :
        (j : RunJournal J) (key : Text) (reason : CloseReason) (now : ℕ) (w we : WriteEnd)
        → r.state ≡ closed_state
        → Settled id r j
        → Settled id r (close_run J j key reason now w we).0
    unfolding close_run
    close-Settled j key reason now w we closed s = elim (Option-cases (find key j.runs)) [
      | inl missing ↦ subst (Settled id r) (sym (unknown missing)) s
      | inr (run, found) ↦ elim (RunState-cases run.state) [
        | inr done ↦ subst (Settled id r) (sym (idempotent run found done)) s
        | inl is_open ↦
            let ne = other_run j key run closed s found is_open in
            let s' = record-Settled j (closed_run J run reason now) w ne s in
            elim (Bool-cases (append_record J j (closed_run J run reason now) w).1) [
              | inr bad ↦ subst (Settled id r) (sym (failed run found is_open bad)) s'
              | inl good ↦ subst (Settled id r) (sym (done run found is_open good)) (
                  closed-Settled _ key (closed_run J run reason now) reason now we
                    (s.keyed key run found) ne s')
            ]
      ]
    ]
      where
        unknown : find key j.runs ≡ none → (close_run J j key reason now w we).0 ≡ j
        unknown e = ground (arith, e)

        idempotent :
            (run : Run J)
            → find key j.runs ≡ some run
            → run.state ≡ closed_state
            → (close_run J j key reason now w we).0 ≡ j
        idempotent run e f = ground (arith, e, f)

        failed :
            (run : Run J)
            → find key j.runs ≡ some run
            → run.state ≡ open_state
            → (append_record J j (closed_run J run reason now) w).1 ≡ false
            → (close_run J j key reason now w we).0
              ≡ (append_record J j (closed_run J run reason now) w).0
        failed run e f b = ground (arith, e, f, b)

        done :
            (run : Run J)
            → find key j.runs ≡ some run
            → run.state ≡ open_state
            → (append_record J j (closed_run J run reason now) w).1 ≡ true
            → (close_run J j key reason now w we).0
              ≡ closed_journal J
                  (append_record J j (closed_run J run reason now) w).0
                  key
                  (closed_run J run reason now)
                  reason
                  now
                  we
        done run e f b = ground (arith, e, f, b)

    recovered-Settled :
        (j : RunJournal J) (key : Text) (now : ℕ) (we : WriteEnd)
        → Settled id r j
        → Settled id r (recovered_journal J j key now we)
    unfolding recovered_journal append_event_locked
    recovered-Settled j key now we s = record {
      in_log = s.in_log;
      in_memory = s.in_memory;
      keyed = s.keyed;
    }

    recover-Settled :
        (j : RunJournal J) (key : Text) (now : ℕ) (faults : WriteEnd × WriteEnd)
        → r.state ≡ closed_state
        → Settled id r j
        → Settled id r (recover_run J j key now faults).0
    unfolding recover_run
    recover-Settled j key now faults closed s = elim (Option-cases (find key j.runs)) [
      | inl missing ↦ subst (Settled id r) (sym (unknown missing)) s
      | inr (run, found) ↦ elim (RunState-cases run.state) [
        | inr done ↦ subst (Settled id r) (sym (idle run found done)) s
        | inl is_open ↦
            let ne = other_run j key run closed s found is_open in
            let s' =
              record-Settled (after run) (closed_run J run abandoned now) faults.0 ne (
                keyed-Settled j key (closed_run J run abandoned now) (s.keyed key run found) ne
                  s) in
            elim (Bool-cases
              (append_record J (after run) (closed_run J run abandoned now) faults.0).1) [
                | inr bad ↦ subst (Settled id r) (sym (failed run found is_open bad)) s'
                | inl good ↦
                    subst (Settled id r) (sym (recovered run found is_open good))
                      (recovered-Settled _ key now faults.1 s')
              ]
      ]
    ]
      where
        after : Run J → RunJournal J
        after run = record j { runs = assign key (closed_run J run abandoned now) j.runs }

        unknown : find key j.runs ≡ none → (recover_run J j key now faults).0 ≡ j
        unknown e = ground (arith, e)

        idle :
            (run : Run J)
            → find key j.runs ≡ some run
            → run.state ≡ closed_state
            → (recover_run J j key now faults).0 ≡ j
        idle run e f = ground (arith, e, f)

        failed :
            (run : Run J)
            → find key j.runs ≡ some run
            → run.state ≡ open_state
            → (append_record J (after run) (closed_run J run abandoned now) faults.0).1 ≡ false
            → (recover_run J j key now faults).0
              ≡ (append_record J (after run) (closed_run J run abandoned now) faults.0).0
        failed run e f b = ground (arith, e, f, b)

        recovered :
            (run : Run J)
            → find key j.runs ≡ some run
            → run.state ≡ open_state
            → (append_record J (after run) (closed_run J run abandoned now) faults.0).1 ≡ true
            → (recover_run J j key now faults).0
              ≡ recovered_journal J
                  (append_record J (after run) (closed_run J run abandoned now) faults.0).0
                  key
                  now
                  faults.1
        recovered run e f b = ground (arith, e, f, b)

    recover_all-Settled :
        (j : RunJournal J) (keys : List Text) (now : ℕ) (faults : Text → WriteEnd × WriteEnd)
        → r.state ≡ closed_state
        → Settled id r j
        → Settled id r (recover_all J j keys now faults).0
    unfolding recover_all
    recover_all-Settled j [] now faults closed s = s
    recover_all-Settled j (key ∷ keys) now faults closed s =
        let s' = recover-Settled j key now (faults key) closed s in
        elim (Bool-cases (recover_run J j key now (faults key)).1) [
          | inr bad ↦ subst (Settled id r) (sym (stopped bad)) s'
          | inl good ↦ subst (Settled id r) (sym (went_on good)) (
              recover_all-Settled (recover_run J j key now (faults key)).0 keys now faults closed
                s')
        ]
      where
        stopped :
            (recover_run J j key now (faults key)).1 ≡ false
            → (recover_all J j (key ∷ keys) now faults).0 ≡ (recover_run J j key now (faults key)).0
        stopped e = ground (arith, e)

        went_on :
            (recover_run J j key now (faults key)).1 ≡ true
            → (recover_all J j (key ∷ keys) now faults).0
              ≡ (recover_all J (recover_run J j key now (faults key)).0 keys now faults).0
        went_on e = ground (arith, e)

    reread-Settled : (j : RunJournal J) → Settled id r j → Settled id r (reread J j)
    unfolding reread
    reread-Settled j s = record {
      in_log = s.in_log;
      in_memory = s.in_log;
      keyed = replay-IsKeyed j.index_file;
    }

    pub initialize-Settled :
        (j : RunJournal J) (has_directory : Bool) (now : ℕ) (faults : Text → WriteEnd × WriteEnd)
        → r.state ≡ closed_state
        → Settled id r j
        → Settled id r (initialize J j has_directory now faults)
    unfolding initialize
    initialize-Settled j false now faults closed s = record {
      in_log = s.in_log;
      in_memory = s.in_memory;
      keyed = s.keyed;
    }
    initialize-Settled j true now faults closed s =
        let s' =
          recover_all-Settled (reread J j) (reread J j).order now faults closed
            (reread-Settled j s) in
        record { in_log = s'.in_log; in_memory = s'.in_memory; keyed = s'.keyed }

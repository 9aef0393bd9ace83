-- ===== src/Journal/Open.antt =====
-- Which run is open and which the journal names, through a history.
use anolis.Base.{
  ℕ, ◌≡◌, ◌↔◌, refl, sym, ap, subst, ◌∙◌, Bool, true, false, ◌||◌, Option, none, some, List, [],
  ◌∷◌, if◌then◌else◌, Text, text_eq, text_eq_iff, text_key, Map, find, assign, find-assign,
  beq_refl, arith, inl, inr, Bool-cases, Option-cases,
}
use anolis.Journal.{Json, open_state, closed_state, CloseReason, Run}
use anolis.Journal.Files.{WriteEnd}
use anolis.Journal.Records.{RunJournal, OpenSpec, append_record, new_journal}
use anolis.Journal.Stream.{append_event_locked, append_event}
use anolis.Journal.Operations.{
  opened_run, opened_journal, open_run, closed_run, forget_open, closed_journal, close_run,
  recovered_journal, recover_run, recover_all, reread, initialize, enqueue_event, writer_step,
  get_run,
}
use anolis.Journal.Settled.{RunState-cases}
use anolis.Journal.Closing.{
  JournalOp, opens, closes, appends, queues, writes, restarts, run_op, is_restart, journal_step,
  journal_steps,
}
use anolis.Journal.Single.{initialize_closes}

same_text : {a b : Text} → some a ≡ some b → a ≡ b
same_text e = ground (arith, e)

module _ (J : Json) where
  -- A run is open exactly where it is the one that is named.
  pub record OpenIs (m : Map Text (Run J)) (o : Option Text) : Type 0 where
    pub single : (k : Text) (x : Run J) → find k m ≡ some x → x.state ≡ open_state → o ≡ some k
    pub named :
        (k : Text) → o ≡ some k → (x : Run J) × ((find k m ≡ some x) × (x.state ≡ open_state))

  abbrev pub Sound : RunJournal J → Type 0
  Sound j = j.running ≡ true → OpenIs j.runs j.open_run_id

  opened-OpenIs :
      (m : Map Text (Run J)) (run : Run J)
      → run.state ≡ open_state
      → OpenIs m none
      → OpenIs (assign run.run_id run m) (some run.run_id)
  opened-OpenIs m run is_open h = record {
    single = λ k x found x_open. elim (Bool-cases (text_eq run.run_id k)) [
      | inl same ↦ ap some ((text_eq_iff run.run_id k).0 same)
      | inr other ↦ absurd (
          ground (
            arith,
            h.single k x (ground (arith, found, find-assign run.run_id k run m, other)) x_open,
          ))
    ];
    named = λ k e.
        subst (IsOpenAt (assign run.run_id run m)) (same_text e)
          (run, (find-assign run.run_id run.run_id run m ∙ rw (beq_refl run.run_id) refl, is_open));
  }
    where
      IsOpenAt : Map Text (Run J) → Text → Type 0
      IsOpenAt n k = (x : Run J) × ((find k n ≡ some x) × (x.state ≡ open_state))

  closed-OpenIs :
      (m : Map Text (Run J)) (o : Option Text) (id : Text) (run updated : Run J)
      → find id m ≡ some run
      → run.state ≡ open_state
      → updated.state ≡ closed_state
      → OpenIs m o
      → OpenIs
          (assign id updated m)
          (elim o [ none ↦ none | some p ↦ if text_eq p id then none else some p ])
  closed-OpenIs m o id run updated found is_open closed h =
      subst (OpenIs (assign id updated m)) (sym (forgotten o the_open)) (record {
        single = λ k x found_x x_open. elim (Bool-cases (text_eq id k)) [
          | inl same ↦ cc (closed, x_open, ap (λ r. r.state) (the_new k x found_x same))
          | inr other ↦ absurd (
              ground (
                arith,
                other,
                (text_eq_iff id k).1 (
                    same_text (
                      sym the_open
                      ∙ h.single k x (ground (arith, found_x, find-assign id k updated m, other))
                          x_open)),
              ))
        ];
        named = λ k e. absurd (ground (arith, e));
      })
    where
      the_open : o ≡ some id
      the_open = h.single id run found is_open

      forgotten :
          (q : Option Text)
          → q ≡ some id
          → elim q as (λ _. Option Text) [
            | none ↦ none
            | some p ↦ if text_eq p id then none else some p
          ]
            ≡ none
      forgotten none e = refl
      forgotten (some p) e = ground (arith, (text_eq_iff p id).1 (same_text e))

      the_new :
          (k : Text) (x : Run J)
          → find k (assign id updated m) ≡ some x
          → text_eq id k ≡ true
          → x ≡ updated
      the_new k x found_x same = ground (arith, found_x, find-assign id k updated m, same)

  same-Sound :
      (j j' : RunJournal J)
      → j'.runs ≡ j.runs
      → j'.open_run_id ≡ j.open_run_id
      → j'.running ≡ j.running
      → Sound j
      → Sound j'
  same-Sound j j' a b c s on =
      subst (λ m. OpenIs m j'.open_run_id) (sym a) (subst (OpenIs j.runs) (sym b) (s (sym c ∙ on)))

  open-Sound :
      (j : RunJournal J) (spec : OpenSpec J) (w we : WriteEnd)
      → Sound j
      → Sound (open_run J j spec w we).0
  unfolding open_run append_record opened_run opened_journal append_event_locked
  open-Sound j spec w we s = elim (Option-cases j.open_run_id) [
    | inr (o, busy) ↦ subst Sound (sym (refused o busy)) s
    | inl free ↦ elim (Bool-cases (append_record J j (opened_run J spec) w).1) [
      | inr bad ↦
          same-Sound j (open_run J j spec w we).0 (ground (arith, free, bad))
            (ground (arith, free, bad)) (ground (arith, free, bad)) s
      | inl good ↦ λ on. subst (OpenIs (open_run J j spec w we).0.runs) (sym (the_new free good)) (
          subst (λ m. OpenIs m (some spec.minted_id)) (sym (with_new free good))
            (opened-OpenIs j.runs (opened_run J spec) refl
              (subst (OpenIs j.runs) free (s (ground (arith, on, free, good))))))
    ]
  ]
    where
      refused : (o : Text) → j.open_run_id ≡ some o → (open_run J j spec w we).0 ≡ j
      refused o busy = ground (arith, busy)

      the_new :
          j.open_run_id ≡ none
          → (append_record J j (opened_run J spec) w).1 ≡ true
          → (open_run J j spec w we).0.open_run_id ≡ some spec.minted_id
      the_new free good = ground (arith, free, good)

      with_new :
          j.open_run_id ≡ none
          → (append_record J j (opened_run J spec) w).1 ≡ true
          → (open_run J j spec w we).0.runs ≡ assign spec.minted_id (opened_run J spec) j.runs
      with_new free good = ground (arith, free, good)

  close-Sound :
      (j : RunJournal J) (id : Text) (reason : CloseReason) (now : ℕ) (w we : WriteEnd)
      → Sound j
      → Sound (close_run J j id reason now w we).0
  unfolding close_run append_record closed_journal append_event_locked forget_open
  close-Sound j id reason now w we s = elim (Option-cases (find id j.runs)) [
    | inl missing ↦ subst Sound (sym (unknown missing)) s
    | inr (run, found) ↦ elim (RunState-cases run.state) [
      | inr done ↦ subst Sound (sym (idle run found done)) s
      | inl is_open ↦ elim (Bool-cases (append_record J j (closed_run J run reason now) w).1) [
        | inr bad ↦
            same-Sound j (close_run J j id reason now w we).0 (ground (arith, found, is_open, bad))
              (ground (arith, found, is_open, bad)) (ground (arith, found, is_open, bad)) s
        | inl good ↦ λ on.
            let done = took run found is_open good in
            subst (λ c. OpenIs c.runs c.open_run_id) (sym done)
              (closed-OpenIs j.runs j.open_run_id id run (closed_run J run reason now) found is_open
                refl (s (sym (ap (λ c. c.running) done) ∙ on)))
      ]
    ]
  ]
    where
      unknown : find id j.runs ≡ none → (close_run J j id reason now w we).0 ≡ j
      unknown e = ground (arith, e)

      idle :
          (run : Run J)
          → find id j.runs ≡ some run
          → run.state ≡ closed_state
          → (close_run J j id reason now w we).0 ≡ j
      idle run e f = ground (arith, e, f)

      took :
          (run : Run J)
          → find id j.runs ≡ some run
          → run.state ≡ open_state
          → (append_record J j (closed_run J run reason now) w).1 ≡ true
          → (close_run J j id reason now w we).0
            ≡ closed_journal J
                (append_record J j (closed_run J run reason now) w).0
                id
                (closed_run J run reason now)
                reason
                now
                we
      took run e f g = ground (arith, e, f, g)

  recover_run-open_run_id :
      (j : RunJournal J) (id : Text) (now : ℕ) (faults : WriteEnd × WriteEnd)
      → (recover_run J j id now faults).0.open_run_id ≡ j.open_run_id
  unfolding recover_run append_record recovered_journal append_event_locked
  recover_run-open_run_id j id now faults = ground arith

  recover_all-open_run_id :
      (j : RunJournal J) (ids : List Text) (now : ℕ) (faults : Text → WriteEnd × WriteEnd)
      → (recover_all J j ids now faults).0.open_run_id ≡ j.open_run_id
  unfolding recover_all
  recover_all-open_run_id j [] now faults = refl
  recover_all-open_run_id j (id ∷ ids) now faults =
      elim (Bool-cases (recover_run J j id now (faults id)).1) [
        | inr bad ↦ ground (arith, bad, recover_run-open_run_id j id now (faults id))
        | inl good ↦ ground (
          arith,
          good,
          recover_run-open_run_id j id now (faults id),
          recover_all-open_run_id (recover_run J j id now (faults id)).0 ids now faults,
        )
      ]

  initialize-Sound :
      (j : RunJournal J) (has_directory : Bool) (now : ℕ) (faults : Text → WriteEnd × WriteEnd)
      → Sound (initialize J j has_directory now faults)
  unfolding initialize reread
  initialize-Sound j has_directory now faults on = record {
    single = λ k x found x_open.
        cc (initialize_closes J j has_directory now faults on k x found, x_open);
    named = λ k e. absurd (ground (arith, e, none_open has_directory on));
  }
    where
      none_open :
          (b : Bool)
          → (initialize J j b now faults).running ≡ true
          → (initialize J j b now faults).open_run_id ≡ none
      none_open false h = absurd (ground (arith, h))
      none_open true h = recover_all-open_run_id (reread J j) (reread J j).order now faults

  op-Sound : (j : RunJournal J) (op : JournalOp J) → Sound j → Sound (run_op J j op)
  unfolding run_op append_event append_event_locked enqueue_event writer_step
  op-Sound j (opens spec w we) s = open-Sound j spec w we s
  op-Sound j (closes key reason now w we) s = close-Sound j key reason now w we s
  op-Sound j (appends key parts w) s =
      same-Sound j (run_op J j (appends key parts w)) (ground arith) (ground arith) (ground arith) s
  op-Sound j (queues event) s =
      same-Sound j (run_op J j (queues event)) (ground arith) (ground arith) (ground arith) s
  op-Sound j (writes now w) s =
      same-Sound j (run_op J j (writes now w)) (ground arith) (ground arith) (ground arith) s
  op-Sound j (restarts has_directory now faults) s = initialize-Sound j has_directory now faults

  steps-Sound :
      (j : RunJournal J) (ops : List (JournalOp J)) → Sound j → Sound (journal_steps J j ops)
  unfolding journal_steps journal_step
  steps-Sound j [] s = s
  steps-Sound j (op ∷ ops) s =
      steps-Sound (journal_step J j op) ops (one (j.running || is_restart J op))
    where
      one : (b : Bool) → Sound (if b then run_op J j op else j)
      one true = op-Sound j op s
      one false = s

  -- After any calls, writes that fail or are cut off and restarts, a journal that runs knows a run as open
  -- exactly where it is the one that it names as open; there is then at most one.
  pub one_open :
      (ops : List (JournalOp J)) (k : Text)
      → (journal_steps J (new_journal J) ops).running ≡ true
      → ((journal_steps J (new_journal J) ops).open_run_id ≡ some k) ↔ (
          (x : Run J) × ((get_run J (journal_steps J (new_journal J) ops) k ≡ some x)
            × (x.state ≡ open_state)))
  unfolding get_run
  one_open ops k on =
      ((λ e. sound.named k e), (λ (x, (found, is_open)). sound.single k x found is_open))
    where
      sound :
          OpenIs
            (journal_steps J (new_journal J) ops).runs
            (journal_steps J (new_journal J) ops).open_run_id
      sound = steps-Sound (new_journal J) ops (λ off. absurd (ground (arith, off))) on

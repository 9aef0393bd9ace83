-- ===== src/Parameters/Histories.antt =====
-- The parameters over any history of definitions, writes and registrations of listeners.
use anolis.Base.{
  ℕ, suc, ◌≡◌, refl, sym, ap, subst, ◌∙◌, Bool, true, false, Option, none, some, List, [], ◌∷◌,
  ◌++◌, if◌then◌else◌, eqb, map, Text, text_eq, text_key, find, assign, arith, All, Option-cases,
  Bool-cases, inl, inr, ◌⊎◌, find-assign, text_eq_iff,
}
use anolis.Protocol.{Doubles}
use anolis.SafeState.{ParameterValue}
use anolis.Parameters.{
  ParameterType, ParameterDef, ParameterManager, ParameterChange, validate, check_range,
  check_allowed, define, same_value, set, get, on_parameter_change, new_manager, stored, change_of,
}
use anolis.Parameters.Validation.{Accepts, validate_exact}

pub data ParameterOp (D : Doubles) : Type 0 where
  defines :
      Text
      → ParameterType
      → ParameterValue D
      → Option D.Double
      → Option D.Double
      → Option (List Text)
      → ParameterOp D
  sets : Text → ParameterValue D → ParameterOp D
  listens : ℕ → ParameterOp D

-- How often a callback is registered.
unfoldable pub times : ℕ → List ℕ → ℕ
times k [] = 0
times k (c ∷ cs) = if eqb c k then suc (times k cs) else times k cs

times-listen : (k j : ℕ) (cs : List ℕ) → eqb j k ≡ false → times k (cs ++ j ∷ []) ≡ times k cs
unfolding times
times-listen k j [] h = ground (arith, h)
times-listen k j (c ∷ cs) h = ground (arith, times-listen k j cs h)

-- No further registration of the callback.
abbrev pub NotListening : {D : Doubles} → ℕ → ParameterOp D → Type 0
NotListening k (listens j) = eqb j k ≡ false
NotListening k _ = Unit {0}

module _ {D : Doubles} where
  -- An operation, with the calls of listeners that its thread makes once it has given up the lock.
  unfoldable pub perform :
      ParameterManager D → ParameterOp D → ParameterManager D × List (ℕ × ParameterChange D)
  unfolding define set on_parameter_change
  perform m (defines name type v low high allowed) = ((define m name type v low high allowed).0, [])
  perform m (sets name v) = let r = set m name v in (r.manager, r.calls)
  perform m (listens callback) = (on_parameter_change m callback, [])

  unfoldable pub perform_all :
      ParameterManager D → List (ParameterOp D) → ParameterManager D × List (ℕ × ParameterChange D)
  unfolding perform
  perform_all m [] = (m, [])
  perform_all m (op ∷ ops) =
      let (m', calls) = perform m op in
      let (m'', later) = perform_all m' ops in (m'', calls ++ later)

  -- A write changes nothing and calls nobody, or stores a valid value and calls every listener.
  set_cases :
      (m : ParameterManager D) (name : Text) (v : ParameterValue D)
      → (((set m name v).manager ≡ m) × ((set m name v).calls ≡ []))
        ⊎ ((def : ParameterDef D) × (find name m.parameters ≡ some def)
            × (validate def v ≡ none)
            × ((set m name v).manager ≡ stored m name def v)
            × ((set m name v).calls ≡ map (λ c. (c, change_of name def v)) m.callbacks))
  unfolding set
  set_cases m name v = elim (Option-cases (find name m.parameters)) [
    | inl missing ↦ inl (ground (arith, missing), ground (arith, missing))
    | inr (def, is_def) ↦ elim (Option-cases (validate def v)) [
      | inr (e, bad) ↦ inl (ground (arith, is_def, bad), ground (arith, is_def, bad))
      | inl good ↦ elim (Bool-cases (same_value def.def_value v)) [
        | inl same ↦ inl (ground (arith, is_def, good, same), ground (arith, is_def, good, same))
        | inr other ↦ inr (
          def,
          is_def,
          good,
          ground (arith, is_def, good, other),
          ground (arith, is_def, good, other),
        )
      ]
    ]
  ]

  -- A definition changes nothing, or adds a parameter with a valid value under a new name.
  define_cases :
      (m : ParameterManager D) (name : Text) (type : ParameterType) (v : ParameterValue D)
      (low high : Option D.Double) (allowed : Option (List Text))
      → ((define m name type v low high allowed).0 ≡ m)
        ⊎ ((def : ParameterDef D) × (find name m.parameters ≡ none)
            × (validate def v ≡ none)
            × (def.def_value ≡ v)
            × ((define m name type v low high allowed).0
                ≡ record m { parameters = assign name def m.parameters }))
  unfolding define
  define_cases m name type v low high allowed = elim (Option-cases (find name m.parameters)) [
    | inr (old, is_old) ↦ inl (ground (arith, is_old))
    | inl missing ↦ elim (Option-cases (validate def v)) [
      | inr (e, bad) ↦ inl (ground (arith, missing, bad))
      | inl good ↦ inr (def, missing, good, refl, ground (arith, missing, good))
    ]
  ]
    where
      def : ParameterDef D
      def = record {
        def_type = type;
        def_value = v;
        def_min = low;
        def_max = high;
        def_allowed = allowed;
        set_by_operator = false;
      }

  -- Every parameter's value is one that its definition accepts.
  abbrev pub AllValid : ParameterManager D → Type 0
  AllValid m =
      (n : Text) (def : ParameterDef D) → find n m.parameters ≡ some def → Accepts def def.def_value

  Accepts-stored :
      {def : ParameterDef D} {v : ParameterValue D}
      → Accepts def v
      → Accepts (record def { def_value = v; set_by_operator = true }) v
  unfolding validate check_range check_allowed
  Accepts-stored {def} {v} a =
      (validate_exact (record def { def_value = v; set_by_operator = true }) v).0
        (after ((validate_exact def v).1 a))
    where
      after :
          validate def v ≡ none
          → validate (record def { def_value = v; set_by_operator = true }) v ≡ none
      after h = h

  assign-AllValid :
      (m : ParameterManager D) (name : Text) (def : ParameterDef D)
      → Accepts def def.def_value
      → AllValid m
      → AllValid (record m { parameters = assign name def m.parameters })
  assign-AllValid m name def h a n found is_found = elim (Bool-cases (text_eq name n)) [
    | inl same ↦ subst (λ d. Accepts d d.def_value) (ground (arith, looked_up, same, is_found)) h
    | inr other ↦ a n found (ground (arith, looked_up, other, is_found))
  ]
    where
      looked_up :
          find n (assign name def m.parameters)
          ≡ (if text_eq name n then some def else find n m.parameters)
      looked_up = find-assign name n def m.parameters

  perform-AllValid :
      (m : ParameterManager D) (op : ParameterOp D) → AllValid m → AllValid (perform m op).0
  unfolding perform on_parameter_change
  perform-AllValid m (defines name type v low high allowed) a =
      elim (define_cases m name type v low high allowed) [
        | inl same ↦ subst AllValid (sym same) a
        | inr (def, missing, good, is_v, added) ↦ subst AllValid (sym added) (
            assign-AllValid m name def
              (subst (λ w. Accepts def w) (sym is_v) ((validate_exact def v).0 good)) a)
      ]
  perform-AllValid m (sets name v) a = elim (set_cases m name v) [
    | inl (same, _) ↦ subst AllValid (sym same) a
    | inr (def, is_def, good, written, _) ↦
        subst AllValid (sym written)
          (assign-AllValid m name _ (Accepts-stored ((validate_exact def v).0 good)) a)
  ]
  perform-AllValid m (listens callback) a = a

  pub perform_all-AllValid :
      (m : ParameterManager D) (ops : List (ParameterOp D))
      → AllValid m
      → AllValid (perform_all m ops).0
  unfolding perform_all
  perform_all-AllValid m [] a = a
  perform_all-AllValid m (op ∷ ops) a =
      perform_all-AllValid (perform m op).0 ops (perform-AllValid m op a)

  new_manager-AllValid : AllValid new_manager
  unfolding find
  new_manager-AllValid n def h = absurd (ground (arith, h))

  -- After any history from the start, a parameter has a value that its definition accepts.
  pub values_stay_valid :
      (ops : List (ParameterOp D)) (name : Text) (def : ParameterDef D)
      → find name (perform_all new_manager ops).0.parameters ≡ some def
      → Accepts def def.def_value
  values_stay_valid ops = perform_all-AllValid new_manager ops new_manager-AllValid

  -- What one callback is called with.
  unfoldable pub told : ℕ → List (ℕ × ParameterChange D) → List (ParameterChange D)
  told k [] = []
  told k ((c, change) ∷ calls) = if eqb c k then change ∷ told k calls else told k calls

  -- The changes of a parameter lead from one value to the other, each from where the last one ended.
  abbrev pub Chain : Text → ParameterValue D → List (ParameterChange D) → ParameterValue D → Type 0
  Chain name v [] w = v ≡ w
  Chain name v (c ∷ cs) w =
      (if text_eq c.change_name name
        then (c.old_value ≡ v) × Chain name c.new_value cs w
        else Chain name v cs w)

  pub told-append :
      (k : ℕ) (xs ys : List (ℕ × ParameterChange D)) → told k (xs ++ ys) ≡ told k xs ++ told k ys
  unfolding told
  told-append k [] ys = refl
  told-append k ((c, change) ∷ xs) ys = ground (arith, told-append k xs ys)

  told_nobody :
      (k : ℕ) (change : ParameterChange D) (cs : List ℕ)
      → times k cs ≡ 0
      → told k (map (λ c. (c, change)) cs) ≡ []
  unfolding told times
  told_nobody k change [] h = refl
  told_nobody k change (c ∷ cs) h = ground (arith, h, told_nobody k change cs)

  told_once :
      (k : ℕ) (change : ParameterChange D) (cs : List ℕ)
      → times k cs ≡ 1
      → told k (map (λ c. (c, change)) cs) ≡ change ∷ []
  unfolding told times
  told_once k change [] h = absurd (omega arith)
  told_once k change (c ∷ cs) h = ground (arith, h, told_once k change cs, told_nobody k change cs)

  Chain-append :
      (name : Text) (xs ys : List (ParameterChange D)) (u v w : ParameterValue D)
      → Chain name u xs v
      → Chain name v ys w
      → Chain name u (xs ++ ys) w
  Chain-append name [] ys u v w a b = subst (λ x. Chain name x ys w) (sym a) b
  Chain-append name (c ∷ xs) ys u v w a b =
      by_name (text_eq c.change_name name) (λ a'. Chain-append name xs ys c.new_value v w a' b)
        (λ a'. Chain-append name xs ys u v w a' b) a
    where
      by_name :
          (t : Bool)
          → (Chain name c.new_value xs v → Chain name c.new_value (xs ++ ys) w)
          → (Chain name u xs v → Chain name u (xs ++ ys) w)
          → (if t then (c.old_value ≡ u) × Chain name c.new_value xs v else Chain name u xs v)
          → (if t
              then (c.old_value ≡ u) × Chain name c.new_value (xs ++ ys) w
              else Chain name u (xs ++ ys) w)
      by_name true new old (e, a') = (e, new a')
      by_name false new old a' = old a'

  get-assign :
      (m : ParameterManager D) (n name : Text) (def : ParameterDef D)
      → get (record m { parameters = assign n def m.parameters }) name
        ≡ (if text_eq n name then some def.def_value else get m name)
  unfolding get
  get-assign m n name def = ground (arith, find-assign n name def m.parameters)

  get_other :
      (m : ParameterManager D) (n name : Text) (def : ParameterDef D) (v : ParameterValue D)
      → find n m.parameters ≡ none
      → get m name ≡ some v
      → get (record m { parameters = assign n def m.parameters }) name ≡ some v
  unfolding get
  get_other m n name def v missing is_v = elim (Bool-cases (text_eq n name)) [
    | inl same ↦
        absurd (
          ground
            (arith, is_v, ap (λ j. find j m.parameters) ((text_eq_iff n name).0 same), missing))
    | inr other ↦ get-assign m n name def ∙ ground (arith, other, is_v)
  ]

  stored-Chain :
      (m : ParameterManager D) (n : Text) (x : ParameterValue D) (name : Text)
      (v : ParameterValue D) (def : ParameterDef D)
      → find n m.parameters ≡ some def
      → get m name ≡ some v
      → (w : ParameterValue D) × (get (stored m n def x) name ≡ some w)
        × Chain name v (change_of n def x ∷ []) w
  unfolding get stored
  stored-Chain m n x name v def is_def is_v = elim (Bool-cases (text_eq n name)) [
    | inl same ↦ (
      x,
      get-assign m n name _ ∙ ground (arith, same),
      subst (λ t. if t then (def.def_value ≡ v) × (x ≡ x) else v ≡ x) (sym same)
          (
            ground
                (arith, is_v, is_def, ap (λ j. find j m.parameters) ((text_eq_iff n name).0 same)),
            refl,
          ),
    )
    | inr other ↦ (
      v,
      get-assign m n name _ ∙ ground (arith, other, is_v),
      subst (λ t. if t then (def.def_value ≡ v) × (x ≡ v) else v ≡ v) (sym other) refl,
    )
  ]

  -- One operation, told to a callback that is registered once.
  perform-Chain :
      (m : ParameterManager D) (op : ParameterOp D) (k : ℕ) (name : Text) (v : ParameterValue D)
      → times k m.callbacks ≡ 1
      → NotListening k op
      → get m name ≡ some v
      → (w : ParameterValue D) × (get (perform m op).0 name ≡ some w)
        × Chain name v (told k (perform m op).1) w
        × (times k (perform m op).0.callbacks ≡ 1)
  unfolding perform on_parameter_change told get
  perform-Chain m (listens j) k name v once not_me is_v =
      (v, is_v, refl, times-listen k j m.callbacks not_me ∙ once)
  perform-Chain m (defines n type x low high allowed) k name v once not_me is_v =
      elim (define_cases m n type x low high allowed) [
        | inl same ↦ (
          v,
          ap (λ m'. get m' name) same ∙ is_v,
          refl,
          ap (λ m'. times k m'.callbacks) same ∙ once,
        )
        | inr (def, missing, good, is_x, added) ↦ (
          v,
          ap (λ m'. get m' name) added ∙ get_other m n name def v missing is_v,
          refl,
          ap (λ m'. times k m'.callbacks) added ∙ once,
        )
      ]
  perform-Chain m (sets n x) k name v once not_me is_v = elim (set_cases m n x) [
    | inl (same, quiet) ↦ (
      v,
      ap (λ m'. get m' name) same ∙ is_v,
      subst (λ cs. Chain name v (told k cs) v) (sym quiet) refl,
      ap (λ m'. times k m'.callbacks) same ∙ once,
    )
    | inr (def, is_def, good, written, called) ↦
        let (w, is_w, chain) = stored-Chain m n x name v def is_def is_v in
        (
          w,
          ap (λ m'. get m' name) written ∙ is_w,
          subst (λ cs. Chain name v cs w)
              (sym (ap (told k) called ∙ told_once k (change_of n def x) m.callbacks once)) chain,
          ap (λ m'. times k m'.callbacks) written ∙ once,
        )
  ]

  -- The changes that the writes have for a callback that is registered once, and no more in the history,
  -- in the order of the writes: those of each parameter lead from its value at the start of the history to its value at the end.
  pub perform_all-Chain :
      (m : ParameterManager D) (ops : List (ParameterOp D)) (k : ℕ) (name : Text)
      (v : ParameterValue D)
      → times k m.callbacks ≡ 1
      → All (NotListening k) ops
      → get m name ≡ some v
      → (w : ParameterValue D) × (get (perform_all m ops).0 name ≡ some w)
        × Chain name v (told k (perform_all m ops).1) w
  unfolding perform_all told
  perform_all-Chain m [] k name v once none_else is_v = (v, is_v, refl)
  perform_all-Chain m (op ∷ ops) k name v once none_else is_v =
      let (u, is_u, chain, once') = perform-Chain m op k name v once none_else.0 is_v in
      let (w, is_w, chain') =
        perform_all-Chain (perform m op).0 ops k name u once' none_else.1 is_u in
      (
        w,
        is_w,
        subst (λ cs. Chain name v cs w)
            (sym (told-append k (perform m op).1 (perform_all (perform m op).0 ops).1))
            (Chain-append name (told k (perform m op).1) _ v u w chain chain'),
      )

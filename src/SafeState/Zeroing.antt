-- ===== src/SafeState/Zeroing.antt =====
-- The arguments of the zero rung.
use anolis.Base.{
  ◌≡◌, ◌⊎◌, sym, pos, some-injective, subst, Bool, true, false, none, some, List, [], ◌∷◌, arith,
  All, is_empty, Text, text_key, ◌==◌, beq_refl, Map, find, assign_sorted, find-assign_sorted,
  Bool-cases, Option-cases, inl, inr,
}
use anolis.Protocol.{
  Doubles, Value, ValueType, type_bool, type_int64, type_uint64, type_double, type_string,
  type_bytes, type_other, ArgSpec, double_value, int64_value, uint64_value,
}
use anolis.Registry.{FunctionSpec}
use anolis.SafeState.{zeroed, zero_value, zero_args_from, build_zero_args}

module _ {D : Doubles} where
  -- The number zero as a double, a signed or an unsigned integer.
  abbrev pub IsZero : Value D → Type 0
  IsZero v =
      (v ≡ record { value_type = type_double; kind = double_value D.double_zero })
      ⊎ ((v ≡ record { value_type = type_int64; kind = int64_value (pos 0) })
          ⊎ (v ≡ record { value_type = type_uint64; kind = uint64_value 0 }))

  abbrev pub is_given : Text → Map Text (Value D) → Bool
  unfolding find
  is_given name args = elim (find name args) [ none ↦ false | some _ ↦ true ]

  zero_value-IsZero : (t : ValueType) (v : Value D) → zero_value t ≡ some v → IsZero v
  unfolding zero_value
  zero_value-IsZero type_double v e = inl (sym (some-injective _ _ e))
  zero_value-IsZero type_int64 v e = inr (inl (sym (some-injective _ _ e)))
  zero_value-IsZero type_uint64 v e = inr (inr (sym (some-injective _ _ e)))
  zero_value-IsZero type_bool v e = absurd (ground (arith, e))
  zero_value-IsZero type_string v e = absurd (ground (arith, e))
  zero_value-IsZero type_bytes v e = absurd (ground (arith, e))
  zero_value-IsZero (type_other _) v e = absurd (ground (arith, e))

  abbrev AllZero : Map Text (Value D) → Type 0
  AllZero = All (λ e. IsZero e.1)

  assign_sorted-AllZero :
      (name : Text) (v : Value D) (args : Map Text (Value D))
      → IsZero v
      → AllZero args
      → AllZero (assign_sorted name v args)
  unfolding assign_sorted
  assign_sorted-AllZero name v [] z a = (z, tt)
  assign_sorted-AllZero name v ((k, w) ∷ args) z a = elim (Bool-cases (k == name)) [
    | inl same ↦ rw (same, assign_sorted) (z, a.1)
    | inr other ↦ elim (Bool-cases (text_key.blt name k)) [
      | inl before ↦ rw (other, before, assign_sorted) (z, a)
      | inr after ↦ rw (other, after, assign_sorted) (a.0, assign_sorted-AllZero name v args z a.1)
    ]
  ]

  -- What the loop gives from the arguments gathered so far.
  record Zeroed (specs : List (ArgSpec D)) (before args : Map Text (Value D)) : Type 0 where
    all_zero : AllZero args
    given : All (λ arg. arg.required ≡ true → is_given arg.arg_name args ≡ true) specs
    kept : (name : Text) → is_given name before ≡ true → is_given name args ≡ true
    some_arg : is_empty args ≡ false

  zero_args_from-Zeroed :
      (specs : List (ArgSpec D)) (before args : Map Text (Value D))
      → AllZero before
      → zero_args_from specs before ≡ zeroed args
      → Zeroed specs before args
  unfolding zero_args_from is_given
  zero_args_from-Zeroed [] before args a e = elim (Bool-cases (is_empty before)) [
    | inl t ↦ absurd (ground (arith, e, t))
    | inr f ↦
        let same : before ≡ args = ground (arith, e, f) in
        subst (Zeroed [] before) same
          record { all_zero = a; given = tt; kept = λ name g. g; some_arg = f }
  ]
  zero_args_from-Zeroed (arg ∷ specs) before args a e = elim (Bool-cases arg.required) [
    | inr optional ↦
        let rest = zero_args_from-Zeroed specs before args a (ground (arith, e, optional)) in
        record {
          all_zero = rest.all_zero;
          given = (λ r. absurd (ground (arith, r, optional)), rest.given);
          kept = rest.kept;
          some_arg = rest.some_arg;
        }
    | inl needed ↦ elim (Option-cases (zero_value {D = D} arg.arg_type)) [
      | inl no_zero ↦ absurd (ground (arith, e, needed, no_zero))
      | inr (v, has_zero) ↦
          let rest =
            zero_args_from-Zeroed specs (assign_sorted arg.arg_name v before) args
              (assign_sorted-AllZero arg.arg_name v before
                (zero_value-IsZero arg.arg_type v has_zero) a)
              (ground (arith, e, needed, has_zero)) in
          record {
            all_zero = rest.all_zero;
            given = (
              λ _. rest.kept arg.arg_name (
                  ground (
                    arith,
                    find-assign_sorted arg.arg_name arg.arg_name v before,
                    beq_refl arg.arg_name,
                  )),
              rest.given,
            );
            kept = λ name g.
                rest.kept name (ground (arith, g, find-assign_sorted arg.arg_name name v before));
            some_arg = rest.some_arg;
          }
    ]
  ]

  -- Where the zero rung can drive a function, what it sends is not empty, gives every required argument,
  -- and each value of it is the number zero, as a double or as a signed or unsigned integer.
  pub zeroed_exact :
      (spec : FunctionSpec D) (args : Map Text (Value D))
      → build_zero_args spec ≡ zeroed args
      → (is_empty args ≡ false)
        × (All (λ e. IsZero e.1) args
            × All (λ arg. arg.required ≡ true → is_given arg.arg_name args ≡ true) spec.args)
  unfolding build_zero_args
  zeroed_exact spec args e =
      let z = zero_args_from-Zeroed spec.args [] args tt e in (z.some_arg, (z.all_zero, z.given))

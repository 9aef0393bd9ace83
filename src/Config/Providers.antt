-- ===== src/Config/Providers.antt =====
-- The providers of a configuration that validate_config accepts, and rules that turn a chain of checks
-- into what it accepts.
use anolis.Base.{
  ℕ, suc, ◌≡◌, ◌≢◌, ◌↔◌, refl, ap, Bool, true, false, not, Option, none, some, List, [], ◌∷◌,
  if◌then◌else◌, eqb, length, map, any, is_empty, Text, text_eq, text_eq_iff, text_key, contains, ℤ,
  pos, pos_part, ltb_ℤ, ◌≤ℤ◌, arith, All, inl, inr, Bool-cases,
}
use anolis.Supervisor.{policy_is_valid}
use anolis.Config.{
  ReadPolicy, ProviderConfig, ConfigError, refuse_if, ◌andthen◌, check_each, validate_restart,
  validate_provider, validate_providers, policy_of,
}

pub refuse_if_iff {ℓ} :
    {P : Type ℓ} (b : Bool) (e : ConfigError) → (b ≡ false) ↔ P → (refuse_if b e ≡ none) ↔ P
refuse_if_iff true e h = (λ q. cc, λ p. cc (h.1 p))
refuse_if_iff false e h = (λ q. h.0 refl, λ p. refl)

pub andthen_iff {ℓ κ} :
    {P : Type ℓ} {Q : Type κ} (a b : Option ConfigError)
    → (a ≡ none) ↔ P
    → (b ≡ none) ↔ Q
    → ((a andthen b) ≡ none) ↔ (P × Q)
andthen_iff (some e) b h k = (λ q. cc, λ pq. cc (h.1 pq.0))
andthen_iff none b h k = (λ q. (h.0 refl, k.0 q), λ pq. k.1 pq.1)

pub unless_iff {ℓ} :
    {P : Type ℓ} (b : Bool) (checks : Option ConfigError)
    → (checks ≡ none) ↔ P
    → ((if not b then none else checks) ≡ none) ↔ (b ≡ true → P)
unless_iff true checks h = (λ q _. h.0 q, λ p. h.1 (p refl))
unless_iff false checks h = (λ _ q. cc, λ _. refl)

pub check_each-All {ℓ κ} :
    {A : Type ℓ} {P : A → Type κ} (check : A → Option ConfigError)
    → ((x : A) → (check x ≡ none) ↔ P x)
    → (xs : List A) → (check_each check xs ≡ none) ↔ All P xs
check_each-All check h [] = (λ _. tt, λ _. refl)
check_each-All check h (x ∷ xs) =
    andthen_iff (check x) (check_each check xs) (h x) (check_each-All check h xs)

pub given {ℓ} : {A : Type ℓ} (xs : List A) → (is_empty xs ≡ false) ↔ (xs ≢ [])
given [] = (λ h. cc, λ h. absurd (h refl))
given (x ∷ xs) = (λ _ e. cc, λ _. refl)

pub at_least : (n : ℤ) (k : ℕ) → (ltb_ℤ n (pos k) ≡ false) ↔ (pos k ≤ℤ n)
at_least n k = ground arith

-- A wait for each attempt, none of them negative.
abbrev pub PolicyAccepted : ReadPolicy → Type 0
PolicyAccepted p =
    (pos 1 ≤ℤ p.read_max_attempts)
    × ((p.read_backoff_ms ≢ [])
        × ((length p.read_backoff_ms ≡ pos_part p.read_max_attempts)
            × (All (λ n. pos 0 ≤ℤ n) p.read_backoff_ms
                × ((pos 1000 ≤ℤ p.read_timeout_ms) × (pos 0 ≤ℤ p.read_success_reset_ms)))))

abbrev pub ProviderAccepted : ProviderConfig → Type 0
ProviderAccepted p =
    (p.id ≢ [])
    × ((p.command ≢ [])
        × ((pos 100 ≤ℤ p.timeout_ms)
            × ((pos 100 ≤ℤ p.hello_timeout_ms)
                × ((pos 1000 ≤ℤ p.ready_timeout_ms)
                    × (p.restart_policy.restart_enabled ≡ true
                        → PolicyAccepted p.restart_policy)))))

abbrev pub id_of : ProviderConfig → Text
id_of p = p.id

-- No id twice.
abbrev pub AllDistinct : List Text → Type 0
AllDistinct [] = Unit
AllDistinct (x ∷ xs) = All (λ y. x ≢ y) xs × AllDistinct xs

no_negative : (ns : List ℤ) → (any (λ n. ltb_ℤ n (pos 0)) ns ≡ false) ↔ All (λ n. pos 0 ≤ℤ n) ns
no_negative [] = (λ _. tt, λ _. refl)
no_negative (n ∷ ns) = (
  λ h. (ground (arith, h), (no_negative ns).0 (ground (arith, h))),
  λ a. ground (arith, a.0, (no_negative ns).1 a.1),
)

equal_lengths : (a b : ℕ) → (not (eqb a b) ≡ false) ↔ (a ≡ b)
equal_lengths a b = ground arith

restart_exact :
    (id : Text) (p : ReadPolicy)
    → (validate_restart id p ≡ none) ↔ (p.restart_enabled ≡ true → PolicyAccepted p)
unfolding validate_restart
restart_exact id p = unless_iff p.restart_enabled _ (
    andthen_iff _ _ (refuse_if_iff _ _ (at_least p.read_max_attempts 1)) (
      andthen_iff _ _ (refuse_if_iff _ _ (given p.read_backoff_ms)) (
        andthen_iff _ _
          (refuse_if_iff _ _
            (equal_lengths (length p.read_backoff_ms) (pos_part p.read_max_attempts)))
          (andthen_iff _ _ (refuse_if_iff _ _ (no_negative p.read_backoff_ms)) (
            andthen_iff _ _ (refuse_if_iff _ _ (at_least p.read_timeout_ms 1000))
              (refuse_if_iff _ _ (at_least p.read_success_reset_ms 0)))))))

provider_exact :
    (seen : List Text) (p : ProviderConfig)
    → (validate_provider seen p ≡ none) ↔ (
        (p.id ≢ [])
        × ((contains p.id seen ≡ false)
            × ((p.command ≢ [])
                × ((pos 100 ≤ℤ p.timeout_ms)
                    × ((pos 100 ≤ℤ p.hello_timeout_ms)
                        × ((pos 1000 ≤ℤ p.ready_timeout_ms)
                            × (p.restart_policy.restart_enabled ≡ true
                                → PolicyAccepted p.restart_policy)))))))
unfolding validate_provider
provider_exact seen p = andthen_iff _ _ (refuse_if_iff _ _ (given p.id)) (
    andthen_iff _ _ (refuse_if_iff _ _ (λ e. e, λ e. e)) (
      andthen_iff _ _ (refuse_if_iff _ _ (given p.command)) (
        andthen_iff _ _ (refuse_if_iff _ _ (at_least p.timeout_ms 100)) (
          andthen_iff _ _ (refuse_if_iff _ _ (at_least p.hello_timeout_ms 100)) (
            andthen_iff _ _ (refuse_if_iff _ _ (at_least p.ready_timeout_ms 1000))
              (restart_exact p.id p.restart_policy))))))

unseen-cons :
    (x i : Text) (seen : List Text)
    → (contains i (x ∷ seen) ≡ false) ↔ ((x ≢ i) × (contains i seen ≡ false))
unfolding contains
unseen-cons x i seen = (
  λ h. (λ e. cc (h, (text_eq_iff x i).1 e), ground (arith, h)),
  λ (ne, h). elim (Bool-cases (text_eq x i)) [
    | inl e ↦ absurd (ne ((text_eq_iff x i).0 e))
    | inr e ↦ ground (arith, e, h)
  ],
)

unseen_all :
    (x : Text) (seen is : List Text)
    → All (λ i. contains i (x ∷ seen) ≡ false) is
      ↔ (All (λ y. x ≢ y) is × All (λ i. contains i seen ≡ false) is)
unseen_all x seen [] = (λ _. (tt, tt), λ _. tt)
unseen_all x seen (i ∷ is) = (
  λ a.
      let both = (unseen-cons x i seen).0 a.0 in
      let rest = (unseen_all x seen is).0 a.1 in ((both.0, rest.0), (both.1, rest.1)),
  λ b. ((unseen-cons x i seen).1 (b.0.0, b.1.0), (unseen_all x seen is).1 (b.0.1, b.1.1)),
)

-- The loop over the providers, with the ids that it has seen.
pub providers_exact :
    (seen : List Text) (ps : List ProviderConfig)
    → (validate_providers seen ps ≡ none) ↔ (
        All ProviderAccepted ps
        × (All (λ i. contains i seen ≡ false) (map id_of ps) × AllDistinct (map id_of ps)))
unfolding validate_providers
providers_exact seen [] = (λ _. (tt, (tt, tt)), λ _. refl)
providers_exact seen (p ∷ ps) =
    regroup (andthen_iff _ _ (provider_exact seen p) (providers_exact (p.id ∷ seen) ps))
  where
    regroup :
        ((validate_providers seen (p ∷ ps) ≡ none) ↔ (
          ((p.id ≢ [])
            × ((contains p.id seen ≡ false)
                × ((p.command ≢ [])
                    × ((pos 100 ≤ℤ p.timeout_ms)
                        × ((pos 100 ≤ℤ p.hello_timeout_ms)
                            × ((pos 1000 ≤ℤ p.ready_timeout_ms)
                                × (p.restart_policy.restart_enabled ≡ true
                                    → PolicyAccepted p.restart_policy)))))))
          × (All ProviderAccepted ps
              × (All (λ i. contains i (p.id ∷ seen) ≡ false) (map id_of ps)
                  × AllDistinct (map id_of ps)))))
        → (validate_providers seen (p ∷ ps) ≡ none) ↔ (
            All ProviderAccepted (p ∷ ps)
            × (All (λ i. contains i seen ≡ false) (map id_of (p ∷ ps))
                × AllDistinct (map id_of (p ∷ ps))))
    regroup both = (
      λ h.
          let ((named, (new, rest)), (others, (unseen, distinct))) = both.0 h in
          let split = (unseen_all p.id seen (map id_of ps)).0 unseen in
          (((named, rest), others), ((new, split.1), (split.0, distinct))),
      λ (((named, rest), others), ((new, unseen), (ne, distinct))). both.1 (
        (named, (new, rest)),
        (others, ((unseen_all p.id seen (map id_of ps)).1 (ne, unseen), distinct)),
      ),
    )

lengths : (ns : List ℤ) → length (map pos_part ns) ≡ length ns
lengths [] = refl
lengths (n ∷ ns) = ap suc (lengths ns)

-- A provider that is accepted gives the supervisor a policy that it takes for valid.
pub accepted_policy :
    (p : ProviderConfig) → ProviderAccepted p → policy_is_valid (policy_of p.restart_policy) ≡ true
unfolding policy_is_valid policy_of
accepted_policy p (_, (_, (_, (_, (_, policy))))) =
    elim (Bool-cases p.restart_policy.restart_enabled) [
      | inr off ↦ ground (arith, off)
      | inl on ↦
          let (tries, (_, (as_many, (_, (time, _))))) = policy on in
          ground (arith, on, tries, as_many, time, lengths p.restart_policy.read_backoff_ms)
    ]

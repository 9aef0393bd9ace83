-- ===== src/Config/Accepted.antt =====
-- What validate_config accepts as a whole.
use anolis.Base.{
  ◌<◌, ◌≡◌, ◌≢◌, ◌↔◌, ◌⊎◌, refl, true, false, not, none, List, [], ◌∷◌, map, Text, codes, text_eq,
  text_eq_iff, text_key, contains, ℤ, pos, pos_part, ◌≤ℤ◌, arith, All, inl, inr, Bool-cases,
}
use anolis.Protocol.{Doubles}
use anolis.Config.{
  ProviderConfig, RuntimeConfig, validate_http, validate_providers, validate_staleness,
  is_log_level, validate_config,
}
use anolis.Config.Http.{IsBetween, is_outside-IsBetween, HttpAccepted, http_exact}
use anolis.Config.Providers.{
  refuse_if_iff, andthen_iff, given, at_least, ProviderAccepted, AllDistinct, id_of,
  providers_exact,
}
use anolis.Config.Automation.{AutomationAccepted, CallAccepted, calls_exact, automation_exact}

-- Not negative, and in order where both are set.
abbrev pub StalenessAccepted : ℤ → ℤ → Type 0
StalenessAccepted warn stale =
    (pos 0 ≤ℤ warn)
    × ((pos 0 ≤ℤ stale) × ((warn ≡ pos 0) ⊎ ((stale ≡ pos 0) ⊎ (pos_part warn < pos_part stale))))

abbrev pub IsLogLevel : Text → Type 0
IsLogLevel level =
    (level ≡ codes "debug")
    ⊎ ((level ≡ codes "info") ⊎ ((level ≡ codes "warn") ⊎ (level ≡ codes "error")))

abbrev pub ConfigAccepted : {D : Doubles} → RuntimeConfig D → Type 0
ConfigAccepted c =
    IsBetween c.shutdown_timeout_ms 500 30000
    × (IsBetween c.startup_timeout_ms 5000 300000
        × ((c.http.http_enabled ≡ true → HttpAccepted c.http)
            × ((c.providers ≢ [])
                × ((All ProviderAccepted c.providers × AllDistinct (map id_of c.providers))
                    × ((pos 100 ≤ℤ c.polling_interval_ms)
                        × (StalenessAccepted c.warn_after_ms c.stale_after_ms
                            × (IsLogLevel c.log_level
                                × ((c.automation.automation_enabled ≡ true
                                      → AutomationAccepted c.automation)
                                    × (All CallAccepted c.safe_state.hooks
                                        × All CallAccepted c.safe_state.setpoints)))))))))

http_section :
    {D : Doubles} (c : RuntimeConfig D)
    → (validate_http c.http ≡ none) ↔ (c.http.http_enabled ≡ true → HttpAccepted c.http)
unfolding validate_http
http_section c = (
  λ h on. (http_exact c.http on).0 h,
  λ a. elim (Bool-cases c.http.http_enabled) [
    | inl on ↦ (http_exact c.http on).1 (a on)
    | inr off ↦ rw off refl
  ],
)

nothing_seen : (is : List Text) → All (λ i. contains i [] ≡ false) is
unfolding contains
nothing_seen [] = tt
nothing_seen (i ∷ is) = (refl, nothing_seen is)

provider_section :
    (ps : List ProviderConfig)
    → (validate_providers [] ps ≡ none) ↔ (All ProviderAccepted ps × AllDistinct (map id_of ps))
provider_section ps = (
  λ h. let (good, (_, distinct)) = (providers_exact [] ps).0 h in (good, distinct),
  λ (good, distinct). (providers_exact [] ps).1 (good, (nothing_seen (map id_of ps), distinct)),
)

staleness_exact :
    (warn stale : ℤ) → (validate_staleness warn stale ≡ none) ↔ StalenessAccepted warn stale
unfolding validate_staleness
staleness_exact warn stale = ground arith

level_exact : (level : Text) → (not (is_log_level level) ≡ false) ↔ IsLogLevel level
unfolding is_log_level
level_exact level = (to, from)
  where
    to : not (is_log_level level) ≡ false → IsLogLevel level
    to h = elim (Bool-cases (text_eq level (codes "debug"))) [
      | inl e ↦ (inl ((text_eq_iff level (codes "debug")).0 e))
      | inr n0 ↦ elim (Bool-cases (text_eq level (codes "info"))) [
        | inl e ↦ (inr (inl ((text_eq_iff level (codes "info")).0 e)))
        | inr n1 ↦ elim (Bool-cases (text_eq level (codes "warn"))) [
          | inl e ↦ (inr (inr (inl ((text_eq_iff level (codes "warn")).0 e))))
          | inr n2 ↦ elim (Bool-cases (text_eq level (codes "error"))) [
            | inl e ↦ (inr (inr (inr ((text_eq_iff level (codes "error")).0 e))))
            | inr n3 ↦ absurd (ground (arith, h, n0, n1, n2, n3))
          ]
        ]
      ]
    ]

    from : IsLogLevel level → not (is_log_level level) ≡ false
    from (inl e) = ground (arith, (text_eq_iff level (codes "debug")).1 e)
    from (inr (inl e)) = ground (arith, (text_eq_iff level (codes "info")).1 e)
    from (inr (inr (inl e))) = ground (arith, (text_eq_iff level (codes "warn")).1 e)
    from (inr (inr (inr e))) = ground (arith, (text_eq_iff level (codes "error")).1 e)

-- A configuration passes every check exactly when its sections are as they should be: timeouts in
-- range, no exposure of an enabled HTTP server without a token unless it is asked for, at least one
-- provider, no id twice, restart policies with a wait for each attempt, parameters with a default of
-- their type, hooks with modes and calls, and calls of the safe state with a device and a function.
pub config_exact :
    {D : Doubles} (c : RuntimeConfig D) → (validate_config c ≡ none) ↔ ConfigAccepted c
unfolding validate_config
config_exact c =
    andthen_iff _ _ (refuse_if_iff _ _ (is_outside-IsBetween c.shutdown_timeout_ms 500 30000)) (
      andthen_iff _ _ (refuse_if_iff _ _ (is_outside-IsBetween c.startup_timeout_ms 5000 300000)) (
        andthen_iff _ _ (http_section c) (
          andthen_iff _ _ (refuse_if_iff _ _ (given c.providers)) (
            andthen_iff _ _ (provider_section c.providers) (
              andthen_iff _ _ (refuse_if_iff _ _ (at_least c.polling_interval_ms 100)) (
                andthen_iff _ _ (staleness_exact c.warn_after_ms c.stale_after_ms) (
                  andthen_iff _ _ (refuse_if_iff _ _ (level_exact c.log_level)) (
                    andthen_iff _ _ (automation_exact c.automation) (
                      andthen_iff _ _ (calls_exact c.safe_state.hooks)
                        (calls_exact c.safe_state.setpoints))))))))))

-- ===== src/Config/Http.antt =====
-- The HTTP section of a configuration that validate_config accepts, stated without its checks.
use anolis.Base.{
  ℕ, ◌≡◌, ◌≢◌, ◌↔◌, ◌⊎◌, refl, sym, subst, Bool, true, false, not, ◌&&◌, ◌||◌, none, List, [], ◌∷◌,
  ◌++◌, any, is_empty, Text, codes, text_eq, text_eq_iff, text_key, starts_with, ℤ, pos, ltb_ℤ,
  ◌≤ℤ◌, arith, All, inl, inr, Bool-cases,
}
use anolis.Config.{
  bad_port, bad_thread_pool, wildcard_with_credentials, no_auth_token, insecure_bind, half_tls,
  HttpConfig, ConfigError, refuse_if, ◌andthen◌, is_outside, is_loopback_bind, validate_http,
}

abbrev pub IsBetween : ℤ → ℕ → ℕ → Type 0
IsBetween n low high = (pos low ≤ℤ n) × (n ≤ℤ pos high)

-- A bind address that only the own host reaches.
abbrev pub IsLoopback : Text → Type 0
IsLoopback bind =
    (bind ≡ codes "::1")
    ⊎ ((bind ≡ codes "localhost") ⊎ ((rest : Text) × (bind ≡ codes "127." ++ rest)))

-- What the HTTP section keeps: no credentials for any origin, a token where one is asked for, no
-- exposure to the network without one unless it is asked for, and a whole pair of TLS files or none.
pub record HttpAccepted (h : HttpConfig) : Type 0 where
  pub port_ok : IsBetween h.port 1 65535
  pub pool_ok : pos 1 ≤ℤ h.thread_pool_size
  pub origins_ok : h.cors_allow_credentials ≡ true → All (λ o. o ≢ codes "*") h.cors_allowed_origins
  pub token_ok : h.auth_enabled ≡ true → h.auth_token ≢ []
  pub exposure_ok : h.allow_insecure_bind ≡ false → (h.auth_enabled ≡ true) ⊎ IsLoopback h.bind
  pub tls_ok : (h.tls_cert_path ≡ []) ↔ (h.tls_key_path ≡ [])

pub is_outside-IsBetween :
    (n : ℤ) (low high : ℕ) → (is_outside n low high ≡ false) ↔ IsBetween n low high
is_outside-IsBetween n low high = ground arith

pub is_empty-nil {ℓ} : {A : Type ℓ} (xs : List A) → (is_empty xs ≡ true) ↔ (xs ≡ [])
is_empty-nil [] = (λ _. refl, λ _. refl)
is_empty-nil (x ∷ xs) = (λ h. cc, λ h. cc)

starts_with-append :
    (s part : Text) → starts_with s part ≡ true → (rest : Text) × (s ≡ part ++ rest)
unfolding starts_with
starts_with-append s [] h = (s, refl)
starts_with-append [] (y ∷ ys) h = absurd (ground (arith, h))
starts_with-append (x ∷ xs) (y ∷ ys) h =
    let (rest, e) = starts_with-append xs ys (ground (arith, h)) in (rest, ground (arith, h, e))

append-starts_with : (part rest : Text) → starts_with (part ++ rest) part ≡ true
unfolding starts_with
append-starts_with [] rest = refl
append-starts_with (y ∷ ys) rest = ground (arith, append-starts_with ys rest)

-- The wildcard is not among the origins.
any_wildcard :
    (os : List Text) → (any (λ o. text_eq o (codes "*")) os ≡ false) ↔ All (λ o. o ≢ codes "*") os
any_wildcard [] = (λ _. tt, λ _. refl)
any_wildcard (o ∷ os) = (
  λ h. (λ e. cc ((text_eq_iff o (codes "*")).1 e, h), (any_wildcard os).0 (ground (arith, h))),
  λ a. ground (arith, (any_wildcard os).1 a.1, not_wild a.0),
)
  where
    not_wild : o ≢ codes "*" → text_eq o (codes "*") ≡ false
    not_wild ne = elim (Bool-cases (text_eq o (codes "*"))) [
      | inl e ↦ absurd (ne ((text_eq_iff o (codes "*")).0 e))
      | inr e ↦ e
    ]

is_loopback_bind-IsLoopback : (bind : Text) → (is_loopback_bind bind ≡ true) ↔ IsLoopback bind
unfolding is_loopback_bind starts_with
is_loopback_bind-IsLoopback bind = (to, from)
  where
    to : is_loopback_bind bind ≡ true → IsLoopback bind
    to h = elim (Bool-cases (starts_with bind (codes "127."))) [
      | inl e ↦ inr (inr (starts_with-append bind (codes "127.") e))
      | inr no_prefix ↦ elim (Bool-cases (text_eq bind (codes "::1"))) [
        | inl e ↦ inl ((text_eq_iff bind (codes "::1")).0 e)
        | inr other ↦ elim (Bool-cases (text_eq bind (codes "localhost"))) [
          | inl e ↦ inr (inl ((text_eq_iff bind (codes "localhost")).0 e))
          | inr third ↦ inr (
              inr (
                (48 ∷ 46 ∷ 48 ∷ 46 ∷ 49 ∷ []),
                (text_eq_iff bind (codes "127.0.0.1")).0
                    (ground (arith, h, no_prefix, other, third)),
              ))
        ]
      ]
    ]

    from : IsLoopback bind → is_loopback_bind bind ≡ true
    from (inl e) = ground (arith, (text_eq_iff bind (codes "::1")).1 e)
    from (inr (inl e)) = ground (arith, (text_eq_iff bind (codes "localhost")).1 e)
    from (inr (inr (rest, e))) = ground (
      arith,
      subst (λ b. starts_with b (codes "127.") ≡ true) (sym e)
          (append-starts_with (codes "127.") rest),
    )

-- Six checks in a row.
six_checks :
    (a b c d e f : Bool) (ea eb ec ed ee ef : ConfigError)
    → ((refuse_if a ea
          andthen refuse_if b eb
          andthen refuse_if c ec
          andthen refuse_if d ed
          andthen refuse_if e ee
          andthen refuse_if f ef)
        ≡ none)
      ↔ ((a ≡ false) × (b ≡ false) × (c ≡ false) × (d ≡ false) × (e ≡ false) × (f ≡ false))
six_checks true b c d e f ea eb ec ed ee ef = ground arith
six_checks false b c d e f ea eb ec ed ee ef = ground arith

implied : (a b : Bool) → ((a && b) ≡ false) ↔ (a ≡ true → b ≡ false)
implied true b = (λ h _. h, λ h. h refl)
implied false b = (λ _ h. cc, λ _. refl)

-- Exposed without a token.
exposed :
    (loopback auth insecure : Bool)
    → ((not loopback && (not auth && not insecure)) ≡ false)
      ↔ (insecure ≡ false → (auth ≡ true) ⊎ (loopback ≡ true))
exposed true auth insecure = (λ _ _. inr refl, λ _. refl)
exposed false true insecure = (λ _ _. inl refl, λ _. refl)
exposed false false true = (λ _ h. cc, λ _. refl)
exposed false false false = (λ h _. cc, λ h. elim (h refl) [ inl e ↦ cc | inr e ↦ cc ])

-- Both or neither.
paired :
    (cert key : Text)
    → (((is_empty cert && not (is_empty key)) || (not (is_empty cert) && is_empty key)) ≡ false)
      ↔ ((cert ≡ []) ↔ (key ≡ []))
paired [] [] = (λ _. (λ _. refl, λ _. refl), λ _. refl)
paired [] (k ∷ ks) = (λ h. cc, λ h. cc (h.0 refl))
paired (c ∷ cs) [] = (λ h. cc, λ h. cc (h.1 refl))
paired (c ∷ cs) (k ∷ ks) = (λ _. (λ h. cc, λ h. cc), λ _. refl)

pub http_exact :
    (h : HttpConfig) → h.http_enabled ≡ true → (validate_http h ≡ none) ↔ HttpAccepted h
unfolding validate_http
http_exact h on = (to, from)
  where
    wild : Bool
    wild = any (λ o. text_eq o (codes "*")) h.cors_allowed_origins

    parts : (validate_http h ≡ none) ↔ (
        (is_outside h.port 1 65535 ≡ false)
        × (ltb_ℤ h.thread_pool_size (pos 1) ≡ false)
        × ((h.cors_allow_credentials && wild) ≡ false)
        × ((h.auth_enabled && is_empty h.auth_token) ≡ false)
        × ((not (is_loopback_bind h.bind) && (not h.auth_enabled && not h.allow_insecure_bind))
            ≡ false)
        × (((is_empty h.tls_cert_path && not (is_empty h.tls_key_path))
              || (not (is_empty h.tls_cert_path) && is_empty h.tls_key_path))
            ≡ false))
    parts = rw on (
        six_checks _ _ _ _ _ _ bad_port bad_thread_pool wildcard_with_credentials no_auth_token
          insecure_bind half_tls)

    to : validate_http h ≡ none → HttpAccepted h
    to ok =
        let (port, pool, origins, token, bind, tls) = parts.0 ok in
        record {
          port_ok = (is_outside-IsBetween h.port 1 65535).0 port;
          pool_ok = ground (arith, pool);
          origins_ok = λ c. (any_wildcard h.cors_allowed_origins).0 ((implied _ wild).0 origins c);
          token_ok = λ a e. cc ((implied _ _).0 token a, (is_empty-nil h.auth_token).1 e);
          exposure_ok = λ i. elim ((exposed _ _ _).0 bind i) [
            | inl auth ↦ inl auth
            | inr local ↦ inr ((is_loopback_bind-IsLoopback h.bind).0 local)
          ];
          tls_ok = (paired h.tls_cert_path h.tls_key_path).0 tls;
        }

    from : HttpAccepted h → validate_http h ≡ none
    from a = parts.1 (
      (is_outside-IsBetween h.port 1 65535).1 a.port_ok,
      ground (arith, a.pool_ok),
      (implied _ wild).1 (λ c. (any_wildcard h.cors_allowed_origins).1 (a.origins_ok c)),
      (implied _ _).1 (λ on'. elim (Bool-cases (is_empty h.auth_token)) [
        | inl e ↦ absurd (a.token_ok on' ((is_empty-nil h.auth_token).0 e))
        | inr e ↦ e
      ]),
      (exposed _ _ _).1 (λ i. elim (a.exposure_ok i) [
        | inl auth ↦ inl auth
        | inr local ↦ inr ((is_loopback_bind-IsLoopback h.bind).1 local)
      ]),
      (paired h.tls_cert_path h.tls_key_path).1 a.tls_ok,
    )

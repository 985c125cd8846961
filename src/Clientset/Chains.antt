-- ===== src/Clientset/Chains.antt =====
-- What a client is made of when the chain of its construction does not fail.
use kombiner.Prelude.{
  ◌≡◌, ◌↔◌, ◌∙◌, refl, sym, ap, true, false, none, some, ◌⊎◌, inl, inr, string_eq, arith,
  Bool-cases, Option-cases,
}
use kombiner.Clientset.Packages.{is_positive, Result, ◌and_then◌, Rest, Config}
use kombiner.Clientset.V1alpha1
use kombiner.Clientset.V1alpha1.{with_user_agent, set_config_defaults}
use kombiner.Clientset.{Clientset, rate_limited, new_for_config, new_for_config_and_client}
use kombiner.Clientset.Copies.{
  HasAgent, HasDefaults, with_user_agent-HasAgent, HasAgent-same, set_config_defaults-HasDefaults,
  HasDefaults-same,
}

module _ {A B : Type 0} where
  and_then-inr :
      (m : Result A) (f : A → Result B) {b : B}
      → (m and_then f) ≡ inr b
      → (a : A) × (m ≡ inr a) × (f a ≡ inr b)
  and_then-inr (inl err) f e = absurd (cc)
  and_then-inr (inr a) f e = (a, refl, e)

module _ {r : Rest} where
  -- The rate limit of the copy: the limiter that was there, none where QPS is not positive, or else a
  -- new one for a positive burst.
  abbrev pub IsLimited : Config r → Config r → Type 0
  IsLimited c c' =
      (((limiter : r.Limiter) × (c.rate_limiter ≡ some limiter)) × (c' ≡ c))
      ⊎ (((c.rate_limiter ≡ none) × (r.qps_positive c.qps ≡ false) × (c' ≡ c))
          ⊎ ((c.rate_limiter ≡ none)
              × (r.qps_positive c.qps ≡ true)
              × (is_positive c.burst ≡ true)
              × (c' ≡ record c { rate_limiter = some (r.new_token_bucket c.qps c.burst) })))

  rate_limited_given :
      (c : Config r) (l : r.Limiter) → c.rate_limiter ≡ some l → rate_limited r c ≡ inr c
  unfolding rate_limited
  rate_limited_given c l e = ground arith

  rate_limited_slow :
      (c : Config r)
      → c.rate_limiter ≡ none
      → r.qps_positive c.qps ≡ false
      → rate_limited r c ≡ inr c
  unfolding rate_limited
  rate_limited_slow c e q = ground arith

  rate_limited_new :
      (c : Config r)
      → c.rate_limiter ≡ none
      → r.qps_positive c.qps ≡ true
      → is_positive c.burst ≡ true
      → rate_limited r c ≡ inr (record c { rate_limiter = some (r.new_token_bucket c.qps c.burst) })
  unfolding rate_limited
  rate_limited_new c e q b = ground arith

  rate_limited_bad :
      (c : Config r)
      → c.rate_limiter ≡ none
      → r.qps_positive c.qps ≡ true
      → is_positive c.burst ≡ false
      → rate_limited r c
        ≡ inl
            "burst is required to be greater than 0 when RateLimiter is not set and QPS is set to greater than 0"
  unfolding rate_limited
  rate_limited_bad c e q b = ground arith

  rate_limited_lem : (c c' : Config r) → (rate_limited r c ≡ inr c') ↔ IsLimited c c'
  rate_limited_lem c c' = (forward, backward)
    where
      forward : rate_limited r c ≡ inr c' → IsLimited c c'
      forward e = elim (Option-cases c.rate_limiter) [
        | inr (l, at) ↦ inl ((l, at), (let f = rate_limited_given c l at in cc))
        | inl at ↦ elim (Bool-cases (r.qps_positive c.qps)) [
          | inl fast ↦ elim (Bool-cases (is_positive c.burst)) [
            | inl big ↦ inr (inr (at, fast, big, (let f = rate_limited_new c at fast big in cc)))
            | inr small ↦ absurd (let f = rate_limited_bad c at fast small in cc)
          ]
          | inr slow ↦ inr (inl (at, slow, (let f = rate_limited_slow c at slow in cc)))
        ]
      ]

      backward : IsLimited c c' → rate_limited r c ≡ inr c'
      backward (inl ((l, at), same)) = rate_limited_given c l at ∙ ap inr (sym same)
      backward (inr (inl (at, slow, same))) = rate_limited_slow c at slow ∙ ap inr (sym same)
      backward (inr (inr (at, fast, big, same))) =
          rate_limited_new c at fast big ∙ ap inr (sym same)

  module _ (http_client_for : Config r → Result (r.HttpClient))
      (rest_client_for : Config r → r.HttpClient → Result (r.RestClient))
      (discovery_client_for : Config r → r.HttpClient → Result (r.DiscoveryClient)) where
    -- Both clients stand on one HTTP client and one copy of the configuration, whose rate is limited;
    -- that of the requests on the defaults of the group besides.
    abbrev pub IsMade : Config r → Clientset r → Type 0
    IsMade c cs =
        (agent : Config r) × (h : r.HttpClient) × (limited : Config r) × (grouped : Config r)
        × HasAgent c agent
        × (http_client_for agent ≡ inr h)
        × IsLimited agent limited
        × HasDefaults limited grouped
        × (rest_client_for grouped h ≡ inr cs.kombiner_v1alpha1)
        × (discovery_client_for limited h ≡ inr cs.discovery_client)

    -- NewForConfig makes a client exactly when the library makes an HTTP client of the configuration,
    -- whose user agent is the default one if it was empty, the configuration has a rate limiter, no
    -- positive QPS or a positive burst, and the library makes of it, on that HTTP client, the discovery
    -- client and, with the group kombiner.x-k8s.io, the version v1alpha1, the path /apis, a serializer
    -- and all else unchanged, the client of the requests; and it makes it of those two.
    pub new_for_config-IsMade :
        (c : Config r) (cs : Clientset r)
        → (new_for_config r http_client_for rest_client_for discovery_client_for c ≡ inr cs)
          ↔ IsMade c cs
    unfolding new_for_config new_for_config_and_client V1alpha1.new_for_config_and_client
    new_for_config-IsMade c cs = (forward, backward)
      where
        forward :
            new_for_config r http_client_for rest_client_for discovery_client_for c ≡ inr cs
            → IsMade c cs
        forward e =
            let (h, http, e1) = and_then-inr (http_client_for (with_user_agent r c)) _ e in
            let (limited, rate, e2) = and_then-inr (rate_limited r (with_user_agent r c)) _ e1 in
            let (kombiner, rest, e3) =
              and_then-inr (rest_client_for (set_config_defaults r limited) h) _ e2 in
            let (discovery, found, e4) = and_then-inr (discovery_client_for limited h) _ e3 in
            let same : ◌≡◌ {A = Clientset r}
                (record { discovery_client = discovery; kombiner_v1alpha1 = kombiner }) cs =
              cc in
            (
              with_user_agent r c,
              h,
              limited,
              set_config_defaults r limited,
              with_user_agent-HasAgent c,
              http,
              (rate_limited_lem _ limited).0 rate,
              set_config_defaults-HasDefaults limited,
              rest ∙ ap (λ (x : Clientset r). inr x.kombiner_v1alpha1) same,
              found ∙ ap (λ (x : Clientset r). inr x.discovery_client) same,
            )

        backward :
            IsMade c cs
            → new_for_config r http_client_for rest_client_for discovery_client_for c ≡ inr cs
        backward (agent, h, limited, grouped, named, http, limits, defaults, rest, found) =
            let first = HasAgent-same c agent named in
            let second = HasDefaults-same limited grouped defaults in
            let http' : http_client_for (with_user_agent r c) ≡ inr h =
              ap http_client_for (sym first) ∙ http in
            let rate : rate_limited r (with_user_agent r c) ≡ inr limited =
              ap (rate_limited r) (sym first) ∙ (rate_limited_lem agent limited).1 limits in
            let rest' : rest_client_for (set_config_defaults r limited) h
                ≡ inr cs.kombiner_v1alpha1 =
              ap (λ d. rest_client_for d h) (sym second) ∙ rest in
            simp (http', rate, rest', found) refl

module _ (r : Rest) where
  set_config_defaults-idempotent :
      (c : Config r) → set_config_defaults r (set_config_defaults r c) ≡ set_config_defaults r c
  unfolding set_config_defaults with_user_agent
  set_config_defaults-idempotent c = ground arith

  -- The constructor of the group's client from a configuration is the one from a configuration and an
  -- HTTP client, on the HTTP client that the library makes of the configuration with the defaults.
  pub V1alpha1_new_for_config_lem :
      (http_client_for : Config r → Result (r.HttpClient))
      (rest_client_for : Config r → r.HttpClient → Result (r.RestClient)) (c : Config r)
      → V1alpha1.new_for_config r rest_client_for http_client_for c ≡ (
          http_client_for (set_config_defaults r c)
          and_then V1alpha1.new_for_config_and_client r rest_client_for c)
  unfolding V1alpha1.new_for_config V1alpha1.new_for_config_and_client
  V1alpha1_new_for_config_lem http_client_for rest_client_for c =
      ap (λ d. http_client_for (set_config_defaults r c) and_then λ h. rest_client_for d h)
        (set_config_defaults-idempotent c)

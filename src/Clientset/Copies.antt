-- ===== src/Clientset/Copies.antt =====
-- The copies of a configuration that the constructors make: with a user agent, and with the defaults of
-- the group.
use kombiner.Prelude.{
  String, ◌≢◌, eq_iff, subst, ◌==◌, ◌≡◌, ◌∙◌, refl, sym, true, ◌⊎◌, inl, inr, string_eq, arith,
  Bool-cases,
}
use kombiner.Clientset.Packages.{Rest, Config}
use kombiner.Clientset.V1alpha1.{with_user_agent, set_config_defaults}

empty_or_not : (s : String) → (s ≡ "") ⊎ (s ≢ "")
empty_or_not s = elim (Bool-cases (s == "")) [
  | inl e ↦ inl ((eq_iff s "").0 e)
  | inr e ↦ inr (λ h. let t = (eq_iff s "").1 h in cc)
]

-- The user agent of a copy: the one that was there, or the default one for the empty one.
abbrev pub IsAgentOf : String → String → String → Type 0
IsAgentOf default old new = ((old ≡ "") × (new ≡ default)) ⊎ ((old ≢ "") × (new ≡ old))

module _ {r : Rest} where
  -- What a copy shares with the configuration in every case.
  pub record SameLimits (c d : Config r) : Type 0 where
    pub rate_limiter : d.rate_limiter ≡ c.rate_limiter
    pub qps : d.qps ≡ c.qps
    pub burst : d.burst ≡ c.burst
    pub other : d.other ≡ c.other

  -- A copy with a user agent.
  pub record HasAgent (c d : Config r) : Type 0 where
    pub user_agent : IsAgentOf r.default_user_agent c.user_agent d.user_agent
    pub limits : SameLimits c d
    pub group : d.group ≡ c.group
    pub version : d.version ≡ c.version
    pub api_path : d.api_path ≡ c.api_path
    pub has_serializer : d.has_serializer ≡ c.has_serializer

  -- A copy with the defaults of the group.
  pub record HasDefaults (c d : Config r) : Type 0 where
    pub user_agent : IsAgentOf r.default_user_agent c.user_agent d.user_agent
    pub limits : SameLimits c d
    pub group : d.group ≡ "kombiner.x-k8s.io"
    pub version : d.version ≡ "v1alpha1"
    pub api_path : d.api_path ≡ "/apis"
    pub has_serializer : d.has_serializer ≡ true

  with_user_agent_empty :
      (c : Config r)
      → c.user_agent ≡ ""
      → with_user_agent r c ≡ record c { user_agent = r.default_user_agent }
  unfolding with_user_agent
  with_user_agent_empty c e = ground (arith, eq_iff c.user_agent "")

  with_user_agent_kept : (c : Config r) → c.user_agent ≢ "" → with_user_agent r c ≡ c
  unfolding with_user_agent
  with_user_agent_kept c e = ground (arith, eq_iff c.user_agent "")

  -- Two configurations with the same fields are the same.
  same_config :
      (c d : Config r)
      → SameLimits c d
      → d.user_agent ≡ c.user_agent
      → d.group ≡ c.group
      → d.version ≡ c.version
      → d.api_path ≡ c.api_path
      → d.has_serializer ≡ c.has_serializer
      → d ≡ c
  same_config c d l agent group version path serializer = λ i. record {
    user_agent = agent i;
    rate_limiter = l.rate_limiter i;
    qps = l.qps i;
    burst = l.burst i;
    group = group i;
    version = version i;
    api_path = path i;
    has_serializer = serializer i;
    other = l.other i;
  }

  limits_same : (c : Config r) → SameLimits c c
  limits_same c = record { rate_limiter = refl; qps = refl; burst = refl; other = refl }

  pub with_user_agent-HasAgent : (c : Config r) → HasAgent c (with_user_agent r c)
  with_user_agent-HasAgent c = elim (empty_or_not c.user_agent) [
    | inl empty ↦ subst (HasAgent c) (sym (with_user_agent_empty c empty)) (record {
      user_agent = inl (empty, refl);
      limits = record { rate_limiter = refl; qps = refl; burst = refl; other = refl };
      group = refl;
      version = refl;
      api_path = refl;
      has_serializer = refl;
    })
    | inr named ↦ subst (HasAgent c) (sym (with_user_agent_kept c named)) (record {
      user_agent = inr (named, refl);
      limits = limits_same c;
      group = refl;
      version = refl;
      api_path = refl;
      has_serializer = refl;
    })
  ]

  pub HasAgent-same : (c d : Config r) → HasAgent c d → d ≡ with_user_agent r c
  HasAgent-same c d h = elim (h.user_agent) [
    | inl (empty, agent) ↦
        same_config (record c { user_agent = r.default_user_agent }) d
          (record {
            rate_limiter = h.limits.rate_limiter;
            qps = h.limits.qps;
            burst = h.limits.burst;
            other = h.limits.other;
          })
          agent h.group h.version h.api_path h.has_serializer
        ∙ sym (with_user_agent_empty c empty)
    | inr (named, agent) ↦
        same_config c d h.limits agent h.group h.version h.api_path h.has_serializer
        ∙ sym (with_user_agent_kept c named)
  ]

  -- The configuration of the group, before its user agent.
  abbrev of_group : Config r → Config r
  of_group c = record c {
    group = "kombiner.x-k8s.io";
    version = "v1alpha1";
    api_path = "/apis";
    has_serializer = true;
  }

  pub set_config_defaults-HasDefaults : (c : Config r) → HasDefaults c (set_config_defaults r c)
  unfolding set_config_defaults
  set_config_defaults-HasDefaults c =
      let h = with_user_agent-HasAgent (of_group c) in
      record {
        user_agent = h.user_agent;
        limits = record {
          rate_limiter = h.limits.rate_limiter;
          qps = h.limits.qps;
          burst = h.limits.burst;
          other = h.limits.other;
        };
        group = h.group;
        version = h.version;
        api_path = h.api_path;
        has_serializer = h.has_serializer;
      }

  pub HasDefaults-same : (c d : Config r) → HasDefaults c d → d ≡ set_config_defaults r c
  unfolding set_config_defaults
  HasDefaults-same c d h = HasAgent-same (of_group c) d (record {
    user_agent = h.user_agent;
    limits = record {
      rate_limiter = h.limits.rate_limiter;
      qps = h.limits.qps;
      burst = h.limits.burst;
      other = h.limits.other;
    };
    group = h.group;
    version = h.version;
    api_path = h.api_path;
    has_serializer = h.has_serializer;
  })

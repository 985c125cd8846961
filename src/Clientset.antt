-- ===== src/Clientset.antt =====
-- pkg/generated/clientset/versioned/clientset.go. The functions of the client library that may fail are
-- parameters.
pub mod Packages
pub mod V1alpha1
pub mod Copies
pub mod Chains
mod Tests
use kombiner.Prelude.{
  Bool, true, false, Option, none, some, inl, inr, if◌then◌else◌, Outcome, value, panic,
}
use kombiner.Clientset.Packages.{is_positive, Result, ◌and_then◌, Rest, Config}
use kombiner.Clientset.V1alpha1
use kombiner.Clientset.V1alpha1.{with_user_agent}

pub record Clientset (r : Rest) : Type 0 where
  pub discovery_client : r.DiscoveryClient
  pub kombiner_v1alpha1 : r.RestClient

module _ (r : Rest) where
  -- The rate limit of the shallow copy.
  unfoldable pub rate_limited : Config r → Result (Config r)
  rate_limited c = elim c.rate_limiter [
    | some limiter ↦ inr c
    | none ↦
        if r.qps_positive c.qps
        then (if is_positive c.burst
            then inr (record c { rate_limiter = some (r.new_token_bucket c.qps c.burst) })
            else inl
                "burst is required to be greater than 0 when RateLimiter is not set and QPS is set to greater than 0")
        else inr c
  ]

  -- A nil client set has no client of the requests to hand out.
  unfoldable pub kombiner_client : Option (Clientset r) → Outcome (r.RestClient)
  kombiner_client none = panic
  kombiner_client (some cs) = value cs.kombiner_v1alpha1

  unfoldable pub discovery : Option (Clientset r) → Option (r.DiscoveryClient)
  discovery none = none
  discovery (some cs) = some cs.discovery_client

  -- The library's discovery client is a parameter.
  unfoldable pub new : (r.RestClient → r.DiscoveryClient) → r.RestClient → Clientset r
  new new_discovery_client c = record {
    discovery_client = new_discovery_client c;
    kombiner_v1alpha1 = c;
  }

  module _ (http_client_for : Config r → Result (r.HttpClient))
      (rest_client_for : Config r → r.HttpClient → Result (r.RestClient))
      (discovery_client_for : Config r → r.HttpClient → Result (r.DiscoveryClient)) where
    unfoldable pub new_for_config_and_client : Config r → r.HttpClient → Result (Clientset r)
    unfolding rate_limited V1alpha1.new_for_config_and_client
    new_for_config_and_client c h = rate_limited c and_then λ c'.
        V1alpha1.new_for_config_and_client r rest_client_for c' h and_then λ kombiner.
        discovery_client_for c' h and_then λ discovery.
        inr (record { discovery_client = discovery; kombiner_v1alpha1 = kombiner })

    unfoldable pub new_for_config : Config r → Result (Clientset r)
    unfolding new_for_config_and_client with_user_agent
    new_for_config c =
        http_client_for (with_user_agent r c)
        and_then new_for_config_and_client (with_user_agent r c)

    unfoldable pub new_for_config_or_die : Config r → Outcome (Clientset r)
    unfolding new_for_config
    new_for_config_or_die c = elim (new_for_config c) [ inl err ↦ panic | inr cs ↦ value cs ]

-- ===== src/Clientset/Tests.antt =====
-- A client of the requests, and the theorem at one that the burst refuses.
use kombiner.Prelude.{
  ℕ, ◌≡◌, ◌↔◌, refl, String, Bool, true, false, none, inl, inr, ◌==◌, nat_eq, if◌then◌else◌,
}
use kombiner.Clientset.Packages.{ℤ, pos, negsuc, Result, Rest, Config}
use kombiner.Clientset.V1alpha1
use kombiner.Clientset.V1alpha1.{with_user_agent, set_config_defaults}
use kombiner.Clientset.{Clientset, rate_limited, new_for_config, new_for_config_and_client}
use kombiner.Clientset.Chains.{IsMade, new_for_config-IsMade}

-- A REST client is the path of its API, a discovery client is the user agent.
abbrev rest : Rest
rest = record {
  Limiter = ℕ;
  Qps = ℕ;
  HttpClient = String;
  RestClient = String;
  DiscoveryClient = String;
  Other = Bool;
  qps_positive = λ qps. if qps == 0 then false else true;
  default_user_agent = "client-go";
  new_token_bucket = λ qps burst. qps;
}

abbrev config : ℤ → Config rest
config burst = record {
  user_agent = "";
  rate_limiter = none;
  qps = 20;
  burst = burst;
  group = "";
  version = "";
  api_path = "";
  has_serializer = false;
  other = true;
}

abbrev http : Config rest → Result String
http c = inr c.user_agent

abbrev rest_client : Config rest → String → Result String
rest_client c h = inr c.api_path

abbrev discovery : Config rest → String → Result String
discovery c h = inr c.user_agent

abbrev client : Clientset rest
client = record { discovery_client = "client-go"; kombiner_v1alpha1 = "/apis" }

made : new_for_config rest http rest_client discovery (config (pos 30)) ≡ inr client
unfolding new_for_config new_for_config_and_client rate_limited V1alpha1.new_for_config_and_client
    set_config_defaults with_user_agent
made = refl

refused_burst :
    new_for_config rest http rest_client discovery (config (negsuc 0))
    ≡ inl
        "burst is required to be greater than 0 when RateLimiter is not set and QPS is set to greater than 0"
unfolding new_for_config new_for_config_and_client rate_limited V1alpha1.new_for_config_and_client
    set_config_defaults with_user_agent
refused_burst = refl

new_for_config-IsMade_example :
    (new_for_config rest http rest_client discovery (config (pos 30)) ≡ inr client)
    ↔ IsMade http rest_client discovery (config (pos 30)) client
new_for_config-IsMade_example =
    new_for_config-IsMade http rest_client discovery (config (pos 30)) client

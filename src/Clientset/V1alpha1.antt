-- ===== src/Clientset/V1alpha1.antt =====
-- pkg/generated/clientset/versioned/typed/kombiner/v1alpha1/kombiner_client.go.
use kombiner.Prelude.{
  Option, none, some, inl, inr, Outcome, value, panic, true, ◌==◌, string_eq, if◌then◌else◌,
}
use kombiner.Clientset.Packages.{Result, ◌and_then◌, Rest, Config}

module _ (r : Rest) where
  unfoldable pub with_user_agent : Config r → Config r
  with_user_agent c =
      if c.user_agent == "" then record c { user_agent = r.default_user_agent } else c

  -- The serializer is that of the generated scheme.
  unfoldable pub set_config_defaults : Config r → Config r
  unfolding with_user_agent
  set_config_defaults c = with_user_agent (record c {
    group = "kombiner.x-k8s.io";
    version = "v1alpha1";
    api_path = "/apis";
    has_serializer = true;
  })

  module _ (rest_client_for : Config r → r.HttpClient → Result (r.RestClient)) where
    unfoldable pub new_for_config_and_client : Config r → r.HttpClient → Result (r.RestClient)
    unfolding set_config_defaults
    new_for_config_and_client c h = rest_client_for (set_config_defaults c) h

    unfoldable pub new_for_config :
        (Config r → Result (r.HttpClient)) → Config r → Result (r.RestClient)
    unfolding set_config_defaults new_for_config_and_client
    new_for_config http_client_for c =
        http_client_for (set_config_defaults c)
        and_then new_for_config_and_client (set_config_defaults c)

    unfoldable pub new_for_config_or_die :
        (Config r → Result (r.HttpClient)) → Config r → Outcome (r.RestClient)
    unfolding new_for_config
    new_for_config_or_die http_client_for c = elim (new_for_config http_client_for c) [
      | inl err ↦ panic
      | inr client ↦ value client
    ]

  -- Of a nil client the REST client is nil.
  unfoldable pub rest_client : Option (r.RestClient) → Option (r.RestClient)
  rest_client none = none
  rest_client (some c) = some c

-- ===== src/Controller/New/Tests.antt =====
-- New on a small configuration, and the theorems on configurations at concrete inputs.
use kombiner.Prelude.{ℕ, ◌≡◌, ◌↔◌, refl, String, [], ◌∷◌, none, some, Yields}
use kombiner.Api.Config.{Configuration, Plugins, Queue}
use kombiner.Queue.Store.{Store}
use kombiner.Queue.Config.{
  QueueConfig, QueueConfigs, validate_config, lookup, validate_loop, validate,
}
use kombiner.Controller.New.{new}
use kombiner.Controller.New.Accepts.{IsCreated}
use kombiner.Controller.New.Creates.{IsAcceptable, IsConfigured, new-Creates}

abbrev quote : String → String
quote name = name

abbrev no_plugins : Plugins
no_plugins = record { validate = record { enabled = []; disabled = [] } }

abbrev queue : String → Queue
queue name = record { scheduler_name = name; weight = 3; max_size = 9; plugins = no_plugins }

abbrev config : String → ℕ → QueueConfig
config name ref = record { queue = queue name; queue_ref = some ref }

abbrev configs : QueueConfigs
configs = config "a" 0 ∷ config "b" 1 ∷ []

abbrev configuration : Configuration
configuration = record {
  queues = queue "a" ∷ queue "b" ∷ [];
  fairness_algorithm = "";
  plugins = no_plugins;
}

abbrev no_queues : Store ℕ
no_queues = record { queues = []; signals = 0 }

duplicate :
    validate quote (config "a" 0 ∷ config "a" 1 ∷ []) ≡ some "duplicate config for scheduler a"
unfolding validate validate_loop lookup validate_config
duplicate = refl

accepted : validate quote configs ≡ none
unfolding validate validate_loop lookup validate_config
accepted = refl

new-Creates_example :
    Yields
      (λ r. (IsCreated r.0 ↔ IsAcceptable configuration none) × IsConfigured 0 configuration r.0)
      (new quote none no_queues configuration)
new-Creates_example = new-Creates quote none no_queues configuration

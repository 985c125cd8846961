-- ===== src/Api/Config.antt =====
-- pkg/apis/config/v1alpha1/types.go: the controller's configuration.
use kombiner.Prelude.{ℕ, String, List}

abbrev pub FairnessAlgorithm : Type 0
FairnessAlgorithm = String

abbrev pub round_robin : FairnessAlgorithm
round_robin = "RoundRobin"

abbrev pub uniform : FairnessAlgorithm
uniform = "Uniform"

pub record PluginSet : Type 0 where
  pub enabled : List String
  pub disabled : List String

pub record Plugins : Type 0 where
  pub validate : PluginSet

-- `weight` and `max_size` are Go uints: 64 bits.
pub record Queue : Type 0 where
  pub scheduler_name : String
  pub weight : ℕ
  pub max_size : ℕ
  pub plugins : Plugins

pub record Configuration : Type 0 where
  pub queues : List Queue
  pub fairness_algorithm : FairnessAlgorithm
  pub plugins : Plugins

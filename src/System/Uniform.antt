-- ===== src/System/Uniform.antt =====
-- The iterator with uniform readers.
use kombiner.Prelude.{◌<◌, ◌^◌, refl, All}
use kombiner.Queue.Config.{QueueConfigs}
use kombiner.Queue.Uniform.{new_uniform_reader}
use kombiner.Queue.Uniform.Draws.{weight_sum}
use kombiner.Queue.Uniform.Rounds.{uniform}
use kombiner.Queue.Uniform.Checks.{HasWeight, Reads, round-Checks}
use kombiner.System.Invariant.{Laws}

-- The uniform readers keep what the iterator relies on.
unfoldable pub uniform_laws :
    (configs : QueueConfigs)
    → All HasWeight configs
    → weight_sum configs < 2 ^ 63
    → Laws uniform configs
unfolding new_uniform_reader
uniform_laws configs weights small = record {
  Good = Reads configs;
  makes = (new_uniform_reader configs, refl, refl);
  checks = λ r reads. round-Checks configs r reads weights small;
}

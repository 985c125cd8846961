-- ===== src/Queue/RoundRobin/Proportion.antt =====
-- The shares that NewRoundRobinReader grants are in proportion to the weights, for all the rounding.
use kombiner.Prelude.{ℕ, ◌+◌, ◌-◌, ◌*◌, ◌/◌, ◌^◌, ◌≤◌, ◌<◌, ◌≡◌, map, All}
use kombiner.Queue.Config.{QueueConfig, QueueConfigs}
use kombiner.Queue.Float
use kombiner.Queue.RoundRobin.{ExtendedQueueConfig, RoundRobinReader, minimum_bindings}
use kombiner.Queue.RoundRobin.Shares.{Lightest}

-- How many times the lightest weight goes into a weight, and how many times it takes to reach it.
abbrev pub times : ℕ → ℕ → ℕ
times weight least = weight / least

abbrev pub times_up : ℕ → ℕ → ℕ
times_up weight least = (weight + (least - 1)) / least

-- The share is as many times the minimum, up to the rounding of that number to a whole one; at a multiple
-- of the lightest weight the two bounds meet.
abbrev pub IsInProportion : ℕ → ExtendedQueueConfig → Type 0
IsInProportion least cfg =
    (minimum_bindings * times cfg.config.queue.weight least ≤ cfg.maximum_bindings)
    × (cfg.maximum_bindings ≤ minimum_bindings * times_up cfg.config.queue.weight least)

-- A weight that is over 0 and whose share a float64 holds.
abbrev pub IsModest : QueueConfig → Type 0
IsModest c = (0 < c.queue.weight) × (c.queue.weight < 2 ^ 49)

-- A reader over the configs, in which every share is in proportion to the weight.
pub record Proportional (cfgs : QueueConfigs) (r : RoundRobinReader) : Type 0 where
  pub same : map (λ (cfg : ExtendedQueueConfig). cfg.config) r.configs ≡ cfgs
  pub lightest : QueueConfig
  pub least : Lightest cfgs lightest
  pub shares : All (IsInProportion lightest.queue.weight) r.configs
  pub unread : All (λ (cfg : ExtendedQueueConfig). cfg.bindings_read ≡ 0) r.configs

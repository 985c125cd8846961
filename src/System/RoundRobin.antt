-- ===== src/System/RoundRobin.antt =====
-- The iterator with round-robin readers.
use kombiner.Prelude.{◌≡◌, ◌∙◌, refl, ap, List, [], ◌∷◌, map, All, Yields-inv, ◌<◌, arith}
use kombiner.Queue.Config.{QueueConfig, QueueConfigs}
use kombiner.Queue.RoundRobin.{ExtendedQueueConfig}
use kombiner.Queue.RoundRobin.Rounds.{round_robin}
use kombiner.Queue.RoundRobin.Checks.{ref_of, IsOver, round-Checks}
use kombiner.Queue.RoundRobin.Minimum.{IsFloat, HasMinimum, new_round_robin_reader-Granted}
use kombiner.System.Invariant.{refs_of, Laws}

pub map-config :
    (cfgs : List ExtendedQueueConfig)
    → map ref_of cfgs ≡ refs_of (map (λ (cfg : ExtendedQueueConfig). cfg.config) cfgs)
map-config [] = refl
map-config (cfg ∷ cfgs) = λ i. ref_of cfg ∷ map-config cfgs i

pub has_share :
    (cfgs : List ExtendedQueueConfig)
    → All HasMinimum cfgs
    → All (λ (cfg : ExtendedQueueConfig). 0 < cfg.maximum_bindings) cfgs
has_share [] h = tt
has_share (cfg ∷ cfgs) h = (omega (arith, h.0), has_share cfgs h.1)

-- The round-robin readers keep what the iterator relies on.
unfoldable pub round_robin_laws :
    (cfg : QueueConfig) (cfgs : QueueConfigs)
    → All IsFloat (cfg ∷ cfgs)
    → Laws round_robin (cfg ∷ cfgs)
round_robin_laws cfg cfgs floats = record {
  Good = IsOver (refs_of (cfg ∷ cfgs));
  makes =
      let (r, made, granted) = Yields-inv (new_round_robin_reader-Granted cfg cfgs floats) in
      (
        r,
        made,
        record {
          same = map-config r.configs ∙ ap refs_of granted.same;
          shares = has_share r.configs granted.minimum;
        },
      );
  checks = round-Checks (refs_of (cfg ∷ cfgs));
}

-- ===== src/Queue/RoundRobin.antt =====
-- pkg/queue/round-robin.go: the round-robin reader. Its recursion takes fuel; two rounds over the
-- queues and one call are enough.
pub mod Choice
pub mod Picks
pub mod Reads
pub mod Serves
pub mod Shares
pub mod Rounds
pub mod Checks
pub mod Agrees
pub mod Minimum
pub mod Proportion
use kombiner.Prelude.{
  ℕ, zero, suc, ◌+◌, ◌-◌, ◌*◌, ◌%◌, ◌^◌, List, [], ◌∷◌, map, Bool, true, false, Option, none, some,
  ltb, leb, ◌==◌, nat_eq, if◌then◌else◌, length, get_elem?, set, Outcome, value, panic, exhausted,
  ◌>>=◌, or_panic,
}
use mathlib.Core.Option
use kombiner.Api.Placement.{PlacementRequest}
use kombiner.Queue.Store.{Store, queue_len, queue_pop}
use kombiner.Queue.Config.{QueueConfig, QueueConfigs}
use kombiner.Queue.Float

abbrev pub minimum_bindings : ℕ
minimum_bindings = 10

pub record ExtendedQueueConfig : Type 0 where
  pub config : QueueConfig
  pub maximum_bindings : ℕ
  pub bindings_read : ℕ

pub record RoundRobinReader : Type 0 where
  pub configs : List ExtendedQueueConfig

abbrev pub has_room : ExtendedQueueConfig → Bool
has_room cfg = ltb cfg.bindings_read cfg.maximum_bindings

-- `none` for -1.
unfoldable pub next : List ExtendedQueueConfig → Option ℕ
next [] = none
next (cfg ∷ cfgs) = if has_room cfg then some 0 else Option.map suc (next cfgs)

unfoldable pub reset : List ExtendedQueueConfig → List ExtendedQueueConfig
reset [] = []
reset (cfg ∷ cfgs) = record cfg { bindings_read = 0 } ∷ reset cfgs

-- The queue to read from: the next one with room, after a reset if there is none.
unfoldable pub pick : RoundRobinReader → Outcome (ℕ × RoundRobinReader)
pick r = elim (next r.configs) [
  | some i ↦ value (i, r)
  | none ↦ elim (next (reset r.configs)) [
    | some i ↦ value (i, record { configs = reset r.configs })
    | none ↦ panic
  ]
]

module _ {S : Type 0} where
  unfoldable pub empty : Store S → List ExtendedQueueConfig → Outcome Bool
  empty st [] = value true
  empty st (cfg ∷ cfgs) = do
    n ← queue_len st cfg.config.queue_ref
    let rest = empty st cfgs
    if ltb 0 n then value false else rest

  unfoldable pub read_loop :
      ℕ
      → RoundRobinReader
      → Store S
      → Outcome (Option PlacementRequest × RoundRobinReader × Store S)
  read_loop zero r st = exhausted
  read_loop (suc fuel) r st = do
    nothing ← empty st r.configs
    let serve : Outcome (Option PlacementRequest × RoundRobinReader × Store S) = do
      (i, r1) ← pick r
      cfg ← or_panic (get_elem? r1.configs i)
      (found, st1) ← queue_pop st cfg.config.queue_ref
      elim found [
        | some pr ↦
            let count = cfg.bindings_read + length pr.spec.bindings in
            let served = record cfg { bindings_read = count } in
            value (some pr, record { configs = set r1.configs i served }, st1)
        | none ↦
            let spent = record cfg { bindings_read = cfg.maximum_bindings } in
            read_loop fuel (record { configs = set r1.configs i spent }) st1
      ]
    if nothing then value (none, r, st) else serve

  unfoldable pub read :
      RoundRobinReader → Store S → Outcome (Option PlacementRequest × RoundRobinReader × Store S)
  unfolding read_loop pick
  read r st = read_loop (2 * length r.configs + 1) r st

-- `int(a.Weight) - int(b.Weight) < 0`: the difference wraps around 64 bits, negative from 2 ^ 63.
unfoldable pub is_lighter : QueueConfig → QueueConfig → Bool
is_lighter a b = leb (2 ^ 63) ((a.queue.weight + 2 ^ 64 - b.queue.weight) % 2 ^ 64)

-- slices.MinFunc: the first of the least; it panics on an empty slice.
unfoldable pub lightest_from : QueueConfig → QueueConfigs → QueueConfig
unfolding is_lighter
lightest_from m [] = m
lightest_from m (cfg ∷ cfgs) = lightest_from (if is_lighter cfg m then cfg else m) cfgs

unfoldable pub lightest : QueueConfigs → Outcome QueueConfig
unfolding lightest_from
lightest [] = panic
lightest (cfg ∷ cfgs) = value (lightest_from cfg cfgs)

-- The share of a queue: its weight over the lightest one's, times the minimum, rounded up.
unfoldable pub max_bindings : ℕ → ℕ → ℕ
unfolding Float.div Float.mul Float.from_uint Float.ceil
max_bindings weight least =
    let multiplier = Float.div (Float.from_uint weight) (Float.from_uint least) in
    Float.ceil (Float.mul multiplier (Float.from_uint minimum_bindings))

unfoldable pub extend : ℕ → QueueConfig → ExtendedQueueConfig
unfolding max_bindings
extend least cfg = record {
  config = cfg;
  maximum_bindings = max_bindings cfg.queue.weight least;
  bindings_read = 0;
}

unfoldable pub new_round_robin_reader : QueueConfigs → Outcome RoundRobinReader
unfolding lightest extend
new_round_robin_reader cfgs = do
  lighter ← lightest cfgs
  let least = lighter.queue.weight
  if least == 0 then panic else value (record { configs = map (extend least) cfgs })

-- ===== src/Queue/Uniform.antt =====
-- pkg/queue/uniform.go: the uniform reader. The random numbers are a parameter. An int is given by its
-- 64 bits, and sums of weights wrap around.
pub mod Draws
pub mod Serves
pub mod Rounds
pub mod Checks
pub mod Agrees
use kombiner.Prelude.{
  ℕ, zero, suc, ◌+◌, ◌%◌, ◌^◌, List, [], ◌∷◌, Bool, ◌&&◌, Option, none, some, ltb, leb,
  if◌then◌else◌, length, get_elem?, Outcome, value, panic, ◌>>=◌, or_panic,
}
use mathlib.Core.Option
use kombiner.Api.Placement.{PlacementRequest}
use kombiner.Queue.Prioritized.{rank}
use kombiner.Queue.Store.{Store, queue_pop}
use kombiner.Queue.Config.{QueueConfig, QueueConfigs}

pub record UniformReader : Type 0 where
  pub configs : QueueConfigs

-- rand.Intn, for a bound over 0, with the state of the generator.
pub record Rand (R : Type 0) : Type 0 where
  pub intn : ℕ → R → ℕ × R

-- slices.Delete of one entry; every call has an index within the list.
unfoldable pub delete {ℓ} : {A : Type ℓ} → ℕ → List A → List A
delete i [] = []
delete zero (x ∷ xs) = xs
delete (suc i) (x ∷ xs) = x ∷ delete i xs

-- The first loop of next.
unfoldable pub total_from : ℕ → QueueConfigs → ℕ
total_from total [] = total
total_from total (cfg ∷ cfgs) = total_from ((total + cfg.queue.weight) % 2 ^ 64) cfgs

-- The second loop, from a sum on.
unfoldable pub slot_from : ℕ → ℕ → QueueConfigs → Option ℕ
slot_from selected sum [] = none
slot_from selected sum (cfg ∷ cfgs) =
    let sum' = (sum + cfg.queue.weight) % 2 ^ 64 in
    let rest = Option.map suc (slot_from selected sum' cfgs) in
    if leb (rank selected) (rank sum') then some 0 else rest

-- An int over 0.
abbrev pub is_positive : ℕ → Bool
is_positive n = ltb 0 n && ltb n (2 ^ 63)

module _ {R : Type 0} (rand : Rand R) where
  -- What one random number selects.
  unfoldable pub select : QueueConfigs → ℕ × R → Outcome (ℕ × R)
  unfolding slot_from
  select cfgs (k, g) = do i ← or_panic (slot_from ((k + 1) % 2 ^ 64) 0 cfgs); value (i, g)

  -- rand.Intn panics unless its bound is over 0.
  unfoldable pub next : QueueConfigs → R → Outcome (ℕ × R)
  unfolding total_from select
  next cfgs g =
      let total = total_from 0 cfgs in
      if is_positive total then select cfgs (rand.intn total g) else panic

  module _ {S : Type 0} where
    -- The loop of Read, with the rounds that are left.
    unfoldable pub read_loop :
        ℕ → QueueConfigs → Store S → R → Outcome (Option PlacementRequest × Store S × R)
    unfolding next delete
    read_loop zero cfgs st g = value (none, st, g)
    read_loop (suc n) cfgs st g = do
      (qidx, g1) ← next cfgs g
      cfg ← or_panic (get_elem? cfgs qidx)
      (found, st1) ← queue_pop st cfg.queue_ref
      elim found [
        | some pr ↦ value (some pr, st1, g1)
        | none ↦ read_loop n (delete qidx cfgs) st1 g1
      ]

    unfoldable pub read :
        UniformReader → Store S → R → Outcome (Option PlacementRequest × Store S × R)
    unfolding read_loop
    read u st g = read_loop (length u.configs) u.configs st g

unfoldable pub new_uniform_reader : QueueConfigs → UniformReader
new_uniform_reader cfgs = record { configs = cfgs }

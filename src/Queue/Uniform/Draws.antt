-- ===== src/Queue/Uniform/Draws.antt =====
-- Which queue a random number selects.
use kombiner.Prelude.{
  ℕ, suc, ◌+◌, ◌≤◌, ◌<◌, ◌^◌, ◌%◌, ◌≡◌, ◌∙◌, refl, ap, [], ◌∷◌, true, false, some, arith, leb, ltb,
  get_elem?, take, Bool-cases, inl, inr, Yields, yields,
}
use mathlib.Core.Option
use kombiner.Queue.Prioritized.{rank}
use kombiner.Queue.Config.{QueueConfig, QueueConfigs}
use kombiner.Queue.Uniform.{Rand, total_from, slot_from, select, next}

abbrev pub weight_sum : QueueConfigs → ℕ
weight_sum [] = 0
weight_sum (cfg ∷ cfgs) = cfg.queue.weight + weight_sum cfgs

-- What the standard library says of rand.Intn: its numbers are under the bound.
abbrev pub IsBounded : {R : Type 0} → Rand R → Type 0
IsBounded {R} rand = (n : ℕ) (g : R) → 0 < n → n < 2 ^ 63 → (rand.intn n g).0 < n

no_wrap : (a w b : ℕ) → a + (w + b) < 2 ^ 63 → (a + w) % 2 ^ 64 ≡ a + w
no_wrap a w b h = omega arith

pub total_from_lem :
    (total : ℕ) (cfgs : QueueConfigs)
    → total + weight_sum cfgs < 2 ^ 63
    → total_from total cfgs ≡ total + weight_sum cfgs
unfolding total_from
total_from_lem total [] h = omega arith
total_from_lem total (cfg ∷ cfgs) h =
    let w = cfg.queue.weight in
    let e = no_wrap total w (weight_sum cfgs) h in
    rw e (total_from_lem (total + w) cfgs (omega arith) ∙ omega arith)

leb-rank : (a b : ℕ) → a < 2 ^ 63 → b < 2 ^ 63 → leb (rank a) (rank b) ≡ leb a b
leb-rank a b ha hb =
    let ea : rank a ≡ a + 2 ^ 63 = omega arith in
    let eb : rank b ≡ b + 2 ^ 63 = omega arith in ground (arith, ea, eb)

-- The weights before the queue at `j` make up the numbers below those that select it.
pub record Selects (cfgs : QueueConfigs) (sum k j : ℕ) : Type 0 where
  pub entry : QueueConfig
  pub found : get_elem? cfgs j ≡ some entry
  pub lower : sum + weight_sum (take j cfgs) ≤ k
  pub upper : k < sum + weight_sum (take j cfgs) + entry.queue.weight

slot_here :
    (k sum : ℕ) (cfg : QueueConfig) (cfgs : QueueConfigs)
    → k < sum + cfg.queue.weight
    → sum + (cfg.queue.weight + weight_sum cfgs) < 2 ^ 63
    → slot_from (suc k) sum (cfg ∷ cfgs) ≡ some 0
unfolding slot_from
slot_here k sum cfg cfgs here small =
    let w = cfg.queue.weight in
    let test : leb (suc k) (sum + w) ≡ true = ground arith in
    rw (no_wrap sum w (weight_sum cfgs) small)
      (rw (leb-rank (suc k) (sum + w) (omega arith) (omega arith)) (rw test refl))

slot_later :
    (k sum j : ℕ) (cfg : QueueConfig) (cfgs : QueueConfigs)
    → sum + cfg.queue.weight ≤ k
    → k < sum + (cfg.queue.weight + weight_sum cfgs)
    → sum + (cfg.queue.weight + weight_sum cfgs) < 2 ^ 63
    → slot_from (suc k) (sum + cfg.queue.weight) cfgs ≡ some j
    → slot_from (suc k) sum (cfg ∷ cfgs) ≡ some (suc j)
unfolding slot_from
slot_later k sum j cfg cfgs past high small at =
    let w = cfg.queue.weight in
    let test : leb (suc k) (sum + w) ≡ false = ground arith in
    rw (no_wrap sum w (weight_sum cfgs) small) (
      rw (leb-rank (suc k) (sum + w) (omega arith) (omega arith))
        (rw test (ap (Option.map suc) at)))

pub slot_from_lem :
    (k sum : ℕ) (cfgs : QueueConfigs)
    → sum ≤ k
    → k < sum + weight_sum cfgs
    → sum + weight_sum cfgs < 2 ^ 63
    → (j : ℕ) × (slot_from (suc k) sum cfgs ≡ some j) × Selects cfgs sum k j
slot_from_lem k sum [] low high small = absurd (omega arith)
slot_from_lem k sum (cfg ∷ cfgs) low high small =
    elim (Bool-cases (ltb k (sum + cfg.queue.weight))) [
      | inl here ↦ (
        0,
        slot_here k sum cfg cfgs (ground arith) small,
        record { entry = cfg; found = refl; lower = omega arith; upper = ground arith },
      )
      | inr later ↦
          let past : sum + cfg.queue.weight ≤ k = ground arith in
          let (j, at, s) =
            slot_from_lem k (sum + cfg.queue.weight) cfgs past (omega arith) (omega arith) in
          (
            suc j,
            slot_later k sum j cfg cfgs past high small at,
            record {
              entry = s.entry;
              found = s.found;
              lower = omega (arith, s.lower);
              upper = omega (arith, s.upper);
            },
          )
    ]

module _ {R : Type 0} (rand : Rand R) where
  -- If the weights sum up to an int over 0 and the random numbers are under their bound, the choice of
  -- the next queue returns: it is the queue in whose range the number lies. The ranges follow each
  -- other in the order of the queues, and each is as long as its queue's weight.
  pub next-Selects :
      (cfgs : QueueConfigs) (g : R)
      → IsBounded rand
      → 0 < weight_sum cfgs
      → weight_sum cfgs < 2 ^ 63
      → Yields
          (λ r.
            Selects cfgs 0 (rand.intn (weight_sum cfgs) g).0 r.0
            × (r.1 ≡ (rand.intn (weight_sum cfgs) g).1))
          (next rand cfgs g)
  unfolding next select
  next-Selects cfgs g bounded pos small =
      let total : total_from 0 cfgs ≡ weight_sum cfgs =
        total_from_lem 0 cfgs (omega arith) ∙ omega arith in
      let k = (rand.intn (weight_sum cfgs) g).0 in
      let under : k < weight_sum cfgs = bounded (weight_sum cfgs) g pos small in
      let (j, at, s) = slot_from_lem k 0 cfgs (omega arith) (omega arith) (omega arith) in
      let positive : ltb 0 (weight_sum cfgs) ≡ true = ground arith in
      let int : ltb (weight_sum cfgs) (2 ^ 63) ≡ true = ground arith in
      let exact : (k + 1) % 2 ^ 64 ≡ suc k = omega arith in
      rw total (rw (positive, int) (rw exact (rw at (yields (s, refl)))))

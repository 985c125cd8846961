-- ===== src/Queue/Heap.antt =====
-- Go's container/heap, as the queue uses it: Init, Push, Pop and their loops `up` and `down`.
-- `down` works on the first `n` entries only, and its result (whether the entry moved), which
-- neither Init nor Pop reads, is left out. A loop has one round of fuel for each level and more:
-- `up` never makes more rounds than its index, `down` no more than there are entries.
pub mod Order
pub mod Up
pub mod Down
pub mod Contents
use kombiner.Prelude.{
  ℕ, zero, suc, ◌+◌, ◌-◌, ◌*◌, ◌/◌, Bool, true, false, ltb, ◌==◌, nat_eq, if◌then◌else◌, Outcome,
  value, exhausted, ◌>>=◌,
}
use kombiner.Queue.Prioritized.{Prioritized, PriorityQueue, len, less, swap}
use kombiner.Queue.Prioritized

abbrev pub parent : ℕ → ℕ
parent j = (j - 1) / 2

module _ {A : Type 0} ⦃p : Prioritized A⦄ where
  -- At the root the parent is the entry itself: Go's -1 / 2 is 0.
  unfoldable pub up_loop : ℕ → PriorityQueue A → ℕ → Outcome (PriorityQueue A)
  up_loop zero q j = exhausted
  up_loop (suc fuel) q j =
      let rise = swap q (parent j) j >>= λ q'. up_loop fuel q' (parent j) in
      let step = less q j (parent j) >>= λ below. if below then rise else value q in
      if parent j == j then value q else step

  unfoldable pub up : PriorityQueue A → ℕ → Outcome (PriorityQueue A)
  unfolding up_loop
  up q j = up_loop (j + 1) q j

  -- The child of `i` to compare with: the right one if it exists and is less.
  unfoldable pub pick_child : PriorityQueue A → ℕ → ℕ → Outcome ℕ
  pick_child q i n =
      let left = 2 * i + 1 in
      let right = left + 1 in
      if ltb right n
      then (less q right left >>= λ below. value (if below then right else left))
      else value left

  unfoldable pub down_loop : ℕ → PriorityQueue A → ℕ → ℕ → Outcome (PriorityQueue A)
  down_loop zero q i n = exhausted
  down_loop (suc fuel) q i n =
      let step : Outcome (PriorityQueue A) = do
        j ← pick_child q i n
        below ← less q j i
        let sink = swap q i j >>= λ q'. down_loop fuel q' j n
        if below then sink else value q
      in if ltb (2 * i + 1) n then step else value q

  unfoldable pub down : PriorityQueue A → ℕ → ℕ → Outcome (PriorityQueue A)
  unfolding down_loop pick_child
  down q i n = down_loop (n + 1) q i n

  -- The loop of Init counts down from the last parent.
  unfoldable pub init_loop : ℕ → PriorityQueue A → ℕ → Outcome (PriorityQueue A)
  init_loop zero q n = value q
  init_loop (suc i) q n = down q i n >>= λ q'. init_loop i q' n

  unfoldable pub init : PriorityQueue A → Outcome (PriorityQueue A)
  unfolding init_loop
  init q = init_loop (len q / 2) q (len q)

  unfoldable pub push : PriorityQueue A → A → Outcome (PriorityQueue A)
  push q x = let q' = Prioritized.push q x in up q' (len q' - 1)

  unfoldable pub pop : PriorityQueue A → Outcome (A × PriorityQueue A)
  pop q = do let n = len q - 1; q' ← swap q 0 n; q'' ← down q' 0 n; Prioritized.pop q''

-- ===== src/Queue/Prioritized.antt =====
-- pkg/queue/prioritized.go: the priority queue, a slice with the methods of heap.Interface.
-- An int64 is given by its 64 bits. Items of another type, which make Push panic, are ruled out by
-- the types; indices stay far below the range of `int`, so they do not overflow.
use kombiner.Prelude.{
  ℕ, zero, suc, ◌+◌, ◌%◌, ◌^◌, List, [], ◌∷◌, ◌++◌, Bool, ltb, length, get_elem?, set, take,
  Outcome, value, panic, ◌>>=◌, or_panic,
}

-- The interface Prioritized: `priority` is an int64.
pub record Prioritized (A : Type 0) : Type 0 where
  pub priority : A → ℕ

-- The order of the int64 values, by their bits.
abbrev pub rank : ℕ → ℕ
rank w = (w + 2 ^ 63) % 2 ^ 64

pub record PriorityQueue (A : Type 0) : Type 0 where
  pub items : List A

module _ {A : Type 0} where
  unfoldable pub len : PriorityQueue A → ℕ
  len q = length q.items

  -- The parallel assignment reads both entries before it writes.
  unfoldable pub swap : PriorityQueue A → ℕ → ℕ → Outcome (PriorityQueue A)
  swap q i j = do
    y ← or_panic (get_elem? q.items j)
    x ← or_panic (get_elem? q.items i)
    value (record { items = set (set q.items i y) j x })

  unfoldable pub push : PriorityQueue A → A → PriorityQueue A
  push q x = record { items = q.items ++ x ∷ [] }

  -- On an empty slice the index is -1, a panic.
  pop_at : ℕ → PriorityQueue A → Outcome (A × PriorityQueue A)
  pop_at zero q = panic
  pop_at (suc n) q = do
    x ← or_panic (get_elem? q.items n)
    value (x, record { items = take n q.items })

  unfoldable pub pop : PriorityQueue A → Outcome (A × PriorityQueue A)
  unfolding pop_at
  pop q = pop_at (length q.items) q

module _ {A : Type 0} ⦃p : Prioritized A⦄ where
  unfoldable pub less : PriorityQueue A → ℕ → ℕ → Outcome Bool
  less q i j = do
    x ← or_panic (get_elem? q.items i)
    y ← or_panic (get_elem? q.items j)
    value (ltb (rank (p.priority x)) (rank (p.priority y)))

-- ===== src/Queue/Heap/Order.antt =====
-- The heap order on the ranks of the priorities, and what a swap does to the entries.
use mathlib.Core.List.Perm
use kombiner.Prelude.{
  ℕ, zero, suc, ◌≤◌, ◌<◌, ◌≡◌, List, Option, none, some, Perm, arith, ltb, ◌==◌, nat_eq,
  if◌then◌else◌, length, get_elem?, set, value, Outcome, Yields, yields, Yields-map, get_elem?_lt,
  get_elem?-set, set-perm, length-set,
}
use kombiner.Queue.Prioritized.{Prioritized, PriorityQueue, rank, less, swap}
use kombiner.Queue.Heap.{parent}

module _ {A : Type 0} ⦃p : Prioritized A⦄ where
  abbrev pub rank_of : Option A → ℕ
  rank_of none = 0
  rank_of (some x) = rank (p.priority x)

  -- The rank of the entry at an index.
  abbrev pub key : List A → ℕ → ℕ
  key xs i = rank_of (get_elem? xs i)

  -- Among the first `n` entries no child comes before its parent.
  abbrev pub IsHeap : ℕ → List A → Type 0
  IsHeap n xs = (c : ℕ) → 0 < c → c < n → key xs (parent c) ≤ key xs c

  -- `ys` is `xs` with two entries exchanged.
  pub record Swapped (xs : List A) (i j : ℕ) (ys : List A) : Type 0 where
    pub same : Perm ys xs
    pub entries :
        (c : ℕ)
        → get_elem? ys c
          ≡ (if j == c then get_elem? xs i else if i == c then get_elem? xs j else get_elem? xs c)

  -- `ys` holds the entries of `xs`, in heap order below `n` and untouched from there on.
  pub record Restored (n : ℕ) (xs ys : List A) : Type 0 where
    pub heap : IsHeap n ys
    pub same : Perm ys xs
    pub above : (c : ℕ) → n ≤ c → get_elem? ys c ≡ get_elem? xs c

  writes-Swapped :
      (xs : List A) (i j : ℕ) (x y : A)
      → i < length xs
      → j < length xs
      → get_elem? xs i ≡ some x
      → get_elem? xs j ≡ some y
      → Swapped xs i j (set (set xs i y) j x)
  writes-Swapped xs i j x y hi hj ex ey =
      let first = set xs i y in
      let kept : get_elem? first j ≡ some y = ground (arith, get_elem?-set xs i j y) in
      let inside : j < length first = omega (arith, length-set xs i y) in
      record {
        same = Perm.cons_inv (Perm.trans (set-perm first j x kept) (set-perm xs i y ex));
        entries = λ c. ground (arith, get_elem?-set first j c x, get_elem?-set xs i c y);
      }

  module _ (q : PriorityQueue A) (i j : ℕ) (hi : i < length q.items) (hj : j < length q.items) where
    pub swap-Swapped : Yields (λ q'. Swapped q.items i j q'.items) (swap q i j)
    unfolding swap
    swap-Swapped =
        let (x, ex) = get_elem?_lt q.items i hi in
        let (y, ey) = get_elem?_lt q.items j hj in
        rw (ey, ex) (yields (writes-Swapped q.items i j x y hi hj ex ey))

    pub less_lem : less q i j ≡ value (ltb (key q.items i) (key q.items j))
    unfolding less
    less_lem =
        let (x, ex) = get_elem?_lt q.items i hi in
        let (y, ey) = get_elem?_lt q.items j hj in rw (ey, ex)

  -- The root of a heap has the least rank of the first `n` entries.
  root_least_below :
      (k n : ℕ) (xs : List A) (i : ℕ) → IsHeap n xs → i < k → i < n → key xs 0 ≤ key xs i
  root_least_below zero n xs i h f b = absurd (omega arith)
  root_least_below (suc k) n xs i h f b = ground (arith, h i, root_least_below k n xs (parent i) h)

  pub root_least : (n : ℕ) (xs : List A) → IsHeap n xs → (i : ℕ) → i < n → key xs 0 ≤ key xs i
  root_least n xs h i b = root_least_below (suc i) n xs i h (omega arith) b

  -- A run from the exchanged entries restores the order of the entries before the exchange, if
  -- both indices lie below `n`.
  pub Restored-Swapped :
      {n i j : ℕ} {xs ys : List A} (m : Outcome (PriorityQueue A))
      → i < n
      → j < n
      → Swapped xs i j ys
      → Yields (λ q. Restored n ys q.items) m
      → Yields (λ q. Restored n xs q.items) m
  Restored-Swapped m hi hj s run = Yields-map run λ q r. record {
    heap = r.heap;
    same = Perm.trans r.same s.same;
    above = λ c b. ground (arith, r.above c b, s.entries c);
  }

-- ===== src/Queue/Heap/Up.antt =====
-- `up` mends a heap whose entry at one index may come before its parent.
use mathlib.Core.List.Perm
use kombiner.Prelude.{
  ℕ, zero, suc, ◌+◌, ◌≤◌, ◌<◌, ◌≡◌, ◌≢◌, refl, List, arith, ltb, ◌==◌, nat_eq, length, Yields,
  yields, Yields-if, Yields-bind, length-perm,
}
use kombiner.Queue.Prioritized.{Prioritized, PriorityQueue}
use kombiner.Queue.Heap.{parent, up_loop, up}
use kombiner.Queue.Heap.Order.{key, Swapped, Restored, swap-Swapped, less_lem, Restored-Swapped}

module _ {A : Type 0} ⦃p : Prioritized A⦄ where
  -- Only the entry at `j` may come before its parent, and not before its grandparent's line.
  pub record IsHeapAbove (n : ℕ) (xs : List A) (j : ℕ) : Type 0 where
    pub edges : (c : ℕ) → 0 < c → c < n → c ≢ j → key xs (parent c) ≤ key xs c
    pub spanned : (c : ℕ) → 0 < c → c < n → parent c ≡ j → 0 < j → key xs (parent j) ≤ key xs c

  rise-IsHeapAbove :
      (n : ℕ) (xs ys : List A) (j : ℕ)
      → IsHeapAbove n xs j
      → Swapped xs (parent j) j ys
      → 0 < j
      → j < n
      → key xs j < key xs (parent j)
      → IsHeapAbove n ys (parent j)
  rise-IsHeapAbove n xs ys j v s pos inside below = record {
    edges = λ c a b d. ground (arith, s.entries c, s.entries (parent c), v.edges c, v.spanned c);
    spanned = λ c a b d e.
        ground (arith, s.entries c, s.entries (parent (parent j)), v.edges c, v.edges (parent j));
  }

  up_loop_restores :
      (fuel n : ℕ) (q : PriorityQueue A) (j : ℕ)
      → j < fuel
      → length q.items ≡ n
      → j < n
      → IsHeapAbove n q.items j
      → Yields (λ q'. Restored n q.items q'.items) (up_loop fuel q j)
  unfolding up_loop
  up_loop_restores zero n q j f size inside v = absurd (omega arith)
  up_loop_restores (suc fuel) n q j f size inside v =
      let own : j < length q.items = omega arith in
      let over : parent j < length q.items = omega arith in
      rw (less_lem q j (parent j) own over) (
        Yields-if (parent j == j)
          (λ root. yields (record {
            heap = λ c a b. v.edges c a b (ground arith);
            same = Perm.rfl;
            above = λ c b. refl;
          }))
          (λ inner.
            Yields-if (ltb (key q.items j) (key q.items (parent j)))
              (λ below. Yields-bind (swap-Swapped q (parent j) j over own) λ q' s.
                Restored-Swapped (up_loop fuel q' (parent j)) (omega arith) inside s (
                  up_loop_restores fuel n q' (parent j) (ground arith)
                    (omega (arith, length-perm s.same)) (omega arith)
                    (rise-IsHeapAbove n q.items q'.items j v s (ground arith) inside
                      (ground arith))))
              (λ settled. yields (record {
                heap = λ c a b. ground (arith, v.edges c);
                same = Perm.rfl;
                above = λ c b. refl;
              }))))

  -- `up` returns, with the same entries in heap order.
  pub up_restores :
      (n : ℕ) (q : PriorityQueue A) (j : ℕ)
      → length q.items ≡ n
      → j < n
      → IsHeapAbove n q.items j
      → Yields (λ q'. Restored n q.items q'.items) (up q j)
  unfolding up
  up_restores n q j size inside v = up_loop_restores (j + 1) n q j (omega arith) size inside v

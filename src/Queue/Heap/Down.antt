-- ===== src/Queue/Heap/Down.antt =====
-- `down` mends a heap whose entry at one index may come after its children.
use mathlib.Core.List.Perm
use kombiner.Prelude.{
  ℕ, zero, suc, ◌+◌, ◌-◌, ◌*◌, ◌≤◌, ◌<◌, ◌≡◌, ◌≢◌, ◌⊎◌, refl, List, arith, ltb, nat_eq, length,
  Yields, yields, Yields-if, Yields-bind, length-perm, Bool-cases, inl, inr,
}
use kombiner.Queue.Prioritized.{Prioritized, PriorityQueue}
use kombiner.Queue.Heap.{parent, pick_child, down_loop, down}
use kombiner.Queue.Heap.Order.{key, Swapped, Restored, swap-Swapped, less_lem, Restored-Swapped}

children_of : (c i : ℕ) → 0 < c → parent c ≡ i → (c ≡ 2 * i + 1) ⊎ (c ≡ 2 * i + 1 + 1)
children_of c i pos e = omega arith

module _ {A : Type 0} ⦃p : Prioritized A⦄ where
  -- Only the entry at `i` may come after a child, and no child of it before its parent.
  pub record IsHeapBelow (n : ℕ) (xs : List A) (i : ℕ) : Type 0 where
    pub edges : (c : ℕ) → 0 < c → c < n → parent c ≢ i → key xs (parent c) ≤ key xs c
    pub spanned : (c : ℕ) → 0 < c → c < n → parent c ≡ i → 0 < i → key xs (parent i) ≤ key xs c

  -- `j` is the child of `i` that comes first.
  record IsFirstChild (n : ℕ) (xs : List A) (i j : ℕ) : Type 0 where
    inside : j < n
    child : (j ≡ 2 * i + 1) ⊎ (j ≡ 2 * i + 2)
    first : (c : ℕ) → 0 < c → c < n → parent c ≡ i → key xs j ≤ key xs c

  pick_child-IsFirstChild :
      (n : ℕ) (q : PriorityQueue A) (i : ℕ)
      → n ≤ length q.items
      → 2 * i + 1 < n
      → Yields (IsFirstChild n q.items i) (pick_child q i n)
  unfolding pick_child
  pick_child-IsFirstChild n q i size h = elim (Bool-cases (ltb (2 * i + 1 + 1) n)) [
    | inl two ↦ rw two (
        rw (less_lem q (2 * i + 1 + 1) (2 * i + 1) (ground arith) (omega arith)) (
          yields (record {
            inside = ground arith;
            child = ground arith;
            first = λ c a b d. ground (arith, children_of c i a d);
          })))
    | inr one ↦ rw one (
        yields (record {
          inside = h;
          child = ground arith;
          first = λ c a b d. ground (arith, children_of c i a d);
        }))
  ]

  sink-IsHeapBelow :
      (n : ℕ) (xs ys : List A) (i j : ℕ)
      → IsHeapBelow n xs i
      → IsFirstChild n xs i j
      → Swapped xs i j ys
      → key xs j < key xs i
      → IsHeapBelow n ys j
  sink-IsHeapBelow n xs ys i j v f s below = record {
    edges = λ c a b d.
        ground (arith, s.entries c, s.entries (parent c), v.edges c, v.spanned j, f.first c);
    spanned = λ c a b d e. ground (arith, s.entries c, s.entries (parent j), v.edges c);
  }

  down_loop_restores :
      (fuel n : ℕ) (q : PriorityQueue A) (i : ℕ)
      → n - i < fuel
      → n ≤ length q.items
      → IsHeapBelow n q.items i
      → Yields (λ q'. Restored n q.items q'.items) (down_loop fuel q i n)
  unfolding down_loop
  down_loop_restores zero n q i f size v = absurd (omega arith)
  down_loop_restores (suc fuel) n q i f size v =
      Yields-if (ltb (2 * i + 1) n)
        (λ more. Yields-bind (pick_child-IsFirstChild n q i size (ground arith)) λ j c.
          let hi : i < length q.items = omega arith in
          let hj : j < length q.items = omega arith in
          rw (less_lem q j i hj hi) (
            Yields-if (ltb (key q.items j) (key q.items i))
              (λ below. Yields-bind (swap-Swapped q i j hi hj) λ q' s.
                Restored-Swapped (down_loop fuel q' j n) (omega arith) c.inside s (
                  down_loop_restores fuel n q' j (omega arith) (omega (arith, length-perm s.same))
                    (sink-IsHeapBelow n q.items q'.items i j v c s (ground arith))))
              (λ settled. yields (record {
                heap = λ k a b. ground (arith, v.edges k, c.first k);
                same = Perm.rfl;
                above = λ k b. refl;
              }))))
        (λ leaf. yields (record {
          heap = λ c a b. v.edges c a b (ground arith);
          same = Perm.rfl;
          above = λ c b. refl;
        }))

  -- `down` returns, with the same entries, the first `n` in heap order and the others untouched.
  pub down_restores :
      (n : ℕ) (q : PriorityQueue A) (i : ℕ)
      → n ≤ length q.items
      → IsHeapBelow n q.items i
      → Yields (λ q'. Restored n q.items q'.items) (down q i n)
  unfolding down
  down_restores n q i size v = down_loop_restores (n + 1) n q i (omega arith) size v

-- ===== src/Queue/Heap/Contents.antt =====
-- What Push and Pop do to a heap's contents: the order of the entries is forgotten.
use mathlib.Core.List.Perm
use kombiner.Prelude.{
  ℕ, suc, ◌+◌, ◌-◌, ◌≤◌, ◌<◌, ◌≡◌, ◌∙◌, List, [], ◌∷◌, ◌++◌, some, arith, Perm, nat_eq, length,
  get_elem?, take, value, Yields, yields, Yields-bind, Yields-map, length-perm, length-append,
  get_elem?-append, get_elem?-take, get_elem?_lt, get_elem?-inside, append_last-perm,
  take-append_last, All, All-of_indices,
}
use kombiner.Queue.Prioritized
use kombiner.Queue.Prioritized.{Prioritized, PriorityQueue, rank, len}
use kombiner.Queue.Heap.{parent, push, pop}
use kombiner.Queue.Heap.Order.{IsHeap, Swapped, Restored, swap-Swapped, root_least}
use kombiner.Queue.Heap.Up.{IsHeapAbove, up_restores}
use kombiner.Queue.Heap.Down.{IsHeapBelow, down_restores}

module _ {A : Type 0} ⦃p : Prioritized A⦄ where
  -- The invariant of the queue: every entry is in heap order.
  abbrev pub IsValid : PriorityQueue A → Type 0
  IsValid q = IsHeap (length q.items) q.items

  -- What Push leaves: the new item and the old ones, in heap order.
  pub record Pushed (q : PriorityQueue A) (x : A) (q' : PriorityQueue A) : Type 0 where
    pub valid : IsValid q'
    pub same : Perm q'.items (x ∷ q.items)

  pub push_lem : (q : PriorityQueue A) (x : A) → IsValid q → Yields (Pushed q x) (push q x)
  unfolding push Prioritized.push len
  push_lem q x v =
      Yields-map
        (up_restores (length q.items + 1) _ (length (q.items ++ x ∷ []) - 1) size
          (omega (arith, size)) start)
        λ q' r. record {
          valid = λ c a b. r.heap c a (omega (arith, size, length-perm r.same));
          same = Perm.trans r.same (append_last-perm q.items x);
        }
    where
      size : length (q.items ++ x ∷ []) ≡ length q.items + 1
      size = length-append q.items (x ∷ [])

      start : IsHeapAbove (length q.items + 1) (q.items ++ x ∷ []) (length (q.items ++ x ∷ []) - 1)
      start = record {
        edges = λ c a b d. ground (
          arith,
          size,
          v c,
          get_elem?-append q.items (x ∷ []) c,
          get_elem?-append q.items (x ∷ []) (parent c),
        );
        spanned = λ c a b d e. absurd (omega (arith, size));
      }

  -- What Pop returns: an item of the least rank, and a queue of the others in heap order.
  pub record Popped (q : PriorityQueue A) (r : A × PriorityQueue A) : Type 0 where
    pub valid : IsValid r.1
    pub same : Perm (r.0 ∷ r.1.items) q.items
    pub least : All (λ x. rank (p.priority r.0) ≤ rank (p.priority x)) q.items

  exchanged-IsHeapBelow :
      (n : ℕ) (xs ys : List A) → IsHeap (suc n) xs → Swapped xs 0 n ys → IsHeapBelow n ys 0
  exchanged-IsHeapBelow n xs ys v s = record {
    edges = λ c a b d. ground (arith, v c, s.entries c, s.entries (parent c));
    spanned = λ c a b d e. absurd (omega arith);
  }

  -- The last entry leaves the slice.
  pop_last :
      (n : ℕ) (q : PriorityQueue A) {x : A}
      → length q.items ≡ suc n
      → get_elem? q.items n ≡ some x
      → Prioritized.pop q ≡ value (x, record { items = take n q.items })
  unfolding Prioritized.pop
  pop_last n q size e = rw (size, Prioritized.pop) (rw e)

  module _ (n : ℕ) (xs : List A) (x : A) (ex : get_elem? xs 0 ≡ some x)
      (size : length xs ≡ suc n) where
    least_of_root : IsHeap (suc n) xs → All (λ y. rank (p.priority x) ≤ rank (p.priority y)) xs
    least_of_root v = All-of_indices _ xs λ i y e.
        let inside = get_elem?-inside xs i e in
        ground (arith, root_least (suc n) xs v i (omega arith))

    -- The entries that are left after the exchanged root is cut off.
    cut-Popped :
        (q1 q2 : PriorityQueue A)
        → IsHeap (suc n) xs
        → Swapped xs 0 n q1.items
        → Restored n q1.items q2.items
        → (get_elem? q2.items n ≡ some x)
          × Popped (record { items = xs }) (x, record { items = take n q2.items })
    cut-Popped q1 q2 v s r =
        let at : get_elem? q2.items n ≡ some x = ground (arith, r.above n, s.entries n) in
        let whole = Perm.trans r.same s.same in
        let back = take-append_last n q2.items (length-perm whole ∙ size) at in
        let same : Perm (x ∷ take n q2.items) xs =
          Perm.trans (Perm.symm (append_last-perm (take n q2.items) x)) (rw back whole) in
        (
          at,
          record {
            valid = λ c a b.
                let low : c < n = omega (arith, length-perm same) in
                ground (
                  arith,
                  r.heap c,
                  get_elem?-take n q2.items c,
                  get_elem?-take n q2.items (parent c),
                );
            same = same;
            least = least_of_root v;
          },
        )

  pub pop_lem :
      (n : ℕ) (q : PriorityQueue A) → length q.items ≡ suc n → IsValid q → Yields (Popped q) (pop q)
  unfolding pop len
  pop_lem n q size v =
      let (x, ex) = get_elem?_lt q.items 0 (omega arith) in
      let heap : IsHeap (suc n) q.items = λ c a b. v c a (omega arith) in
      let last : length q.items - 1 ≡ n = omega arith in
      rw last (
        Yields-bind (swap-Swapped q 0 n (omega arith) (omega arith)) λ q1 s.
          let long = length-perm s.same in
          Yields-bind
            (down_restores n q1 0 (omega arith) (exchanged-IsHeapBelow n q.items q1.items heap s))
            λ q2 r.
              let (at, popped) = cut-Popped n q.items x ex size q1 q2 heap s r in
              rw (pop_last n q2 (length-perm r.same ∙ long ∙ size) at) (yields popped))

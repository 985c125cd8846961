-- ===== src/Queue/PlacementRequest/Drain.antt =====
-- A queue filled by Push and emptied by Pop.
use mathlib.Core.List.Perm
use mathlib.Core.HLevel.{×_prop}
use native.Mathlib.Bridge.{le_prop}
use kombiner.Prelude.{
  ℕ, zero, suc, ◌≤◌, ◌≡◌, refl, List, [], ◌∷◌, map, none, some, Perm, arith, length, length-perm,
  Outcome, value, panic, ◌>>=◌, Yields, yields, Yields-bind, Yields-map, All, All-perm,
}
use kombiner.Api.Placement.{PlacementRequest}
use kombiner.Queue.Prioritized
use kombiner.Queue.Prioritized.{rank}
use kombiner.Queue.PlacementRequest.{
  PrioritizedPlacementRequest, PlacementRequestQueue, unix_nano, push, pop, len,
}
use kombiner.Queue.PlacementRequest.Contents.{
  IsValid, waiting, created, push-Pushed, pop-Popped, none-IsBefore,
}
use kombiner.Queue.PlacementRequest.Age.{IsRepresentable, IsBefore}

abbrev item : PlacementRequest → PrioritizedPlacementRequest
item pr = record { request = pr }

abbrev pub items_of : List PlacementRequest → List PrioritizedPlacementRequest
items_of prs = map item prs

abbrev age : PlacementRequest → ℕ
age pr = rank (unix_nano pr.meta.creation_timestamp)

-- Each request was created no later than those after it.
abbrev ByAge : List PlacementRequest → Type 0
ByAge [] = Unit
ByAge (pr ∷ prs) = All (λ x. age pr ≤ rank (unix_nano (created x))) (items_of prs) × ByAge prs

-- No request was created before one that stands in front of it.
abbrev pub OldestFirst : List PlacementRequest → Type 0
OldestFirst [] = Unit
OldestFirst (pr ∷ prs) =
    All (λ x. ¬ IsBefore (created x) pr.meta.creation_timestamp) (items_of prs) × OldestFirst prs

ByAge-OldestFirst :
    (prs : List PlacementRequest)
    → All (λ x. IsRepresentable (created x)) (items_of prs)
    → ByAge prs
    → OldestFirst prs
ByAge-OldestFirst [] times h = tt
ByAge-OldestFirst (pr ∷ prs) times h = (
  none-IsBefore pr.meta.creation_timestamp (items_of prs) times.0 times.1 h.0,
  ByAge-OldestFirst prs times.1 h.1,
)

no_items : (xs : List PrioritizedPlacementRequest) → length xs ≡ 0 → xs ≡ []
no_items [] e = refl
no_items (x ∷ xs) e = absurd (omega arith)

module _ {S : Type 0} where
  -- Push of the requests, the last of the list first.
  unfoldable pub push_all :
      PlacementRequestQueue S → List PlacementRequest → S → Outcome (PlacementRequestQueue S × S)
  push_all q [] s = value (q, s)
  push_all q (pr ∷ prs) s = do (q1, s1) ← push_all q prs s; push q1 (some pr) s1

  -- As many calls of Pop; a nil from one is a panic.
  unfoldable pub pop_all :
      ℕ → PlacementRequestQueue S → Outcome (List PlacementRequest × PlacementRequestQueue S)
  pop_all zero q = value ([], q)
  pop_all (suc n) q = do
    (found, q1) ← pop q
    (rest, q2) ← pop_all n q1
    elim found [ some pr ↦ value (pr ∷ rest, q2) | none ↦ panic ]

  push_all-perm :
      (q : PlacementRequestQueue S) (prs : List PlacementRequest) (s : S)
      → IsValid q
      → waiting q ≡ []
      → Yields (λ r. IsValid r.0 × Perm (waiting r.0) (items_of prs)) (push_all q prs s)
  unfolding push_all
  push_all-perm q [] s valid none_yet = yields (valid, rw none_yet (Perm.refl []))
  push_all-perm q (pr ∷ prs) s valid none_yet =
      Yields-bind (push_all-perm q prs s valid none_yet) λ (q1, s1) (valid1, same).
        Yields-map (push-Pushed q1 pr s1 valid1)
          λ r p. (p.valid, Perm.trans p.same (Perm.cons (item pr) same))

  -- The requests that came out of the queue, oldest first.
  record Drained (q : PlacementRequestQueue S) (r : List PlacementRequest × PlacementRequestQueue S)
      : Type 0 where
    same : Perm (items_of r.0) (waiting q)
    sorted : ByAge r.0
    left : len r.1 ≡ 0

  pop_all-Drained :
      (n : ℕ) (q : PlacementRequestQueue S)
      → len q ≡ n
      → IsValid q
      → Yields (Drained q) (pop_all n q)
  unfolding pop_all len Prioritized.len
  pop_all-Drained zero q size valid =
      yields
        (record { same = rw (no_items (waiting q) size) (Perm.refl []); sorted = tt; left = size })
  pop_all-Drained (suc n) q size valid = Yields-bind (pop-Popped n q size valid) λ (found, q1) p.
      Yields-bind (pop_all-Drained n q1 (omega (arith, length-perm p.same)) p.valid) λ (rest, q2) d.
        let all = Perm.trans (Perm.cons (item p.request) d.same) p.same in
        let oldest =
          All-perm (λ x. age p.request ≤ rank (unix_nano (created x))) (λ x. le_prop)
            (Perm.symm all) p.first in
        rw (p.given) (yields (record { same = all; sorted = (oldest.1, d.sorted); left = d.left }))

  -- Push and Pop are a round trip that sorts: requests that were created between 1970 and 2262, pushed
  -- in any order onto a valid empty queue, come out by as many Pops, each once and none after a request
  -- that was created later, and leave the queue empty.
  pub push_all-pop_all :
      (q : PlacementRequestQueue S) (prs : List PlacementRequest) (s : S)
      → IsValid q
      → len q ≡ 0
      → All (λ x. IsRepresentable (created x)) (items_of prs)
      → Yields
          (λ r. Perm (items_of r.0) (items_of prs) × OldestFirst r.0 × (len r.1 ≡ 0))
          (push_all q prs s >>= λ (filled, s'). pop_all (length prs) filled)
  unfolding len Prioritized.len
  push_all-pop_all q prs s valid none_yet times =
      Yields-bind (push_all-perm q prs s valid (no_items (waiting q) none_yet))
        λ (filled, s') (valid', same).
          Yields-map (pop_all-Drained (length prs) filled (size filled same) valid') λ (out, q') d.
            let all = Perm.trans d.same same in
            let shown =
              All-perm (λ x. IsRepresentable (created x)) (λ x. ×_prop le_prop le_prop)
                (Perm.symm all) times in
            (all, ByAge-OldestFirst out shown d.sorted, d.left)
    where
      items_count : (xs : List PlacementRequest) → length (items_of xs) ≡ length xs
      items_count [] = refl
      items_count (x ∷ xs) = omega (arith, items_count xs)

      size :
          (filled : PlacementRequestQueue S)
          → Perm (waiting filled) (items_of prs)
          → len filled ≡ length prs
      size filled same = omega (arith, length-perm same, items_count prs)

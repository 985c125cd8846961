-- ===== src/Queue/PlacementRequest/Contents.antt =====
-- What the methods of PlacementRequestQueue do to its contents: a bag of requests that gives out an
-- oldest one.
use mathlib.Core.List.Perm
use mathlib.Core.HLevel.{×_prop}
use native.Mathlib.Bridge.{le_prop}
use kombiner.Prelude.{
  ℕ, suc, ◌≤◌, ◌≡◌, refl, List, [], ◌∷◌, Option, none, some, Perm, arith, ◌==◌, nat_eq, length,
  value, Yields, yields, Yields-bind, Yields-if, Yields-map, All, All-perm,
}
use kombiner.Api.Placement.{Time, PlacementRequest}
use kombiner.Queue.Prioritized
use kombiner.Queue.Prioritized.{PriorityQueue, rank}
use kombiner.Queue.Heap
use kombiner.Queue.Heap.Contents
use kombiner.Queue.PlacementRequest.{
  unix_nano, PrioritizedPlacementRequest, priority, prioritized_placement_request,
  PlacementRequestQueue, run_handlers, push, pop, len, new_placement_request_queue,
}
use kombiner.Queue.PlacementRequest.Age.{IsRepresentable, IsBefore, unix_nano_order}

abbrev pub created : PrioritizedPlacementRequest → Time
created x = x.request.meta.creation_timestamp

-- No request in the list was created before a time whose priority value is as low as theirs.
pub none-IsBefore :
    (t : Time) (xs : List PrioritizedPlacementRequest)
    → IsRepresentable t
    → All (λ x. IsRepresentable (created x)) xs
    → All (λ x. rank (unix_nano t) ≤ rank (unix_nano (created x))) xs
    → All (λ x. ¬ IsBefore (created x) t) xs
none-IsBefore t [] r rs h = tt
none-IsBefore t (x ∷ xs) r rs h = (
  (λ before. let lower = (unix_nano_order (created x) t rs.0 r).1 before in omega (arith, h.0)),
  none-IsBefore t xs r rs.1 h.1,
)

module _ {S : Type 0} where
  -- The requests that wait.
  abbrev pub waiting : PlacementRequestQueue S → List PrioritizedPlacementRequest
  waiting q = q.queue.items

  abbrev pub IsValid : PlacementRequestQueue S → Type 0
  IsValid q = Contents.IsValid q.queue

  -- What Push leaves: the request beside the old ones, and the state that the handlers made.
  pub record Pushed (q : PlacementRequestQueue S) (pr : PlacementRequest) (s : S)
      (r : PlacementRequestQueue S × S) : Type 0 where
    pub valid : IsValid r.0
    pub same : Perm (waiting r.0) (record { request = pr } ∷ waiting q)
    pub handled : r.1 ≡ run_handlers q.push_handlers s
    pub handlers : r.0.push_handlers ≡ q.push_handlers

  -- What Pop gives from a queue that is not empty.
  pub record Popped (q : PlacementRequestQueue S)
      (r : Option PlacementRequest × PlacementRequestQueue S) : Type 0 where
    pub request : PlacementRequest
    pub given : r.0 ≡ some request
    pub valid : IsValid r.1
    pub same : Perm (record { request = request } ∷ waiting r.1) (waiting q)
    pub first :
        All
          (λ x. rank (unix_nano request.meta.creation_timestamp) ≤ rank (unix_nano (created x)))
          (waiting q)
    pub handlers : r.1.push_handlers ≡ q.push_handlers

  -- On a valid queue Push of a request returns: it adds exactly that request, keeps the queue valid
  -- and its handlers, and has called each handler once, in order.
  pub push-Pushed :
      (q : PlacementRequestQueue S) (pr : PlacementRequest) (s : S)
      → IsValid q
      → Yields (Pushed q pr s) (push q (some pr) s)
  unfolding push
  push-Pushed q pr s v =
      Yields-bind (Contents.push_lem q.queue (record { request = pr }) v) λ heap h.
        yields (record { valid = h.valid; same = h.same; handled = refl; handlers = refl })

  -- Pop of an empty queue returns nil and leaves the queue as it was.
  pub pop-empty : (q : PlacementRequestQueue S) → len q ≡ 0 → pop q ≡ value (none, q)
  unfolding pop len
  pop-empty q e = rw e

  pub pop-Popped :
      (n : ℕ) (q : PlacementRequestQueue S) → len q ≡ suc n → IsValid q → Yields (Popped q) (pop q)
  unfolding pop len priority Prioritized.len
  pop-Popped n q size v =
      Yields-if (length (waiting q) == 0) (λ none_left. absurd (ground arith))
        λ _. Yields-bind (Contents.pop_lem n q.queue size v) λ (item, heap) p. yields (record {
          request = item.request;
          given = refl;
          valid = p.valid;
          same = p.same;
          first = p.least;
          handlers = refl;
        })

  -- What Pop gives while every creation time is one that UnixNano can give.
  pub record PoppedOldest (q : PlacementRequestQueue S)
      (r : Option PlacementRequest × PlacementRequestQueue S) : Type 0 where
    pub popped : Popped q r
    pub oldest :
        All (λ x. ¬ IsBefore (created x) popped.request.meta.creation_timestamp) (waiting q)

  -- On a valid queue that is not empty, whose requests were all created between 1970 and 2262, Pop
  -- returns: it gives a request and a valid queue of exactly the others, no waiting request was
  -- created before the one given, and the handlers stay.
  pub pop-PoppedOldest :
      (n : ℕ) (q : PlacementRequestQueue S)
      → len q ≡ suc n
      → IsValid q
      → All (λ x. IsRepresentable (created x)) (waiting q)
      → Yields (PoppedOldest q) (pop q)
  pop-PoppedOldest n q size v times = Yields-map (pop-Popped n q size v) λ r p.
      let all =
        All-perm (λ x. IsRepresentable (created x)) (λ x. ×_prop le_prop le_prop) (Perm.symm p.same)
          times in
      record {
        popped = p;
        oldest = none-IsBefore p.request.meta.creation_timestamp (waiting q) all.0 times p.first;
      }

  -- A new queue is valid, empty and has no handler.
  pub new_placement_request_queue-IsValid :
      Yields (λ q. IsValid q × (len q ≡ 0) × (q.push_handlers ≡ [])) new_placement_request_queue
  unfolding new_placement_request_queue len Heap.init
  new_placement_request_queue-IsValid = yields ((λ c a b. absurd (omega arith)), refl, refl)

-- ===== src/Queue/PlacementRequest.antt =====
-- pkg/queue/placement-request.go: the queue of one scheduler. A push handler, a Go `func()`, acts on
-- a state `S` outside of the queue (for the program: the iterator's channel). A method that writes
-- returns the new queue. Each method holds the mutex throughout, so it is one step; a request is
-- held by value, since nothing changes it while it waits.
pub mod Drain
pub mod Contents
pub mod Age
use kombiner.Prelude.{
  ℕ, ◌+◌, ◌*◌, ◌%◌, ◌^◌, List, [], ◌∷◌, ◌++◌, Option, none, some, ◌==◌, nat_eq, if◌then◌else◌,
  length, Outcome, value, panic, ◌>>=◌,
}
use kombiner.Api.Placement.{Time, PlacementRequest}
use kombiner.Queue.Prioritized
use kombiner.Queue.Prioritized.{Prioritized, PriorityQueue}
use kombiner.Queue.Heap

-- Time.UnixNano: an int64 that wraps around.
unfoldable pub unix_nano : Time → ℕ
unix_nano t = (t.seconds * 10 ^ 9 + t.nanoseconds) % 2 ^ 64

-- The wrapped request in the queue.
pub record PrioritizedPlacementRequest : Type 0 where
  pub request : PlacementRequest

unfoldable pub priority : PrioritizedPlacementRequest → ℕ
priority p = unix_nano p.request.meta.creation_timestamp

instance abbrev pub prioritized_placement_request : Prioritized PrioritizedPlacementRequest
prioritized_placement_request = record { priority = priority }

pub record PlacementRequestQueue (S : Type 0) : Type 0 where
  pub queue : PriorityQueue PrioritizedPlacementRequest
  pub push_handlers : List (S → S)

-- heap.Init on the empty queue.
unfoldable pub new_priority_queue : Outcome (PriorityQueue PrioritizedPlacementRequest)
new_priority_queue = Heap.init (record { items = [] })

module _ {S : Type 0} where
  -- The loop of Push over the handlers.
  unfoldable pub run_handlers : List (S → S) → S → S
  run_handlers [] s = s
  run_handlers (h ∷ hs) s = run_handlers hs (h s)

  -- A nil request is a panic.
  unfoldable pub push :
      PlacementRequestQueue S → Option PlacementRequest → S → Outcome (PlacementRequestQueue S × S)
  unfolding run_handlers
  push q none s = panic
  push q (some pr) s = do
    heap ← Heap.push q.queue (record { request = pr })
    value (record q { queue = heap }, run_handlers q.push_handlers s)

  unfoldable pub pop :
      PlacementRequestQueue S → Outcome (Option PlacementRequest × PlacementRequestQueue S)
  unfolding Prioritized.len
  pop q =
      let result = Heap.pop q.queue >>= λ (item, heap).
      value (some (item.request), record q { queue = heap }) in
      if Prioritized.len q.queue == 0 then value (none, q) else result

  unfoldable pub add_push_handler : PlacementRequestQueue S → (S → S) → PlacementRequestQueue S
  add_push_handler q handler = record q { push_handlers = q.push_handlers ++ handler ∷ [] }

  unfoldable pub len : PlacementRequestQueue S → ℕ
  unfolding Prioritized.len
  len q = Prioritized.len q.queue

  unfoldable pub new_placement_request_queue : Outcome (PlacementRequestQueue S)
  unfolding new_priority_queue
  new_placement_request_queue = do
    heap ← new_priority_queue
    value (record { queue = heap; push_handlers = [] })

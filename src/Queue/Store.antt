-- ===== src/Queue/Store.antt =====
-- The queues that the program shares. A `*PlacementRequestQueue` is an index into the store, or
-- `none` for nil: the controller's map and the iterator's configs hold the same pointers.
pub mod Effects
use kombiner.Prelude.{
  ℕ, List, [], ◌∷◌, ◌++◌, Option, none, some, length, get_elem?, set, Outcome, value, ◌>>=◌,
  or_panic,
}
use kombiner.Api.Placement.{PlacementRequest}
use kombiner.Queue.PlacementRequest
use kombiner.Queue.PlacementRequest.{PlacementRequestQueue}

-- `signals` is the state that the push handlers act on.
pub record Store (S : Type 0) : Type 0 where
  pub queues : List (PlacementRequestQueue S)
  pub signals : S

abbrev pub QueueRef : Type 0
QueueRef = Option ℕ

module _ {S : Type 0} where
  abbrev pub deref? : Store S → QueueRef → Option (PlacementRequestQueue S)
  deref? st none = none
  deref? st (some k) = get_elem? st.queues k

  -- A method call on a nil pointer is a panic.
  unfoldable pub deref : Store S → QueueRef → Outcome (PlacementRequestQueue S)
  deref st ref = or_panic (deref? st ref)

  abbrev pub write : Store S → QueueRef → PlacementRequestQueue S → Store S
  write st none q = st
  write st (some k) q = record st { queues = set st.queues k q }

  unfoldable pub queue_len : Store S → QueueRef → Outcome ℕ
  unfolding deref
  queue_len st ref = do q ← deref st ref; value (PlacementRequest.len q)

  unfoldable pub queue_pop : Store S → QueueRef → Outcome (Option PlacementRequest × Store S)
  unfolding deref
  queue_pop st ref = do
    q ← deref st ref
    (result, q') ← PlacementRequest.pop q
    value (result, write st ref q')

  unfoldable pub queue_push : Store S → QueueRef → Option PlacementRequest → Outcome (Store S)
  unfolding deref
  queue_push st ref pr = do
    q ← deref st ref
    (q', signals) ← PlacementRequest.push q pr st.signals
    value (record (write st ref q') { signals = signals })

  unfoldable pub queue_add_push_handler : Store S → QueueRef → (S → S) → Outcome (Store S)
  unfolding deref
  queue_add_push_handler st ref handler = do
    q ← deref st ref
    value (write st ref (PlacementRequest.add_push_handler q handler))

  -- NewPlacementRequestQueue allocates.
  unfoldable pub alloc_queue : Store S → Outcome (QueueRef × Store S)
  alloc_queue st = do
    q ← PlacementRequest.new_placement_request_queue
    value (some (length st.queues), record st { queues = st.queues ++ q ∷ [] })

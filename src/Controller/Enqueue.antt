-- ===== src/Controller/Enqueue.antt =====
-- enqueue: which requests get into a queue, and which are rejected.
pub mod Answers
use kombiner.Prelude.{
  ℕ, ◌≡◌, ◌≢◌, ◌≤◌, ◌<◌, ◌^◌, refl, String, List, ◌∷◌, true, false, none, some, arith, ◌==◌,
  string_eq, eq_iff, length, value, Yields, yields, Yields-bind,
}
use kombiner.Api.Placement.{PlacementRequest, result_rejected}
use kombiner.Cluster.{Cluster, Log, update_status}
use kombiner.Queue.Store.{Store, QueueRef, deref?, write, queue_push}
use kombiner.Queue.Config.{QueueConfig, lookup}
use kombiner.Queue.PlacementRequest.{PlacementRequestQueue}
use kombiner.Queue.PlacementRequest.Contents.{IsValid, Pushed, push-Pushed}
use kombiner.Controller.{too_large, enqueue}

-- A request that is rejected: one update of its status, with the reason and the message.
abbrev pub rejected_copy : PlacementRequest → String → String → PlacementRequest
rejected_copy pr reason message = record pr {
  status = record (pr.status) { result = result_rejected; reason = reason; message = message };
}

-- Why a request is rejected, with the reason and the message for it.
pub data IsRefused (queues : List (String × QueueConfig)) (pr : PlacementRequest)
    : String → String → Type 0 where
  no_queue :
      lookup pr.spec.scheduler_name queues ≡ none
      → IsRefused queues pr "QueueNotFound" "Scheduler queue not found"
  too_many :
      (cfg : QueueConfig)
      → lookup pr.spec.scheduler_name queues ≡ some cfg
      → cfg.queue.max_size < length pr.spec.bindings
      → IsRefused queues pr "PlacementRequestTooLarge" "Placement request too large"

unnamed : {name : String} → name ≢ "" → (name == "") ≡ false
unnamed {name} n = ground (arith, eq_iff name "")

exceeds : {n max_size : ℕ} → max_size < n → too_large n max_size ≡ true
unfolding too_large
exceeds h = ground arith

within : {n max_size : ℕ} → n ≤ max_size → max_size < 2 ^ 63 → too_large n max_size ≡ false
unfolding too_large
within h k = ground arith

-- What a push through a pointer leaves of the store.
abbrev pub Delivered :
    {S : Type 0}
    → Store S
    → QueueRef
    → PlacementRequestQueue S
    → PlacementRequest
    → Store S
    → Type 0
Delivered {S} st ref q pr st' =
    (q' : PlacementRequestQueue S) × (signals : S) × Pushed q pr st.signals (q', signals)
    × (st' ≡ record (write st ref q') { signals = signals })

pub queue_push-Delivered :
    {S : Type 0} (st : Store S) (ref : QueueRef) (q : PlacementRequestQueue S)
    (pr : PlacementRequest)
    → deref? st ref ≡ some q
    → IsValid q
    → Yields (Delivered st ref q pr) (queue_push st ref (some pr))
unfolding queue_push
queue_push-Delivered st ref q pr at valid = rw at (
    Yields-bind (push-Pushed q pr st.signals valid)
      λ (q', signals) p. yields (q', signals, p, refl))

module _ {S : Type 0} (c : Cluster) (queues : List (String × QueueConfig)) (pr : PlacementRequest)
    (st : Store S) (log : Log) where
  -- A request that names a scheduler, and either has no queue or more bindings than its queue takes,
  -- is rejected with the reason for it: no queue changes, and one update of its status is sent.
  pub enqueue-rejects :
      (reason message : String)
      → pr.spec.scheduler_name ≢ ""
      → IsRefused queues pr reason message
      → enqueue c queues (some pr) st log
        ≡ value (st, update_status (rejected_copy pr reason message) ∷ log)
  unfolding enqueue
  enqueue-rejects reason message named (no_queue absent) =
      rw (unnamed named, enqueue) (rw (absent, enqueue))
  enqueue-rejects reason message named (too_many cfg found more) =
      rw (unnamed named, enqueue) (rw (found, enqueue) (rw (exceeds more)))

  -- A request whose scheduler has a queue that takes its bindings is pushed onto that queue, and only
  -- there: Push adds exactly the request, the handlers run once each, and no call is made.
  pub enqueue-accepts :
      (cfg : QueueConfig) (q : PlacementRequestQueue S)
      → pr.spec.scheduler_name ≢ ""
      → lookup pr.spec.scheduler_name queues ≡ some cfg
      → length pr.spec.bindings ≤ cfg.queue.max_size
      → cfg.queue.max_size < 2 ^ 63
      → deref? st cfg.queue_ref ≡ some q
      → IsValid q
      → Yields
          (λ r.
            (q' : PlacementRequestQueue S) × (signals : S) × Pushed q pr st.signals (q', signals)
            × (r.0 ≡ record (write st cfg.queue_ref q') { signals = signals })
            × (r.1 ≡ log))
          (enqueue c queues (some pr) st log)
  unfolding enqueue
  enqueue-accepts cfg q named found fits small at valid =
      rw (unnamed named, enqueue)
        (rw (found, enqueue)
          (rw (within fits small) (
            Yields-bind (queue_push-Delivered st cfg.queue_ref q pr at valid)
              λ st' (q', signals, p, e). yields (q', signals, p, e, refl))))

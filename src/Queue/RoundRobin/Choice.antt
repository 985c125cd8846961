-- ===== src/Queue/RoundRobin/Choice.antt =====
-- Which queue the round-robin reader is to serve: the first one that has both requests and room, or,
-- if no queue has both, the first one that has requests.
use kombiner.Prelude.{
  ℕ, suc, ◌<◌, ◌≡◌, refl, ap, List, [], ◌∷◌, Bool, true, false, ◌&&◌, Option, none, some, arith,
  ltb, value, find_index, All, Bool-cases, inl, inr,
}
use mathlib.Core.Option
use kombiner.Queue.Store.{Store, QueueRef, deref?, queue_len}
use kombiner.Queue.PlacementRequest
use kombiner.Queue.PlacementRequest.{PlacementRequestQueue}
use kombiner.Queue.PlacementRequest.Contents.{IsValid}
use kombiner.Queue.RoundRobin.{ExtendedQueueConfig, has_room, next, empty}

pub next_lem : (cfgs : List ExtendedQueueConfig) → next cfgs ≡ find_index has_room cfgs
unfolding next find_index
next_lem [] = refl
next_lem (cfg ∷ cfgs) = ground (arith, next_lem cfgs)

abbrev pub is_none {ℓ} : {A : Type ℓ} → Option A → Bool
is_none none = true
is_none (some _) = false

is_none-map : (o : Option ℕ) → is_none o ≡ is_none (Option.map suc o)
is_none-map none = refl
is_none-map (some _) = refl

abbrev busy_of : {S : Type 0} → Option (PlacementRequestQueue S) → Bool
busy_of none = false
busy_of (some q) = ltb 0 (PlacementRequest.len q)

module _ {S : Type 0} (st : Store S) where
  -- The queue behind a pointer holds a request.
  unfoldable pub holds_request : QueueRef → Bool
  holds_request ref = busy_of (deref? st ref)

  abbrev pub is_busy : ExtendedQueueConfig → Bool
  is_busy cfg = holds_request cfg.config.queue_ref

  abbrev pub is_ready : ExtendedQueueConfig → Bool
  is_ready cfg = has_room cfg && is_busy cfg

  abbrev pub prefer : Option ℕ → Option ℕ → Option ℕ
  prefer none b = b
  prefer (some i) b = some i

  unfoldable pub choice : List ExtendedQueueConfig → Option ℕ
  choice cfgs = prefer (find_index is_ready cfgs) (find_index is_busy cfgs)

  -- The pointer leads to a valid queue, and the share is not zero.
  pub record IsUsable (cfg : ExtendedQueueConfig) : Type 0 where
    pub queue : PlacementRequestQueue S
    pub resolves : deref? st cfg.config.queue_ref ≡ some queue
    pub valid : IsValid queue
    pub share : 0 < cfg.maximum_bindings

  queue_len_lem :
      (cfg : ExtendedQueueConfig) (u : IsUsable cfg)
      → queue_len st cfg.config.queue_ref ≡ value (PlacementRequest.len u.queue)
  unfolding queue_len
  queue_len_lem cfg u = rw (u.resolves)

  pub is_busy_lem :
      (cfg : ExtendedQueueConfig) (u : IsUsable cfg)
      → is_busy cfg ≡ ltb 0 (PlacementRequest.len u.queue)
  unfolding holds_request
  is_busy_lem cfg u = rw (u.resolves)

  -- `empty` tells whether no queue holds a request.
  pub empty_lem :
      (cfgs : List ExtendedQueueConfig)
      → All IsUsable cfgs
      → empty st cfgs ≡ value (is_none (find_index is_busy cfgs))
  unfolding empty find_index
  empty_lem [] u = refl
  empty_lem (cfg ∷ cfgs) u = elim (Bool-cases (ltb 0 (PlacementRequest.len u.0.queue))) [
    | inl busy ↦ rw (queue_len_lem cfg u.0, is_busy_lem cfg u.0) (rw busy)
    | inr idle ↦
        rw (queue_len_lem cfg u.0, is_busy_lem cfg u.0)
          (rw idle (rw (empty_lem cfgs u.1) (ap value (is_none-map (find_index is_busy cfgs)))))
  ]

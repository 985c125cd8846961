-- ===== src/Controller/Enqueue/Answers.antt =====
-- enqueue on any request: what becomes of it, also when ScheduleOne sees it later.
use kombiner.Prelude.{
  ◌≡◌, ◌≢◌, ◌≤◌, ◌<◌, ◌^◌, ◌⊎◌, ◌==◌, refl, String, List, ◌∷◌, true, none, some, arith, string_eq,
  eq_iff, ltb, ltb→lt, length, All, inl, inr, Bool-cases, Option-cases, value, Yields, yields,
  Yields-map,
}
use kombiner.Api.Placement.{PlacementRequest, result_rejected, result_unknown}
use kombiner.Cluster.{Cluster, Log, update_status}
use kombiner.Queue.Store.{Store, deref?}
use kombiner.Queue.Config.{QueueConfig, lookup}
use kombiner.Queue.Config.Lookup.{All-lookup}
use kombiner.Queue.PlacementRequest.{PlacementRequestQueue}
use kombiner.Queue.PlacementRequest.Contents.{IsValid}
use kombiner.Controller.{is_settled, schedule_one, enqueue}
use kombiner.Controller.Enqueue.{
  IsRefused, no_queue, too_many, rejected_copy, Delivered, enqueue-rejects, enqueue-accepts,
}
use kombiner.Controller.Schedule.{settled_of_result, schedule_one-settled}

-- The entry's pointer leads to a valid queue, and its size is an int.
abbrev pub IsOpen : {S : Type 0} → Store S → String × QueueConfig → Type 0
IsOpen {S} st entry =
    ((q : PlacementRequestQueue S) × (deref? st entry.1.queue_ref ≡ some q) × IsValid q)
    × (entry.1.queue.max_size < 2 ^ 63)

module _ {S : Type 0} (c : Cluster) (queues : List (String × QueueConfig)) (pr : PlacementRequest)
    (st : Store S) (log : Log) where
  -- The request has no queue, or too many bindings for it.
  abbrev pub HasNoPlace : Type 0
  HasNoPlace =
      (lookup pr.spec.scheduler_name queues ≡ none)
      ⊎ ((cfg : QueueConfig) × (lookup pr.spec.scheduler_name queues ≡ some cfg)
          × (cfg.queue.max_size < length pr.spec.bindings))

  -- The API gets one copy of the request, which differs in its status only and has the result
  -- Rejected; a ScheduleOne of that copy makes no call and leaves it as it is.
  pub record IsTurnedAway (r : Store S × Log) : Type 0 where
    pub copy : PlacementRequest
    pub sent : r.1 ≡ update_status copy ∷ log
    pub queues_kept : r.0 ≡ st
    pub rejected : copy.status.result ≡ result_rejected
    pub spec : copy.spec ≡ pr.spec
    pub meta : copy.meta ≡ pr.meta
    pub bindings : copy.status.bindings ≡ pr.status.bindings
    pub finished : schedule_one c copy r.1 ≡ (none, copy, r.1)

  -- The request goes into its queue, and no call is made.
  pub record IsTaken (r : Store S × Log) : Type 0 where
    pub config : QueueConfig
    pub queue : PlacementRequestQueue S
    pub known : lookup pr.spec.scheduler_name queues ≡ some config
    pub fits : length pr.spec.bindings ≤ config.queue.max_size
    pub resolves : deref? st config.queue_ref ≡ some queue
    pub delivered : Delivered st config.queue_ref queue pr r.0
    pub no_call : r.1 ≡ log

  abbrev pub Answer : Store S × Log → Type 0
  Answer r =
      ((pr.spec.scheduler_name ≡ "") × (r ≡ (st, log)))
      ⊎ (((pr.spec.scheduler_name ≢ "") × HasNoPlace × IsTurnedAway r)
          ⊎ ((pr.spec.scheduler_name ≢ "") × IsTaken r))

  rejected_settled : (reason message : String) → is_settled (rejected_copy pr reason message) ≡ true
  rejected_settled reason message =
      settled_of_result (rejected_copy pr reason message)
        (λ u. ground (arith, u, eq_iff result_rejected result_unknown))

  refused-IsTurnedAway :
      (reason message : String)
      → pr.spec.scheduler_name ≢ ""
      → IsRefused queues pr reason message
      → Yields IsTurnedAway (enqueue c queues (some pr) st log)
  refused-IsTurnedAway reason message named refused =
      let copy = rejected_copy pr reason message in
      rw (enqueue-rejects c queues pr st log reason message named refused) (
        yields (record {
          copy = copy;
          sent = refl;
          queues_kept = refl;
          rejected = refl;
          spec = refl;
          meta = refl;
          bindings = refl;
          finished =
              schedule_one-settled c copy (update_status copy ∷ log)
                (rejected_settled reason message);
        }))

  fitting-IsTaken :
      (cfg : QueueConfig)
      → pr.spec.scheduler_name ≢ ""
      → lookup pr.spec.scheduler_name queues ≡ some cfg
      → length pr.spec.bindings ≤ cfg.queue.max_size
      → IsOpen st (pr.spec.scheduler_name, cfg)
      → Yields IsTaken (enqueue c queues (some pr) st log)
  fitting-IsTaken cfg named found fits ((q, at, valid), small) =
      Yields-map (enqueue-accepts c queues pr st log cfg q named found fits small at valid)
        λ r (q', signals, pushed, stored, no_call). record {
          config = cfg;
          queue = q;
          known = found;
          fits = fits;
          resolves = at;
          delivered = (q', signals, pushed, stored);
          no_call = no_call;
        }

  unnamed-kept : pr.spec.scheduler_name ≡ "" → enqueue c queues (some pr) st log ≡ value (st, log)
  unfolding enqueue
  unnamed-kept e =
      let test : (pr.spec.scheduler_name == "") ≡ true = (eq_iff pr.spec.scheduler_name "").1 e in
      rw (test, enqueue) refl

  named-Answer :
      pr.spec.scheduler_name ≢ ""
      → All (IsOpen st) queues
      → Yields Answer (enqueue c queues (some pr) st log)
  named-Answer named open_ = elim (Option-cases (lookup pr.spec.scheduler_name queues)) [
    | inl absent ↦
        Yields-map (refused-IsTurnedAway _ _ named (no_queue absent))
          λ r away. inr (inl (named, inl absent, away))
    | inr (cfg, found) ↦ elim (Bool-cases (ltb cfg.queue.max_size (length pr.spec.bindings))) [
      | inl more ↦
          let over = ltb→lt _ _ more in
          Yields-map (refused-IsTurnedAway _ _ named (too_many cfg found over))
            λ r away. inr (inl (named, inr (cfg, found, over), away))
      | inr less ↦
          let fits : length pr.spec.bindings ≤ cfg.queue.max_size = ground arith in
          let place = All-lookup (IsOpen st) pr.spec.scheduler_name cfg queues open_ found in
          Yields-map (fitting-IsTaken cfg named found fits place)
            λ r taken. inr (inr (named, taken))
    ]
  ]

  -- If the pointers in the controller's map lead to valid queues, whose sizes are below 2 ^ 63,
  -- enqueue returns on every request, with one of three outcomes. A request without a scheduler's name
  -- changes nothing. One whose scheduler has no queue, or a queue too small for its bindings, is sent
  -- to the API once, rejected and with nothing but its status changed; no queue changes, and a
  -- ScheduleOne of the copy that was sent makes no call and leaves it as it is. Any other is pushed
  -- onto its scheduler's queue, and only there, and no call is made.
  pub enqueue-Answer : All (IsOpen st) queues → Yields Answer (enqueue c queues (some pr) st log)
  enqueue-Answer open_ = elim (Bool-cases (pr.spec.scheduler_name == "")) [
    | inl e ↦
        let empty_name = (eq_iff pr.spec.scheduler_name "").0 e in
        rw (unnamed-kept empty_name) (yields (inl (empty_name, refl)))
    | inr e ↦ named-Answer (λ h. let t = (eq_iff pr.spec.scheduler_name "").1 h in cc) open_
  ]

-- ===== src/Scheduler/Placed.antt =====
-- The plugin and the controller together: what Bind reports of a request that ScheduleOne has processed.
use kombiner.Prelude.{
  ℕ, ◌≡◌, ◌≢◌, ◌⊎◌, inl, inr, refl, ap, ◌∙◌, String, none, some, ◌==◌, string_eq, if◌then◌else◌,
  value,
}
use kombiner.Api.Placement.{PlacementRequest, Time, result_unknown, result_success}
use kombiner.Api.Scheduler.{PlacementRequestBinderArgs}
use kombiner.Cluster.{Cluster, Log, found}
use kombiner.Scheduler.{Pod, Framework, Session, is_resolved, bind}
use kombiner.Scheduler.Waits.{PollsUntilDone, IsWaiting, start, bind-reports}
use kombiner.Scheduler.Verdict.{IsPlaced, processed, processed-Verdict}

module _ (fw : Framework) (c : Cluster) (pod : Pod) (node : String) (created_at : Time)
    (log : Log) where
  -- Bind tells the truth: if its poll returns without an error, and the API gives the request with a
  -- result only as ScheduleOne has left it, in some run on the request that Bind created, then Bind
  -- reports success when the pod, at that run, was found free and the API took its binding to the node,
  -- or was on the node already, and otherwise reports an error; and no further call is made.
  pub bind-truth :
      (args : PlacementRequestBinderArgs) (before cleared : Log) (timeout : ℕ) (s' : Session)
      → PollsUntilDone fw
      → IsWaiting fw c args pod node before cleared timeout
      → ((older : Log) (pr : PlacementRequest)
          → c.request_of older pod.namespace pod.uid ≡ found pr
          → pr.status.result ≢ result_unknown
          → pr ≡ processed fw c pod node created_at log)
      → fw.poll timeout
          (is_resolved fw c pod.namespace pod.uid)
          (start fw c args pod node before cleared timeout)
        ≡ (none, s')
      → (IsPlaced fw c pod node created_at log
          × (bind fw c args pod node before ≡ value (fw.success "All bindings succeeded", s'.log)))
        ⊎ ((¬ IsPlaced fw c pod node created_at log)
            × (bind fw c args pod node before
                ≡ value (fw.as_status (some "All bindings failed"), s'.log)))
  bind-truth args before cleared timeout s' laws w written done =
      let (ran, known, older, given) =
        bind-reports fw c args pod node before cleared timeout s' laws w done in
      let same = written older s'.request given known in
      let status = λ (pr : PlacementRequest). value (
        (if pr.status.result == result_success
            then fw.success pr.status.message
            else fw.as_status (some (pr.status.message))),
        s'.log,
      ) in
      let answer = ran ∙ ap status same in
      elim (processed-Verdict fw c pod node created_at log) [
        | inl (placed, result, message) ↦ inl (placed, answer ∙ rw (result, message) refl)
        | inr (unplaced, result, message) ↦ inr (unplaced, answer ∙ rw (result, message) refl)
      ]

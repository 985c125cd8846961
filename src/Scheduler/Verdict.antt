-- ===== src/Scheduler/Verdict.antt =====
-- What ScheduleOne makes of the request that the plugin creates.
use Prim.Native.String.{◌++◌}
use kombiner.Prelude.{
  ◌≡◌, ◌≢◌, ◌⊎◌, inl, inr, refl, ap, ◌∙◌, subst, String, ◌∷◌, true, false, none, some, ◌==◌,
  string_eq, eq_iff, Option-cases, Bool-cases,
}
use kombiner.Api.Placement.{
  PlacementRequest, PlacementRequestResult, Time, result_success, result_failure,
}
use kombiner.Cluster
use kombiner.Cluster.{Cluster, Log, Answer, BindRequest, found, failed, get_pod}
use kombiner.Placement.{
  validate, record_result, set_pod_binding_result, set_pod_binding_failure, set_pod_binding_success,
  count_successes, assess_result,
}
use kombiner.Controller.{
  bind_request, is_settled, bind_one, bind_all, update, schedule_valid, schedule_one,
}
use kombiner.Scheduler.{Pod, Framework, request_for}

module _ (fw : Framework) (c : Cluster) (pod : Pod) (node : String) (created_at : Time)
    (log : Log) where
  -- The plugin's request as the API stores it.
  abbrev pub stored : PlacementRequest
  stored =
      let pr = request_for fw pod node in
      record pr { meta = record (pr.meta) { creation_timestamp = created_at } }

  -- The request of the binding.
  abbrev pub to_node : BindRequest
  to_node = record {
    namespace = pod.namespace;
    name = pod.name;
    uid = pod.uid;
    target_kind = "Node";
    target_name = node;
  }

  -- The pod is free and the API takes its binding to the node, or it is on the node already.
  abbrev pub GetsNode : Cluster.Pod → Type 0
  GetsNode p =
      ((p.node_name ≡ "") × (c.bind_error (get_pod pod.namespace pod.name ∷ log) to_node ≡ none))
      ⊎ ((p.node_name ≢ "") × (p.node_name ≡ node))

  -- The pod is found, and gets the node.
  abbrev pub IsPlaced : Type 0
  IsPlaced = (p : Cluster.Pod) × (c.pod_of log pod.namespace pod.name ≡ found p) × GetsNode p

  IsPlaced-GetsNode :
      (p : Cluster.Pod) → c.pod_of log pod.namespace pod.name ≡ found p → IsPlaced → GetsNode p
  IsPlaced-GetsNode p at (q, same, gets) = let e : q ≡ p = cc in subst GetsNode e gets

  abbrev pub processed : PlacementRequest
  processed = (schedule_one c stored log).1

  abbrev pub Verdict : Type 0
  Verdict =
      (IsPlaced
        × (processed.status.result ≡ result_success)
        × (processed.status.message ≡ "All bindings succeeded"))
      ⊎ ((¬ IsPlaced)
          × (processed.status.result ≡ result_failure)
          × (processed.status.message ≡ "All bindings failed"))

  Answer-cases :
      {A : Type 0} (a : Answer A) → ((err : String) × (a ≡ failed err)) ⊎ ((x : A) × (a ≡ found x))
  Answer-cases (failed err) = inl (err, refl)
  Answer-cases (found x) = inr (x, refl)

  abbrev bound : PlacementRequest
  bound =
      (bind_one c pod.namespace
        (record { pod_name = pod.name; pod_uid = pod.uid; node_name = node }) stored log).0

  abbrev with_result : PlacementRequestResult → String → String → PlacementRequest
  with_result result reason msg =
      set_pod_binding_result stored
        (record { pod_name = pod.name; pod_uid = pod.uid; node_name = node }) result reason msg

  -- What ScheduleOne records for the pod.
  abbrev Recorded : PlacementRequest → Type 0
  Recorded pr =
      (reason : String) × (msg : String) × ((IsPlaced
          × (pr ≡ with_result result_success reason msg))
        ⊎ ((¬ IsPlaced) × (pr ≡ with_result result_failure reason msg)))

  bind_free :
      (p : Cluster.Pod)
      → c.pod_of log pod.namespace pod.name ≡ found p
      → (p.node_name == "") ≡ true
      → Recorded bound
  unfolding bind_one bind_request set_pod_binding_failure set_pod_binding_success
  bind_free p at free =
      let name_empty = (eq_iff (p.node_name) "").0 free in
      elim (Option-cases (c.bind_error (get_pod pod.namespace pod.name ∷ log) to_node)) [
        | inl taken ↦ (
          "Binding successful",
          "Pod successfully bound",
          inl ((p, at, inl (name_empty, taken)), (rw (at, free, taken, bound, bind_one) refl)),
        )
        | inr (err, denied) ↦ (
          "API denied binding",
          err,
          inr (
            (λ placed. free_denied err denied name_empty (IsPlaced-GetsNode p at placed)),
            (rw (at, free, denied, bound, bind_one) refl),
          ),
        )
      ]
    where
      free_denied :
          (err : String)
          → c.bind_error (get_pod pod.namespace pod.name ∷ log) to_node ≡ some err
          → p.node_name ≡ ""
          → ¬ GetsNode p
      free_denied err denied name_empty (inl (e, taken)) = cc
      free_denied err denied name_empty (inr (busy, here)) = busy name_empty

  bind_busy :
      (p : Cluster.Pod)
      → c.pod_of log pod.namespace pod.name ≡ found p
      → (p.node_name == "") ≡ false
      → Recorded bound
  unfolding bind_one bind_request set_pod_binding_failure set_pod_binding_success
  bind_busy p at busy = elim (Bool-cases (p.node_name == node)) [
    | inl here ↦ (
      "Binding unneeded",
      "Pod was already bound",
      inl (
        (p, at, inr (named, (eq_iff (p.node_name) node).0 here)),
        (rw (at, busy, here, bound, bind_one) refl),
      ),
    )
    | inr there ↦ (
      "Pod already bound",
      "Pod " ++ pod.name ++ " bound to a different node node",
      inr (
        (λ placed. elsewhere there (IsPlaced-GetsNode p at placed)),
        (rw (at, busy, there, bound, bind_one) refl),
      ),
    )
  ]
    where
      named : p.node_name ≢ ""
      named = λ e. absurd (let t = (eq_iff (p.node_name) "").1 e in cc)

      elsewhere : (p.node_name == node) ≡ false → ¬ GetsNode p
      elsewhere there (inl (e, taken)) = named e
      elsewhere there (inr (n, here)) = let t = (eq_iff (p.node_name) node).1 here in cc

  bound-Recorded : Recorded bound
  unfolding bind_one set_pod_binding_failure
  bound-Recorded = elim (Answer-cases (c.pod_of log pod.namespace pod.name)) [
    | inl (err, missing) ↦ (
      "API error",
      "Failed to get pod " ++ pod.name ++ ": " ++ err,
      inr ((λ (p, at, rest). cc), (rw (missing, bound, bind_one) refl)),
    )
    | inr (p, at) ↦ elim (Bool-cases (p.node_name == "")) [
      | inl free ↦ bind_free p at free
      | inr busy ↦ bind_busy p at busy
    ]
  ]

  processed_lem :
      (processed.status.result ≡ (assess_result bound).0)
      × (processed.status.message ≡ (assess_result bound).1)
  unfolding schedule_one schedule_valid is_settled validate update bind_all request_for
  processed_lem = (refl, refl)

  pub processed-Verdict : Verdict
  unfolding request_for set_pod_binding_result record_result assess_result count_successes
  processed-Verdict =
      let (result, message) = processed_lem in
      let (reason, msg, recorded) = bound-Recorded in
      elim recorded [
        | inl (placed, e) ↦ inl (
          placed,
          result ∙ ap (λ pr. (assess_result pr).0) e,
          message ∙ ap (λ pr. (assess_result pr).1) e,
        )
        | inr (not_placed, e) ↦ inr (
          not_placed,
          result ∙ ap (λ pr. (assess_result pr).0) e,
          message ∙ ap (λ pr. (assess_result pr).1) e,
        )
      ]

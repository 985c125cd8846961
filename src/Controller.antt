-- ===== src/Controller.antt =====
-- pkg/controller/controller.go: ScheduleOne, enqueue and TryToRejectPlacementRequest. The request that
-- is written through its pointer is returned; logging and the rejection's timeout are left out.
mod Tests
pub mod Bindings
pub mod Records
pub mod Schedule
pub mod Safety
pub mod Enqueue
pub mod New
use Prim.Native.String.{◌++◌}
use kombiner.Prelude.{
  ℕ, ◌^◌, String, List, [], ◌∷◌, Bool, true, false, not, ◌||◌, Option, none, some, leb, ltb, ◌==◌,
  nat_eq, string_eq, if◌then◌else◌, length, Outcome, value, ◌>>=◌,
}
use kombiner.Api.Placement.{PlacementRequest, Binding, result_unknown, result_rejected}
use kombiner.Placement
use kombiner.Cluster.{
  Cluster, Log, Call, BindRequest, Answer, found, failed, get_pod, bind_pod, update_status,
}
use kombiner.Queue.Store.{Store, queue_push}
use kombiner.Queue.Config.{QueueConfig, lookup}

unfoldable pub bind_request : String → Binding → BindRequest
bind_request namespace b = record {
  namespace = namespace;
  name = b.pod_name;
  uid = b.pod_uid;
  target_kind = "Node";
  target_name = b.node_name;
}

-- Is the request deleted, or its result known?
unfoldable pub is_settled : PlacementRequest → Bool
is_settled pr =
    elim pr.meta.deletion_timestamp [ none ↦ false | some _ ↦ true ]
    || not (pr.status.result == result_unknown)

-- `n > int(max)`: a uint from 2 ^ 63 on is a negative int.
unfoldable pub too_large : ℕ → ℕ → Bool
too_large n max_size = leb (2 ^ 63) max_size || ltb max_size n

-- fmt.Errorf around the error of the last update.
abbrev pub wrap_update : Option String → Option String
wrap_update none = none
wrap_update (some err) = some ("failed to update placement request status: " ++ err)

module _ (c : Cluster) where
  -- One round of the loop over the bindings, in the request's namespace.
  unfoldable pub bind_one : String → Binding → PlacementRequest → Log → PlacementRequest × Log
  unfolding bind_request
  bind_one namespace b pr log =
      let looked = get_pod namespace b.pod_name ∷ log in
      let request = bind_request namespace b in
      let bound = bind_pod request ∷ looked in
      elim (c.pod_of log namespace b.pod_name) [
        | failed err ↦
            let message = "Failed to get pod " ++ b.pod_name ++ ": " ++ err in
            (Placement.set_pod_binding_failure pr b "API error" message, looked)
        | found pod ↦
            if pod.node_name == ""
            then elim (c.bind_error looked request) [
              | some err ↦ (Placement.set_pod_binding_failure pr b "API denied binding" err, bound)
              | none ↦ (
                Placement.set_pod_binding_success pr b "Binding successful"
                    "Pod successfully bound",
                bound,
              )
            ]
            else if pod.node_name == b.node_name
            then (
              Placement.set_pod_binding_success pr b "Binding unneeded" "Pod was already bound",
              looked,
            )
            else let message = "Pod " ++ b.pod_name ++ " bound to a different node node" in
              (Placement.set_pod_binding_failure pr b "Pod already bound" message, looked)
      ]

  unfoldable pub bind_all : String → List Binding → PlacementRequest → Log → PlacementRequest × Log
  bind_all namespace [] pr log = (pr, log)
  bind_all namespace (b ∷ bs) pr log =
      let (pr', log') = bind_one namespace b pr log in bind_all namespace bs pr' log'

  -- UpdateStatus.
  unfoldable pub update : PlacementRequest → Log → Option String × Log
  update pr log = (c.update_error log pr, update_status pr ∷ log)

  unfoldable pub schedule_valid : PlacementRequest → Log → Option String × PlacementRequest × Log
  unfolding update
  schedule_valid pr log =
      let (pr1, log1) = bind_all pr.meta.namespace pr.spec.bindings pr log in
      let (result, message) = Placement.assess_result pr1 in
      let pr2 = record pr1 {
        status = record (pr1.status) { result = result; message = message };
      } in
      let (err, log2) = update pr2 log1 in (wrap_update err, pr2, log2)

  unfoldable pub schedule_one : PlacementRequest → Log → Option String × PlacementRequest × Log
  unfolding schedule_valid is_settled update
  schedule_one pr log = if is_settled pr then (none, pr, log) else elim (Placement.validate pr) [
    | some text ↦
        let status = record (pr.status) { result = result_rejected; message = text } in
        let pr1 = record pr { status = status } in
        let (err, log1) = update pr1 log in (err, pr1, log1)
    | none ↦ schedule_valid pr log
  ]

  -- The error of UpdateStatus is only logged.
  unfoldable pub try_to_reject_placement_request :
      PlacementRequest → String → String → Log → PlacementRequest × Log
  unfolding update
  try_to_reject_placement_request pr reason message log =
      let status = record (pr.status) {
        result = result_rejected;
        reason = reason;
        message = message;
      } in
      let pr1 = record pr { status = status } in (pr1, (update pr1 log).1)

  module _ {S : Type 0} where
    -- An object of another type is `none`. The controller's map of queues is `queues`.
    unfoldable pub enqueue :
        List (String × QueueConfig)
        → Option PlacementRequest
        → Store S
        → Log
        → Outcome (Store S × Log)
    unfolding try_to_reject_placement_request lookup too_large
    enqueue queues none st log = value (st, log)
    enqueue queues (some pr) st log =
        if pr.spec.scheduler_name == ""
        then value (st, log)
        else elim (lookup pr.spec.scheduler_name queues) [
          | none ↦ value (
            st,
            (try_to_reject_placement_request pr "QueueNotFound" "Scheduler queue not found" log).1,
          )
          | some qcfg ↦
              if too_large (length pr.spec.bindings) qcfg.queue.max_size
              then value (
                st,
                (try_to_reject_placement_request pr "PlacementRequestTooLarge"
                    "Placement request too large" log).1,
              )
              else (queue_push st qcfg.queue_ref (some pr) >>= λ st'. value (st', log))
        ]

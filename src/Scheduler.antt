-- ===== src/Scheduler.antt =====
-- pkg/scheduler/bind-plugin.go: the plugin that creates a PlacementRequest for a pod and waits for its
-- result. Framework statuses, the poll loop of the wait package and two constants of the Kubernetes
-- API are parameters. Logging is left out.
pub mod Waits
pub mod Verdict
pub mod Placed
pub mod Requests
mod Tests
use Prim.Native.String.{◌++◌}
use kombiner.Prelude.{
  ℕ, String, List, [], ◌∷◌, Bool, true, false, Option, none, some, ◌==◌, string_eq, if◌then◌else◌,
  Outcome, value, panic, ◌>>=◌, or_panic,
}
use kombiner.Api.Placement.{PlacementRequest, Time, policy_lenient, result_unknown, result_success}
use kombiner.Api.Scheduler.{PlacementRequestBinderArgs, Object, internal, set_defaults}
use kombiner.Cluster.{
  Cluster, Log, Call, Answer, found, failed, get_request, create_request, delete_request,
}

-- Of a v1.Pod the fields that Bind reads.
pub record Pod : Type 0 where
  pub uid : String
  pub namespace : String
  pub name : String
  pub scheduler_name : String

-- What the closure of the poll writes: the calls made, and the variable `pr`.
pub record Session : Type 0 where
  pub log : Log
  pub request : PlacementRequest

-- A poll's condition: done or not, with an error.
abbrev pub Condition : Type 0
Condition = Session → (Bool × Option String) × Session

-- The package's parameters: `poll` takes a timeout.
pub record Framework : Type 1 where
  pub Status : Type 0
  pub as_status : Option String → Status
  pub success : String → Status
  pub poll : ℕ → Condition → Session → Option String × Session
  pub default_scheduler_name : String
  pub core_version : String
  pub zero_time : Time

-- What one answer means to the poll.
unfoldable pub judge : Session → Log → Answer PlacementRequest → (Bool × Option String) × Session
judge s calls (failed err) = ((false, some err), record s { log = calls })
judge s calls (found pr) =
    if pr.status.result == result_unknown
    then ((false, none), record { log = calls; request = pr })
    else ((true, none), record { log = calls; request = pr })

module _ (fw : Framework) where
  unfoldable pub scheduler_of : Pod → String
  scheduler_of pod =
      if pod.scheduler_name == "" then fw.default_scheduler_name else pod.scheduler_name

  unfoldable pub request_for : Pod → String → PlacementRequest
  unfolding scheduler_of
  request_for pod node = record {
    meta = record {
      name = pod.uid;
      namespace = pod.namespace;
      creation_timestamp = fw.zero_time;
      deletion_timestamp = none;
      owner_references =
          record { api_version = fw.core_version; kind = "Pod"; name = pod.name; uid = pod.uid }
          ∷ [];
    };
    spec = record {
      policy = policy_lenient;
      priority = 0;
      scheduler_name = scheduler_of pod;
      bindings = record { pod_name = pod.name; pod_uid = pod.uid; node_name = node } ∷ [];
    };
    status = record { result = result_unknown; reason = ""; message = ""; bindings = [] };
  }

  module _ (c : Cluster) where
    -- The condition of the poll.
    unfoldable pub is_resolved : String → String → Condition
    unfolding judge
    is_resolved namespace name s =
        judge s (get_request namespace name ∷ s.log) (c.request_of s.log namespace name)

    -- An existing request of that name is deleted. The first part is the error that ends Bind.
    unfoldable pub delete_existing : String → String → Log → Option String × Log
    delete_existing namespace name log =
        let looked = get_request namespace name ∷ log in
        elim (c.request_of log namespace name) [
          | failed _ ↦ (none, looked)
          | found _ ↦ (c.delete_error looked namespace name, delete_request namespace name ∷ looked)
        ]

    -- What Bind makes of the poll's error: a resolved request is reported, any other is deleted.
    unfoldable pub report : String → String → Option String × Session → fw.Status × Log
    report namespace name (some _, s) =
        (fw.as_status (c.delete_error s.log namespace name), delete_request namespace name ∷ s.log)
    report namespace name (none, s) = (
      (if s.request.status.result == result_success
          then fw.success s.request.status.message
          else fw.as_status (some (s.request.status.message))),
      s.log,
    )

    -- From the poll on.
    unfoldable pub wait_for : String → String → ℕ → Session → fw.Status × Log
    unfolding is_resolved report
    wait_for namespace name timeout s =
        report namespace name (fw.poll timeout (is_resolved namespace name) s)

    -- A nil timeout is a panic.
    unfoldable pub submit :
        PlacementRequestBinderArgs → PlacementRequest → Log → Outcome (fw.Status × Log)
    unfolding wait_for
    submit args pr log =
        let created = create_request pr ∷ log in
        elim (c.create_error log pr) [
          | some err ↦ value (fw.as_status (some err), created)
          | none ↦ or_panic args.timeout >>= λ timeout. value (
              wait_for pr.meta.namespace pr.meta.name timeout
                (record { log = created; request = pr }))
        ]

    -- A failed deletion ends Bind.
    unfoldable pub create_after :
        PlacementRequestBinderArgs
        → PlacementRequest
        → Option String × Log
        → Outcome (fw.Status × Log)
    create_after args pr (some text, log) = value (fw.as_status (some text), log)
    create_after args pr (none, log) = submit args pr log

    unfoldable pub bind :
        PlacementRequestBinderArgs → Pod → String → Log → Outcome (fw.Status × Log)
    unfolding delete_existing create_after submit request_for
    bind args pod node log =
        if pod.uid == ""
        then value (
          fw.as_status (some ("pod " ++ pod.namespace ++ "/" ++ pod.name ++ " is missing its UID")),
          log,
        )
        else create_after args (request_for pod node) (delete_existing pod.namespace pod.uid log)

-- The arguments that NewBindPlugin keeps; `%T` and the client set are left out.
unfoldable pub plugin_args : Object → Option PlacementRequestBinderArgs
unfolding set_defaults
plugin_args (internal args) = some (set_defaults args)
plugin_args _ = none

-- ===== src/Scheduler/Tests.antt =====
-- The plugin against small clusters, with a poll of one round, and the theorems at concrete inputs.
use kombiner.Prelude.{
  ◌⊎◌, sym, ◌∙◌, ◌≡◌, ◌≢◌, refl, String, [], ◌∷◌, Bool, true, false, Option, none, some, arith,
  string_eq, eq_iff, value,
}
use kombiner.Api.Placement.{PlacementRequest, Time, result_unknown}
use kombiner.Api.Scheduler.{PlacementRequestBinderArgs, internal}
use kombiner.Placement.{validate}
use kombiner.Placement.{
  record_result, set_pod_binding_result, set_pod_binding_success, count_successes, assess_result,
}
use kombiner.Controller.{
  is_settled, bind_request, bind_one, bind_all, update, schedule_valid, schedule_one,
}
use kombiner.Scheduler.Verdict.{IsPlaced, processed}
use kombiner.Scheduler.Placed.{bind-truth}
use kombiner.Cluster.{Cluster, Log, found, failed, create_request, get_request, delete_request}
use kombiner.Scheduler.{
  Pod, Framework, Session, request_for, delete_existing, is_resolved, bind, plugin_args,
}
use kombiner.Scheduler.Requests.{bind-value}
use kombiner.Scheduler.Waits.{first, PollsUntilDone, IsWaiting, bind-reports, bind-forgets_error}

poll_once : (Bool × Option String) × Session → Option String × Session
poll_once ((true, none), s) = (none, s)
poll_once ((false, none), s) = (some "timed out", s)
poll_once ((_, some err), s) = (some err, s)

poll_once-none :
    (r : (Bool × Option String) × Session) (s' : Session)
    → poll_once r ≡ (none, s')
    → r ≡ ((true, none), s')
unfolding poll_once
poll_once-none ((true, none), s) s' e = ground arith
poll_once-none ((false, none), s) s' e = absurd (ground arith)
poll_once-none ((true, some err), s) s' e = absurd (ground arith)
poll_once-none ((false, some err), s) s' e = absurd (ground arith)

abbrev never : Time
never = record { seconds = 0; nanoseconds = 0 }

abbrev framework : Framework
framework = record {
  Status = Option String;
  as_status = λ err. err;
  success = λ message. none;
  poll = λ timeout f s. poll_once (f s);
  default_scheduler_name = "default-scheduler";
  core_version = "v1";
  zero_time = never;
}

framework-polls : PollsUntilDone framework
framework-polls timeout f s s' e = (s, first, poll_once-none (f s) s' e)

abbrev pod : Pod
pod = record { uid = "u"; namespace = "default"; name = "p"; scheduler_name = "" }

abbrev args : PlacementRequestBinderArgs
args = record { type_meta = record { kind = ""; api_version = "" }; timeout = some 5 }

abbrev stored : String → PlacementRequest
stored result =
    let pr = request_for framework pod "node" in
    record pr { status = record { result = result; reason = ""; message = "m"; bindings = [] } }

-- No request exists at first; the poll reads one with the given result.
abbrev cluster : String → Cluster
cluster result = record {
  pod_of = λ log namespace name. found (record { node_name = "" });
  bind_error = λ log r. none;
  update_error = λ log pr. none;
  request_of =
      λ log namespace name. elim log [ [] ↦ failed "not found" | _ ∷ _ ↦ found (stored result) ];
  create_error = λ log pr. none;
  delete_error = λ log namespace name. none;
}

abbrev begun : Log
begun = get_request "default" "u" ∷ []

abbrev ended : String → Session
ended result = record {
  log = get_request "default" "u" ∷ create_request (request_for framework pod "node") ∷ begun;
  request = stored result;
}

waiting : (result : String) → IsWaiting framework (cluster result) args pod "node" [] begun 5
unfolding delete_existing
waiting result = record {
  named = ground (arith, eq_iff "u" "");
  cleared = refl;
  created = refl;
  bounded = refl;
}

bind-value_example :
    (r : Option String × Log) × (bind framework (cluster "Success") args pod "node" [] ≡ value r)
unfolding plugin_args
bind-value_example =
    bind-value framework (cluster "Success") (internal args) args pod "node" [] refl

bind-reports_example :
    (bind framework (cluster "Failure") args pod "node" []
      ≡ value (some "m", (ended "Failure").log))
    × ("Failure" ≢ result_unknown)
    × (older : Log) × ((cluster "Failure").request_of older "default" "u"
        ≡ found (stored "Failure"))
unfolding is_resolved poll_once
bind-reports_example =
    bind-reports framework (cluster "Failure") args pod "node" [] begun 5 (ended "Failure")
      framework-polls (waiting "Failure") refl

bind-forgets_error_example :
    bind framework (cluster "") args pod "node" []
    ≡ value (none, delete_request "default" "u" ∷ (ended "").log)
unfolding is_resolved poll_once
bind-forgets_error_example =
    bind-forgets_error framework (cluster "") args pod "node" [] begun 5 "timed out" (ended "")
      (waiting "") refl refl

-- The request as the controller leaves it, on a cluster that takes the binding.
abbrev final : PlacementRequest
final =
    let pr = request_for framework pod "node" in
    record pr {
      status = record {
        result = "Success";
        reason = "";
        message = "All bindings succeeded";
        bindings =
            record {
              binding = record { pod_name = "p"; pod_uid = "u"; node_name = "node" };
              result = "Success";
              reason = "Binding successful";
              message = "Pod successfully bound";
            }
            ∷ [];
      };
    }

abbrev placing : Cluster
placing = record (cluster "") {
  request_of = λ log namespace name. elim log [ [] ↦ failed "not found" | _ ∷ _ ↦ found final ];
}

final_processed : final ≡ processed framework placing pod "node" never []
unfolding schedule_one schedule_valid is_settled validate update bind_all bind_one bind_request
    request_for set_pod_binding_success set_pod_binding_result record_result assess_result
    count_successes
final_processed = refl

as_left :
    (older : Log) (pr : PlacementRequest)
    → placing.request_of older "default" "u" ≡ found pr
    → pr.status.result ≢ result_unknown
    → pr ≡ processed framework placing pod "node" never []
as_left [] pr e known = absurd (cc)
as_left (call ∷ calls) pr e known = let same : final ≡ pr = cc in sym same ∙ final_processed

placing_waits : IsWaiting framework placing args pod "node" [] begun 5
unfolding delete_existing
placing_waits = record {
  named = ground (arith, eq_iff "u" "");
  cleared = refl;
  created = refl;
  bounded = refl;
}

bind-truth_example :
    (IsPlaced framework placing pod "node" never []
      × (bind framework placing args pod "node" [] ≡ value (none, (ended "").log)))
    ⊎ ((¬ IsPlaced framework placing pod "node" never [])
        × (bind framework placing args pod "node" []
            ≡ value (some "All bindings failed", (ended "").log)))
unfolding is_resolved poll_once
bind-truth_example =
    bind-truth framework placing pod "node" never [] args [] begun 5
      (record { log = (ended "").log; request = final }) framework-polls placing_waits as_left refl

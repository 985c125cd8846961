-- ===== src/Controller/Tests.antt =====
-- Runs of the controller against small clusters, and the theorems at concrete inputs.
use kombiner.Prelude.{ℕ, ◌+◌, ◌≡◌, ◌≢◌, refl, String, [], ◌∷◌, none, some, arith, eq_iff, Yields}
use kombiner.Api.Placement.{Binding, PlacementRequest, policy_lenient, policy_all_or_nothing}
use kombiner.Placement.{
  validate, assess_result, decimal, set_pod_binding_success, set_pod_binding_failure,
  set_pod_binding_result, record_result, count_successes,
}
use kombiner.Cluster.{Cluster, Log, found, failed, update_status}
use kombiner.Controller.{is_settled, schedule_one, bind_all, bind_one, enqueue, wrap_update}
use kombiner.Controller.Bindings.{LoopInv}
use kombiner.Controller.Records.{Recorded}
use kombiner.Controller.Schedule.{Assessed, schedule_one-completes}
use kombiner.Controller.Safety.{schedule_one-once, schedule_one-LoopInv}
use kombiner.Controller.Enqueue.{enqueue-accepts}
use kombiner.Controller.Enqueue.Answers.{Answer, enqueue-Answer}
use kombiner.Queue.Store.{Store, write}
use kombiner.Queue.Config.{QueueConfig, lookup}
use kombiner.Queue.PlacementRequest.{PlacementRequestQueue}
use kombiner.Queue.PlacementRequest.Contents.{Pushed}

abbrev binding : String → Binding
binding name = record { pod_name = name; pod_uid = name; node_name = "node" }

abbrev request : String → PlacementRequest
request policy = record {
  meta = record {
    name = "r";
    namespace = "default";
    creation_timestamp = record { seconds = 20; nanoseconds = 0 };
    deletion_timestamp = none;
    owner_references = [];
  };
  spec = record {
    policy = policy;
    priority = 0;
    scheduler_name = "a";
    bindings = binding "p" ∷ binding "q" ∷ [];
  };
  status = record { result = ""; reason = ""; message = ""; bindings = [] };
}

-- Every pod is unbound; the first bind request is accepted, the others are denied.
abbrev cluster : Cluster
cluster = record {
  pod_of = λ log namespace name. found (record { node_name = "" });
  bind_error = λ log r. elim log [
    | [] ↦ some "no"
    | _ ∷ older ↦ elim older [ [] ↦ none | _ ∷ _ ↦ some "no" ]
  ];
  update_error = λ log pr. none;
  request_of = λ log namespace name. failed "not found";
  create_error = λ log pr. none;
  delete_error = λ log namespace name. none;
}

half_bound :
    (schedule_one cluster (request policy_lenient) []).1.status.message
    ≡ "1 of 2 bindings succeeded"
unfolding schedule_one bind_all bind_one validate assess_result decimal set_pod_binding_success
    set_pod_binding_failure set_pod_binding_result record_result count_successes
half_bound = refl

abbrev lenient : PlacementRequest
lenient = request policy_lenient

abbrev strict : PlacementRequest
strict = request policy_all_or_nothing

schedule_one-completes_example :
    let r = schedule_one cluster lenient [] in
    Recorded lenient.spec.bindings lenient r.1
    × Assessed cluster lenient [] r.1
    × (older : Log) × (r.2 ≡ update_status r.1 ∷ older)
    × (r.0 ≡ wrap_update (cluster.update_error older r.1))
unfolding is_settled validate
schedule_one-completes_example = schedule_one-completes cluster lenient [] refl refl

schedule_one-once_example :
    let r = schedule_one cluster lenient [] in schedule_one cluster r.1 r.2 ≡ (none, r.1, r.2)
schedule_one-once_example = schedule_one-once cluster lenient []

schedule_one-LoopInv_example :
    let r = schedule_one cluster lenient [] in LoopInv cluster "default" r.1 r.2
schedule_one-LoopInv_example =
    schedule_one-LoopInv cluster lenient [] (record { backed = tt; unbound = tt })

abbrev queue_config : QueueConfig
queue_config = record {
  queue = record {
    scheduler_name = "a";
    weight = 1;
    max_size = 9;
    plugins = record { validate = record { enabled = []; disabled = [] } };
  };
  queue_ref = some 0;
}

abbrev idle_queue : PlacementRequestQueue ℕ
idle_queue = record { queue = record { items = [] }; push_handlers = (λ n. n + 1) ∷ [] }

abbrev store : Store ℕ
store = record { queues = idle_queue ∷ []; signals = 0 }

named : ◌≢◌ {A = String} "a" ""
named = ground (arith, eq_iff "a" "")

enqueue-Answer_example :
    Yields
      (Answer cluster (("a", queue_config) ∷ []) lenient store [])
      (enqueue cluster (("a", queue_config) ∷ []) (some lenient) store [])
enqueue-Answer_example =
    enqueue-Answer cluster (("a", queue_config) ∷ []) lenient store []
      (((idle_queue, refl, (λ c a b. absurd (omega arith))), omega arith), tt)

enqueue-accepts_example :
    Yields
      (λ r.
        (q' : PlacementRequestQueue ℕ) × (signals : ℕ) × Pushed idle_queue lenient 0 (q', signals)
        × (r.0 ≡ record (write store (some 0) q') { signals = signals })
        × (r.1 ≡ []))
      (enqueue cluster (("a", queue_config) ∷ []) (some lenient) store [])
unfolding lookup
enqueue-accepts_example =
    enqueue-accepts cluster (("a", queue_config) ∷ []) lenient store [] queue_config idle_queue
      named refl (omega arith) (omega arith) refl (λ c a b. absurd (omega arith))

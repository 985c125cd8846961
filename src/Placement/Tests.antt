-- ===== src/Placement/Tests.antt =====
-- Runs of the helpers on small requests, and the theorems at concrete inputs.
use kombiner.Prelude.{◌≡◌, ◌≢◌, ◌↔◌, refl, String, [], ◌∷◌, some, none, string_eq, All}
use kombiner.Api.Placement.{
  Binding, PlacementRequest, PlacementRequestBindingResult, policy_lenient, result_success,
  result_failure, result_rejected, result_partial_success, result_unknown,
}
use kombiner.Placement.{decimal, assess_result, set_pod_binding_result}
use kombiner.Placement.Results.{result_of, result_of-set_pod_binding_result}
use kombiner.Placement.Assess.{Succeeded, DidNotSucceed, assess_result_verdict}

decimal_runs : (decimal 0 ≡ "0") × (decimal 7 ≡ "7") × (decimal 1203 ≡ "1203")
unfolding decimal
decimal_runs = (refl, refl, refl)

abbrev binding : String → Binding
binding name = record { pod_name = name; pod_uid = name; node_name = "node" }

abbrev done : String → PlacementRequestBindingResult
done name = record { binding = binding name; result = result_success; reason = ""; message = "" }

abbrev request : PlacementRequest
request = record {
  meta = record {
    name = "r";
    namespace = "default";
    creation_timestamp = record { seconds = 20; nanoseconds = 0 };
    deletion_timestamp = none;
    owner_references = [];
  };
  spec = record {
    policy = policy_lenient;
    priority = 0;
    scheduler_name = "a";
    bindings = binding "p" ∷ binding "q" ∷ [];
  };
  status = record { result = ""; reason = ""; message = ""; bindings = done "p" ∷ [] };
}

result_of-set_pod_binding_result_example :
    result_of "q"
      (set_pod_binding_result request (binding "q") result_failure "x" "y").status.bindings
    ≡ some (record { binding = binding "q"; result = result_failure; reason = "x"; message = "y" })
result_of-set_pod_binding_result_example =
    result_of-set_pod_binding_result "q" request (binding "q") result_failure "x" "y"

assess_result_verdict_example :
    let outcome = (assess_result request).0 in
    let bs = request.status.bindings in
    ((outcome ≡ result_rejected) ↔ (bs ≡ []))
    × ((outcome ≡ result_failure) ↔ ((bs ≢ []) × All DidNotSucceed bs))
    × ((outcome ≡ result_success) ↔ ((bs ≢ []) × All Succeeded bs))
    × ((outcome ≡ result_partial_success) ↔ ((¬ All Succeeded bs) × (¬ All DidNotSucceed bs)))
    × (outcome ≢ result_unknown)
assess_result_verdict_example = assess_result_verdict request

-- ===== src/Placement.antt =====
-- pkg/placementrequests/v1alpha1/placementrequests.go: the helpers on placement requests.
-- A pointer that is written through becomes a returned record; `error` is Option of its text.
pub mod Results
pub mod Assess
mod Tests
use Prim.Native.String.{◌++◌}
use kombiner.Prelude.{
  ℕ, zero, suc, ◌/◌, ◌%◌, String, List, [], ◌∷◌, Option, none, some, ltb, ◌==◌, nat_eq, string_eq,
  if◌then◌else◌, length,
}
use kombiner.Api.Placement.{
  PlacementRequest, PlacementRequestResult, PlacementRequestBindingResult, Binding, policy_lenient,
  result_success, result_failure, result_partial_success, result_rejected,
}

unfoldable pub validate : PlacementRequest → Option String
validate pr =
    if length pr.spec.bindings == 0
    then some "the placement request has no bindings"
    else if pr.spec.policy == policy_lenient
    then none
    else some ("unsupported policy: " ++ pr.spec.policy)

-- The loop of SetPodBindingResult over the recorded results.
unfoldable pub record_result :
    List PlacementRequestBindingResult
    → PlacementRequestBindingResult
    → List PlacementRequestBindingResult
record_result [] r = r ∷ []
record_result (b ∷ bs) r =
    if b.binding.pod_uid == r.binding.pod_uid then r ∷ bs else b ∷ record_result bs r

unfoldable pub set_pod_binding_result :
    PlacementRequest → Binding → PlacementRequestResult → String → String → PlacementRequest
set_pod_binding_result pr bind result reason msg =
    let r : PlacementRequestBindingResult = record {
      binding = bind;
      result = result;
      reason = reason;
      message = msg;
    } in
    let bindings = record_result pr.status.bindings r in
    record pr { status = record (pr.status) { bindings = bindings } }

unfoldable pub set_pod_binding_failure :
    PlacementRequest → Binding → String → String → PlacementRequest
set_pod_binding_failure pr bind reason msg =
    set_pod_binding_result pr bind result_failure reason msg

unfoldable pub set_pod_binding_success :
    PlacementRequest → Binding → String → String → PlacementRequest
set_pod_binding_success pr bind reason msg =
    set_pod_binding_result pr bind result_success reason msg

-- The counting loop of AssessResult.
unfoldable pub count_successes : List PlacementRequestBindingResult → ℕ
count_successes [] = 0
count_successes (b ∷ bs) =
    if b.result == result_success then suc (count_successes bs) else count_successes bs

-- The verb %d on a count: decimal digits, most significant first.
abbrev digit : ℕ → String
digit n =
    if n == 0
    then "0"
    else if n == 1
    then "1"
    else if n == 2
    then "2"
    else if n == 3
    then "3"
    else if n == 4
    then "4"
    else if n == 5
    then "5"
    else if n == 6
    then "6"
    else if n == 7
    then "7"
    else if n == 8
    then "8"
    else "9"

decimal_loop : ℕ → ℕ → String
decimal_loop zero n = digit (n % 10)
decimal_loop (suc k) n =
    let more = decimal_loop k (n / 10) ++ digit (n % 10) in if ltb n 10 then digit n else more

unfoldable pub decimal : ℕ → String
unfolding decimal_loop
decimal n = decimal_loop n n

unfoldable pub assess_result : PlacementRequest → PlacementRequestResult × String
assess_result pr =
    let total = length pr.status.bindings in
    let successes = count_successes pr.status.bindings in
    if total == 0
    then (result_rejected, "No bindings")
    else if successes == 0
    then (result_failure, "All bindings failed")
    else if successes == total
    then (result_success, "All bindings succeeded")
    else (
      result_partial_success,
      decimal successes ++ " of " ++ decimal total ++ " bindings succeeded",
    )

-- ===== src/Placement/Results.antt =====
-- What SetPodBindingResult does to the recorded results: one result for each pod, the last one set.
use kombiner.Prelude.{
  ◌+◌, String, List, [], ◌∷◌, Option, none, some, ◌≡◌, refl, arith, ◌==◌, nat_eq, string_eq, eq_iff,
  if◌then◌else◌, length, Bool-cases, inl, inr, true, false, Bool,
}
use kombiner.Api.Placement.{
  PlacementRequest, PlacementRequestResult, PlacementRequestBindingResult, Binding,
}
use kombiner.Placement.{record_result, set_pod_binding_result}

-- The result recorded for a pod.
abbrev pub result_of :
    String → List PlacementRequestBindingResult → Option PlacementRequestBindingResult
result_of uid [] = none
result_of uid (b ∷ bs) = if b.binding.pod_uid == uid then some b else result_of uid bs

-- No pod has two recorded results.
abbrev pub HasDistinctPods : List PlacementRequestBindingResult → Type 0
HasDistinctPods [] = Unit
HasDistinctPods (b ∷ bs) = (result_of b.binding.pod_uid bs ≡ none) × HasDistinctPods bs

abbrev pub is_recorded : Option PlacementRequestBindingResult → Bool
is_recorded none = false
is_recorded (some _) = true

pub result_of-record_result :
    (uid : String) (bs : List PlacementRequestBindingResult) (r : PlacementRequestBindingResult)
    → result_of uid (record_result bs r)
      ≡ (if r.binding.pod_uid == uid then some r else result_of uid bs)
unfolding record_result
result_of-record_result uid [] r = refl
result_of-record_result uid (b ∷ bs) r = ground (
  arith,
  eq_iff r.binding.pod_uid uid,
  eq_iff b.binding.pod_uid uid,
  eq_iff b.binding.pod_uid r.binding.pod_uid,
  result_of-record_result uid bs r,
)

pub record_result-HasDistinctPods :
    (bs : List PlacementRequestBindingResult) (r : PlacementRequestBindingResult)
    → HasDistinctPods bs
    → HasDistinctPods (record_result bs r)
unfolding record_result
record_result-HasDistinctPods [] r d = (refl, tt)
record_result-HasDistinctPods (b ∷ bs) r d =
    elim (Bool-cases (b.binding.pod_uid == r.binding.pod_uid)) [
      | inl same ↦ rw same (ground (arith, eq_iff b.binding.pod_uid r.binding.pod_uid), d.1)
      | inr other ↦ rw other (
        ground (
          arith,
          eq_iff b.binding.pod_uid r.binding.pod_uid,
          eq_iff r.binding.pod_uid b.binding.pod_uid,
          result_of-record_result b.binding.pod_uid bs r,
        ),
        record_result-HasDistinctPods bs r d.1,
      )
    ]

pub length-record_result :
    (bs : List PlacementRequestBindingResult) (r : PlacementRequestBindingResult)
    → length (record_result bs r)
      ≡ (if is_recorded (result_of r.binding.pod_uid bs) then length bs else length bs + 1)
unfolding record_result
length-record_result [] r = refl
length-record_result (b ∷ bs) r = ground (arith, length-record_result bs r)

-- After SetPodBindingResult the pod of the binding has exactly the given result, binding, reason
-- and message, and every other pod keeps the result it had.
pub result_of-set_pod_binding_result :
    (uid : String) (pr : PlacementRequest) (bind : Binding) (result : PlacementRequestResult)
    (reason msg : String)
    → result_of uid (set_pod_binding_result pr bind result reason msg).status.bindings ≡ (
        if bind.pod_uid == uid
        then some (record { binding = bind; result = result; reason = reason; message = msg })
        else result_of uid pr.status.bindings)
unfolding set_pod_binding_result
result_of-set_pod_binding_result uid pr bind result reason msg =
    result_of-record_result uid pr.status.bindings _

-- If no pod has two results before SetPodBindingResult, none has two after it; the number of
-- results grows by one exactly if the pod had none, and the rest of the request is untouched.
pub set_pod_binding_result-HasDistinctPods :
    (pr : PlacementRequest) (bind : Binding) (result : PlacementRequestResult) (reason msg : String)
    → HasDistinctPods pr.status.bindings
    → let pr' = set_pod_binding_result pr bind result reason msg in
      let old = pr.status.bindings in
      HasDistinctPods pr'.status.bindings
      × (length pr'.status.bindings
          ≡ (if is_recorded (result_of bind.pod_uid old) then length old else length old + 1))
      × (pr'.spec ≡ pr.spec)
      × (pr'.meta ≡ pr.meta)
      × (pr'.status.result ≡ pr.status.result)
unfolding set_pod_binding_result
set_pod_binding_result-HasDistinctPods pr bind result reason msg d = (
  record_result-HasDistinctPods pr.status.bindings _ d,
  length-record_result pr.status.bindings _,
  refl,
  refl,
  refl,
)

-- ===== src/Placement/Assess.antt =====
-- What AssessResult says of the recorded results.
use kombiner.Prelude.{
  ℕ, ◌≤◌, ◌<◌, List, [], ◌∷◌, ◌≡◌, ◌≢◌, ◌⊎◌, ◌↔◌, refl, arith, nat_eq, string_eq, eq_iff, length,
  All, iff_trans, iff_pair, iff_not,
}
use kombiner.Api.Placement.{
  PlacementRequest, PlacementRequestResult, PlacementRequestBindingResult, result_unknown,
  result_success, result_failure, result_partial_success, result_rejected,
}
use kombiner.Placement.{count_successes, assess_result}

abbrev pub Succeeded : PlacementRequestBindingResult → Type 0
Succeeded b = b.result ≡ result_success

abbrev pub DidNotSucceed : PlacementRequestBindingResult → Type 0
DidNotSucceed b = b.result ≢ result_success

count_successes-le : (bs : List PlacementRequestBindingResult) → count_successes bs ≤ length bs
unfolding count_successes
count_successes-le [] = omega arith
count_successes-le (b ∷ bs) = ground (arith, count_successes-le bs)

count_successes-zero :
    (bs : List PlacementRequestBindingResult) → (count_successes bs ≡ 0) ↔ All DidNotSucceed bs
unfolding count_successes
count_successes-zero [] = ((λ _. tt), (λ _. refl))
count_successes-zero (b ∷ bs) = (
  (λ e.
      (ground (arith, eq_iff b.result result_success), (count_successes-zero bs).0 (ground arith))),
  (λ h. ground (arith, eq_iff b.result result_success, (count_successes-zero bs).1 h.1)),
)

count_successes-length :
    (bs : List PlacementRequestBindingResult) → (count_successes bs ≡ length bs) ↔ All Succeeded bs
unfolding count_successes
count_successes-length [] = ((λ _. tt), (λ _. refl))
count_successes-length (b ∷ bs) = (
  (λ e. (
    ground (arith, eq_iff b.result result_success, count_successes-le bs),
    (count_successes-length bs).0 (ground (arith, count_successes-le bs)),
  )),
  (λ h. ground (arith, eq_iff b.result result_success, (count_successes-length bs).1 h.1)),
)

-- The texts of the results differ.
results_differ :
    (result_rejected ≢ result_failure)
    × (result_rejected ≢ result_success)
    × (result_rejected ≢ result_partial_success)
    × (result_failure ≢ result_success)
    × (result_failure ≢ result_partial_success)
    × (result_success ≢ result_partial_success)
results_differ = (
  ground (arith, eq_iff result_rejected result_failure),
  ground (arith, eq_iff result_rejected result_success),
  ground (arith, eq_iff result_rejected result_partial_success),
  ground (arith, eq_iff result_failure result_success),
  ground (arith, eq_iff result_failure result_partial_success),
  ground (arith, eq_iff result_success result_partial_success),
)

-- Which result is reported, by the two counts.
assess_result_cases :
    (pr : PlacementRequest)
    → let n = count_successes pr.status.bindings in
      let m = length pr.status.bindings in
      ((m ≡ 0) × ((assess_result pr).0 ≡ result_rejected))
      ⊎ ((0 < m) × (n ≡ 0) × ((assess_result pr).0 ≡ result_failure))
      ⊎ ((0 < n) × (n ≡ m) × ((assess_result pr).0 ≡ result_success))
      ⊎ ((0 < n) × (n ≢ m) × ((assess_result pr).0 ≡ result_partial_success))
unfolding assess_result
assess_result_cases pr = ground arith

length-nil : (bs : List PlacementRequestBindingResult) → (length bs ≡ 0) ↔ (bs ≡ [])
length-nil [] = ((λ _. refl), (λ _. refl))
length-nil (b ∷ bs) = ((λ e. absurd (omega arith)), (λ e. cc))

module _ (pr : PlacementRequest) where
  abbrev outcome : PlacementRequestResult
  outcome = (assess_result pr).0

  abbrev total : ℕ
  total = length pr.status.bindings

  abbrev successes : ℕ
  successes = count_successes pr.status.bindings

  rejected_iff : (outcome ≡ result_rejected) ↔ (total ≡ 0)
  rejected_iff =
      ground (arith, assess_result_cases pr, results_differ, count_successes-le pr.status.bindings)

  failure_iff : (outcome ≡ result_failure) ↔ ((total ≢ 0) × (successes ≡ 0))
  failure_iff =
      ground (arith, assess_result_cases pr, results_differ, count_successes-le pr.status.bindings)

  success_iff : (outcome ≡ result_success) ↔ ((total ≢ 0) × (successes ≡ total))
  success_iff =
      ground (arith, assess_result_cases pr, results_differ, count_successes-le pr.status.bindings)

  partial_iff : (outcome ≡ result_partial_success) ↔ ((successes ≢ total) × (successes ≢ 0))
  partial_iff =
      ground (arith, assess_result_cases pr, results_differ, count_successes-le pr.status.bindings)

  not_unknown : outcome ≢ result_unknown
  not_unknown = ground (
    arith,
    assess_result_cases pr,
    eq_iff result_unknown result_rejected,
    eq_iff result_unknown result_failure,
    eq_iff result_unknown result_success,
    eq_iff result_unknown result_partial_success,
  )

  -- Whatever the policy of the request, AssessResult says Rejected exactly if no result is
  -- recorded; Failure exactly if some are and none succeeded; Success exactly if some are and all
  -- succeeded; PartialSuccess exactly if neither all succeeded nor all did not. It never says
  -- Unknown.
  pub assess_result_verdict :
      ((outcome ≡ result_rejected) ↔ (pr.status.bindings ≡ []))
      × ((outcome ≡ result_failure)
          ↔ ((pr.status.bindings ≢ []) × All DidNotSucceed pr.status.bindings))
      × ((outcome ≡ result_success)
          ↔ ((pr.status.bindings ≢ []) × All Succeeded pr.status.bindings))
      × ((outcome ≡ result_partial_success)
          ↔ ((¬ All Succeeded pr.status.bindings) × (¬ All DidNotSucceed pr.status.bindings)))
      × (outcome ≢ result_unknown)
  assess_result_verdict =
      let bs = pr.status.bindings in
      (
        iff_trans rejected_iff (length-nil bs),
        iff_trans failure_iff (iff_pair (iff_not (length-nil bs)) (count_successes-zero bs)),
        iff_trans success_iff (iff_pair (iff_not (length-nil bs)) (count_successes-length bs)),
        iff_trans partial_iff
            (iff_pair (iff_not (count_successes-length bs)) (iff_not (count_successes-zero bs))),
        not_unknown,
      )

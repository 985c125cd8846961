-- ===== src/Controller/Schedule.antt =====
-- ScheduleOne on every branch.
use kombiner.Prelude.{
  ◌≡◌, ◌≢◌, refl, ap, String, List, [], ◌∷◌, true, false, Option, none, some, arith, string_eq,
  eq_iff, All, length,
}
use kombiner.Api.Placement.{
  PlacementRequest, PlacementRequestBindingResult, Binding, result_unknown, result_rejected,
}
use kombiner.Placement.{validate, assess_result}
use kombiner.Placement.Results.{result_of, is_recorded}
use kombiner.Placement.Assess.{assess_result_verdict}
use kombiner.Cluster.{Cluster, Log, update_status}
use kombiner.Controller.{is_settled, bind_all, wrap_update, schedule_one}
use kombiner.Controller.Records.{Recorded, bind_all-Recorded}

length-zero : {A : Type 0} (xs : List A) → length xs ≡ 0 → xs ≡ []
length-zero [] e = refl
length-zero (x ∷ xs) e = absurd (omega arith)

-- A valid request has bindings.
validate-bindings : (pr : PlacementRequest) → validate pr ≡ none → pr.spec.bindings ≢ []
unfolding validate
validate-bindings pr v e = ground (arith, ap (λ (x : List Binding). length x) e)

-- A list with a recorded pod is not empty.
covered-nonempty :
    (bs : List Binding) (rs : List PlacementRequestBindingResult)
    → bs ≢ []
    → All (λ b. is_recorded (result_of b.pod_uid rs) ≡ true) bs
    → rs ≢ []
covered-nonempty [] rs n h = absurd (n refl)
covered-nonempty (b ∷ bs) [] n h = λ e. ground (arith, h.0)
covered-nonempty (b ∷ bs) (r ∷ rs) n h = λ e. cc

pub settled_of_result :
    (pr : PlacementRequest) → pr.status.result ≢ result_unknown → is_settled pr ≡ true
unfolding is_settled
settled_of_result pr n = ground (arith, eq_iff pr.status.result result_unknown)

module _ (c : Cluster) (pr : PlacementRequest) (log : Log) where
  abbrev pub run : Option String × PlacementRequest × Log
  run = schedule_one c pr log

  -- A request that is deleted or has a result is left alone: no error, no change and no call.
  pub schedule_one-settled : is_settled pr ≡ true → run ≡ (none, pr, log)
  unfolding schedule_one
  schedule_one-settled e = rw e

  -- An invalid request that is neither deleted nor settled is rejected with the text of the error
  -- as its message: the status is updated once, no pod is looked up or bound, the recorded results
  -- and the specification stay, and the error of the update is returned.
  pub schedule_one-rejects :
      (text : String)
      → is_settled pr ≡ false
      → validate pr ≡ some text
      → (run.0 ≡ c.update_error log run.1)
        × (run.1.status.result ≡ result_rejected)
        × (run.1.status.message ≡ text)
        × (run.1.status.bindings ≡ pr.status.bindings)
        × (run.1.spec ≡ pr.spec)
        × (run.2 ≡ update_status run.1 ∷ log)
  unfolding schedule_one
  schedule_one-rejects text e v =
      rw (e, schedule_one) (rw (v, schedule_one) (refl, refl, refl, refl, refl, refl))

  abbrev pub bound : PlacementRequest × Log
  bound = bind_all c pr.meta.namespace pr.spec.bindings pr log

  abbrev pub assessed : PlacementRequest
  assessed =
      let (result, message) = assess_result bound.0 in
      record (bound.0) { status = record (bound.0.status) { result = result; message = message } }

  pub schedule_one-valid :
      is_settled pr ≡ false
      → validate pr ≡ none
      → run ≡ (
        wrap_update (c.update_error bound.1 assessed),
        assessed,
        update_status assessed ∷ bound.1,
      )
  unfolding schedule_one
  schedule_one-valid e v = rw (e, schedule_one) (rw (v, schedule_one) refl)

  -- The verdict on the bound request.
  abbrev pub Assessed : PlacementRequest → Type 0
  Assessed pr' =
      (pr'.status.result ≡ (assess_result pr').0)
      × (pr'.status.message ≡ (assess_result pr').1)
      × (pr'.status.result ≢ result_unknown)
      × (pr'.status.result ≢ result_rejected)

  pub assessed-Assessed : validate pr ≡ none → Assessed assessed
  unfolding assess_result
  assessed-Assessed v =
      let all = bind_all-Recorded c pr.meta.namespace pr.spec.bindings pr log in
      let some_results =
        covered-nonempty pr.spec.bindings bound.0.status.bindings (validate-bindings pr v)
          all.covered in
      let verdict = assess_result_verdict bound.0 in
      (refl, refl, verdict.4, (λ e. some_results (verdict.0.0 e)))

  -- A valid request that is neither deleted nor settled is processed: every binding of the
  -- specification has a recorded result, pods outside of it keep theirs, the specification stays,
  -- the overall result and message are those of AssessResult, neither Unknown nor Rejected, and the
  -- last call is one update with the final request, whose error is wrapped and returned.
  pub schedule_one-completes :
      is_settled pr ≡ false
      → validate pr ≡ none
      → Recorded pr.spec.bindings pr run.1
        × Assessed run.1
        × (older : Log) × (run.2 ≡ update_status run.1 ∷ older)
        × (run.0 ≡ wrap_update (c.update_error older run.1))
  schedule_one-completes e v =
      let all = bind_all-Recorded c pr.meta.namespace pr.spec.bindings pr log in
      rw (schedule_one-valid e v) (
        record {
          spec = all.spec;
          meta = all.meta;
          distinct = all.distinct;
          kept = all.kept;
          covered = all.covered;
          untouched = all.untouched;
        },
        assessed-Assessed v,
        bound.1,
        refl,
        refl,
      )

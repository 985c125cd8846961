-- ===== src/Controller/Records.antt =====
-- The loop of ScheduleOne records a result for each binding and leaves the rest of the request alone.
use kombiner.Prelude.{
  ◌≡◌, ◌≢◌, ◌⊎◌, ◌∙◌, refl, String, List, [], ◌∷◌, true, Option, none, some, arith, ◌==◌, string_eq,
  eq_iff, All, inl, inr, Bool-cases,
}
use kombiner.Api.Placement.{
  PlacementRequest, PlacementRequestResult, Binding, result_success, result_failure,
}
use kombiner.Placement.{set_pod_binding_result, set_pod_binding_success, set_pod_binding_failure}
use kombiner.Placement.Results.{
  result_of, is_recorded, HasDistinctPods, result_of-set_pod_binding_result,
  set_pod_binding_result-HasDistinctPods,
}
use kombiner.Cluster.{Cluster, Log, Pod, Answer, found, failed}
use kombiner.Controller.{bind_one, bind_all}

-- What a run of rounds leaves of the request.
pub record Recorded (bs : List Binding) (pr pr' : PlacementRequest) : Type 0 where
  pub spec : pr'.spec ≡ pr.spec
  pub meta : pr'.meta ≡ pr.meta
  pub distinct : HasDistinctPods pr.status.bindings → HasDistinctPods pr'.status.bindings
  pub kept :
      (uid : String)
      → is_recorded (result_of uid pr.status.bindings) ≡ true
      → is_recorded (result_of uid pr'.status.bindings) ≡ true
  pub covered : All (λ b. is_recorded (result_of b.pod_uid pr'.status.bindings) ≡ true) bs
  pub untouched :
      (uid : String)
      → All (λ b. b.pod_uid ≢ uid) bs
      → result_of uid pr'.status.bindings ≡ result_of uid pr.status.bindings

module _ (c : Cluster) (namespace : String) where
  -- A round sets exactly one result, a success or a failure, for its binding.
  record SetsOne (b : Binding) (pr pr' : PlacementRequest) : Type 0 where
    result : PlacementRequestResult
    reason : String
    message : String
    sets : pr' ≡ set_pod_binding_result pr b result reason message
    final : (result ≡ result_success) ⊎ (result ≡ result_failure)

  set_failure :
      (b : Binding) (pr pr' : PlacementRequest) (reason msg : String)
      → pr' ≡ set_pod_binding_failure pr b reason msg
      → SetsOne b pr pr'
  unfolding set_pod_binding_failure
  set_failure b pr pr' reason msg e = record {
    result = result_failure;
    reason = reason;
    message = msg;
    sets = e;
    final = inr refl;
  }

  set_success :
      (b : Binding) (pr pr' : PlacementRequest) (reason msg : String)
      → pr' ≡ set_pod_binding_success pr b reason msg
      → SetsOne b pr pr'
  unfolding set_pod_binding_success
  set_success b pr pr' reason msg e = record {
    result = result_success;
    reason = reason;
    message = msg;
    sets = e;
    final = inl refl;
  }

  abbrev Sets : Binding → PlacementRequest → PlacementRequest × Log → Type 0
  Sets b pr r = SetsOne b pr r.0

  sent :
      (b : Binding) (pr : PlacementRequest) (e : Option String) (l : Log)
      → Sets b pr (elim e [
        | some err ↦ (set_pod_binding_failure pr b "API denied binding" err, l)
        | none ↦ (set_pod_binding_success pr b "Binding successful" "Pod successfully bound", l)
      ])
  sent b pr none l = set_success b pr _ _ _ refl
  sent b pr (some err) l = set_failure b pr _ _ _ refl

  bind_one-SetsOne :
      (b : Binding) (pr : PlacementRequest) (log : Log) → Sets b pr (bind_one c namespace b pr log)
  unfolding bind_one
  bind_one-SetsOne b pr log = go (c.pod_of log namespace b.pod_name) refl
    where
      go :
          (a : Answer Pod)
          → c.pod_of log namespace b.pod_name ≡ a
          → Sets b pr (bind_one c namespace b pr log)
      go (failed err) e = rw (e, bind_one) (set_failure b pr _ _ _ refl)
      go (found pod) e = elim (Bool-cases (pod.node_name == "")) [
        | inl free ↦ rw (e, bind_one) (rw free (sent b pr _ _))
        | inr taken ↦ elim (Bool-cases (pod.node_name == b.node_name)) [
          | inl there ↦ rw (e, bind_one) (rw (taken, there) (set_success b pr _ _ _ refl))
          | inr elsewhere ↦ rw (e, bind_one) (rw (taken, elsewhere) (set_failure b pr _ _ _ refl))
        ]
      ]

  set_pod_binding_result-kept :
      (pr : PlacementRequest) (b : Binding) (result : PlacementRequestResult) (reason msg : String)
      → ((set_pod_binding_result pr b result reason msg).spec ≡ pr.spec)
        × ((set_pod_binding_result pr b result reason msg).meta ≡ pr.meta)
  unfolding set_pod_binding_result
  set_pod_binding_result-kept pr b result reason msg = (refl, refl)

  set-Recorded :
      (b : Binding) (pr : PlacementRequest) (result : PlacementRequestResult) (reason msg : String)
      → Recorded (b ∷ []) pr (set_pod_binding_result pr b result reason msg)
  set-Recorded b pr result reason msg =
      let at = λ (uid : String). result_of-set_pod_binding_result uid pr b result reason msg in
      let all = set_pod_binding_result-kept pr b result reason msg in
      record {
        spec = all.0;
        meta = all.1;
        distinct = λ d. (set_pod_binding_result-HasDistinctPods pr b result reason msg d).0;
        kept = λ uid h. ground (arith, at uid);
        covered = (ground (arith, at b.pod_uid, eq_iff b.pod_uid b.pod_uid), tt);
        untouched = λ uid h. ground (arith, at uid, eq_iff b.pod_uid uid);
      }

  one-Recorded :
      (b : Binding) (pr pr' : PlacementRequest) → SetsOne b pr pr' → Recorded (b ∷ []) pr pr'
  one-Recorded b pr pr' s = rw (s.sets) (set-Recorded b pr s.result s.reason s.message)

  pub bind_all-Recorded :
      (bs : List Binding) (pr : PlacementRequest) (log : Log)
      → Recorded bs pr (bind_all c namespace bs pr log).0
  unfolding bind_all
  bind_all-Recorded [] pr log = record {
    spec = refl;
    meta = refl;
    distinct = λ d. d;
    kept = λ uid h. h;
    covered = tt;
    untouched = λ uid h. refl;
  }
  bind_all-Recorded (b ∷ bs) pr log =
      let r = bind_one c namespace b pr log in
      let first = one-Recorded b pr r.0 (bind_one-SetsOne b pr log) in
      let others = bind_all-Recorded bs r.0 r.1 in
      record {
        spec = others.spec ∙ first.spec;
        meta = others.meta ∙ first.meta;
        distinct = λ d. others.distinct (first.distinct d);
        kept = λ uid h. others.kept uid (first.kept uid h);
        covered = (others.kept b.pod_uid first.covered.0, others.covered);
        untouched = λ uid h. others.untouched uid h.1 ∙ first.untouched uid (h.0, tt);
      }

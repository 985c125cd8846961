-- ===== src/Controller/Safety.antt =====
-- What holds of ScheduleOne whichever branch it takes.
use mathlib.Core.Path.{subst}
use kombiner.Prelude.{
  ◌≡◌, refl, sym, String, ◌∷◌, true, Option, none, arith, eq_iff, All, inl, inr, Bool-cases,
  Option-cases,
}
use kombiner.Api.Placement.{PlacementRequest, result_unknown, result_rejected}
use kombiner.Placement.{validate}
use kombiner.Cluster.{Cluster, Log, update_status}
use kombiner.Controller.{is_settled, schedule_one}
use kombiner.Controller.Bindings.{LoopInv, IsBacked, IsBacked-later, bind_all-LoopInv}
use kombiner.Controller.Schedule.{
  run, bound, assessed, settled_of_result, schedule_one-settled, schedule_one-rejects,
  schedule_one-completes, schedule_one-valid,
}

module _ (c : Cluster) (pr : PlacementRequest) (log : Log) where
  abbrev Settles : Option String × PlacementRequest × Log → Type 0
  Settles r = is_settled r.1 ≡ true

  run-Settles : Settles (run c pr log)
  run-Settles = elim (Bool-cases (is_settled pr)) [
    | inl e ↦ rw (schedule_one-settled c pr log e) e
    | inr e ↦ elim (Option-cases (validate pr)) [
      | inl v ↦ settled_of_result _ (schedule_one-completes c pr log e v).1.2
      | inr (text, v) ↦
          let rejected = (schedule_one-rejects c pr log text e v).1 in
          settled_of_result _
            (λ u. ground (arith, rejected, u, eq_iff result_rejected result_unknown))
    ]
  ]

  -- Once ScheduleOne has run, the request is settled: a second run on it makes no call, changes
  -- nothing and returns no error.
  pub schedule_one-once : let r = schedule_one c pr log in schedule_one c r.1 r.2 ≡ (none, r.1, r.2)
  schedule_one-once = schedule_one-settled c (run c pr log).1 (run c pr log).2 run-Settles

  abbrev namespace : String
  namespace = pr.meta.namespace

  after_update :
      (pr1 pr2 : PlacementRequest) (l : Log)
      → pr1.status.bindings ≡ pr2.status.bindings
      → LoopInv c namespace pr1 l
      → LoopInv c namespace pr2 (update_status pr2 ∷ l)
  after_update pr1 pr2 l e v = record {
    backed =
        subst (λ bs. All (IsBacked c namespace (update_status pr2 ∷ l)) bs) e
          (IsBacked-later c namespace pr1.status.bindings (update_status pr2) l v.backed);
    unbound = v.unbound;
  }

  -- Whatever the cluster answers: if every recorded success was backed by the log and every bind
  -- request in it followed a lookup that found the pod unbound, then both hold after ScheduleOne. A
  -- success is backed if a lookup found the pod on the node of the binding or the API accepted the
  -- bind request for it.
  pub schedule_one-LoopInv :
      LoopInv c pr.meta.namespace pr log
      → let r = schedule_one c pr log in LoopInv c pr.meta.namespace r.1 r.2
  schedule_one-LoopInv v = elim (Bool-cases (is_settled pr)) [
    | inl e ↦ rw (schedule_one-settled c pr log e) v
    | inr e ↦ elim (Option-cases (validate pr)) [
      | inl valid ↦ rw (schedule_one-valid c pr log e valid) (
          after_update (bound c pr log).0 (assessed c pr log) (bound c pr log).1 refl
            (bind_all-LoopInv c namespace pr.spec.bindings pr log v))
      | inr (text, invalid) ↦
          let all = schedule_one-rejects c pr log text e invalid in
          rw (all.5) (after_update pr (run c pr log).1 log (sym all.3) v)
    ]
  ]

-- ===== src/Scheduler/Requests.antt =====
-- The request that the plugin creates, as the controller sees it, and when Bind returns.
use kombiner.Prelude.{
  ℕ, ◌≡◌, ◌≢◌, refl, String, [], ◌∷◌, false, Option, none, some, arith, ◌==◌, string_eq, eq_iff,
  Outcome, value, Option-cases, inl, inr, Yields, yields, Yields-if, Yields-inv,
}
use kombiner.Api.Placement.{PlacementRequest}
use kombiner.Api.Scheduler.{
  PlacementRequestBinderArgs, Object, internal, external, other, minute, set_defaults,
}
use kombiner.Placement.{validate}
use kombiner.Controller.{is_settled}
use kombiner.Cluster.{Cluster, Log}
use kombiner.Scheduler.{
  Pod, Framework, request_for, delete_existing, create_after, submit, bind, plugin_args,
}

-- If the default scheduler's name is not empty, the request that the plugin creates for a pod and a
-- node is one that the controller's Validate accepts, that is not settled, and that names a scheduler,
-- so the controller neither ignores nor skips it; its only binding is the pod on the node.
pub request_for-accepted :
    (fw : Framework) (pod : Pod) (node : String)
    → fw.default_scheduler_name ≢ ""
    → let pr = request_for fw pod node in
      (validate pr ≡ none)
      × (is_settled pr ≡ false)
      × (pr.spec.scheduler_name ≢ "")
      × (pr.spec.bindings
          ≡ record { pod_name = pod.name; pod_uid = pod.uid; node_name = node } ∷ [])
unfolding request_for validate is_settled
request_for-accepted fw pod node default = (refl, refl, named, refl)
  where
    named : (request_for fw pod node).spec.scheduler_name ≢ ""
    named = ground (arith, default, eq_iff pod.scheduler_name "")

abbrev timeout_or_minute : Option ℕ → ℕ
timeout_or_minute none = minute
timeout_or_minute (some t) = t

timeout_set :
    (given : PlacementRequestBinderArgs)
    → (set_defaults given).timeout ≡ some (timeout_or_minute given.timeout)
unfolding set_defaults
timeout_set given = ground arith

plugin_args-timeout :
    (obj : Object) (args : PlacementRequestBinderArgs)
    → plugin_args obj ≡ some args
    → (t : ℕ) × (args.timeout ≡ some t)
unfolding plugin_args
plugin_args-timeout (internal given) args e =
    (timeout_or_minute given.timeout, ground (arith, timeout_set given))
plugin_args-timeout (external given) args e = absurd (cc)
plugin_args-timeout other args e = absurd (cc)

module _ (fw : Framework) (c : Cluster) where
  abbrev Returned : Outcome (fw.Status × Log) → Type 0
  Returned m = Yields (λ _. Unit {0}) m

  submit-Returned :
      (args : PlacementRequestBinderArgs) (pr : PlacementRequest) (log : Log) (t : ℕ)
      → args.timeout ≡ some t
      → Returned (submit fw c args pr log)
  unfolding submit
  submit-Returned args pr log t e = elim (Option-cases (c.create_error log pr)) [
    | inl created ↦ rw (created, submit) (rw e (yields tt))
    | inr (err, denied) ↦ rw (denied, submit) (yields tt)
  ]

  create_after-Returned :
      (args : PlacementRequestBinderArgs) (pr : PlacementRequest) (t : ℕ) (r : Option String × Log)
      → args.timeout ≡ some t
      → Returned (create_after fw c args pr r)
  unfolding create_after
  create_after-Returned args pr t (none, log) e = submit-Returned args pr log t e
  create_after-Returned args pr t (some text, log) e = yields tt

  -- With the arguments that NewBindPlugin keeps, Bind returns for every pod, node and cluster: it
  -- does not panic on a missing timeout.
  pub bind-value :
      (obj : Object) (args : PlacementRequestBinderArgs) (pod : Pod) (node : String) (log : Log)
      → plugin_args obj ≡ some args
      → (r : fw.Status × Log) × (bind fw c args pod node log ≡ value r)
  unfolding bind
  bind-value obj args pod node log e =
      let (t, set) = plugin_args-timeout obj args e in
      let returned : Returned (bind fw c args pod node log) =
        Yields-if (pod.uid == "") (λ _. yields tt)
          (λ _.
            create_after-Returned args (request_for fw pod node) t
              (delete_existing fw c pod.namespace pod.uid log) set) in
      let (r, run, _) = Yields-inv returned in (r, run)

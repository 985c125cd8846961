-- ===== src/Controller/Bindings.antt =====
-- The loop of ScheduleOne over the bindings: what it binds and what it records.
use kombiner.Prelude.{
  ◌≡◌, ◌≢◌, refl, String, List, [], ◌∷◌, Option, none, some, arith, ◌==◌, string_eq, eq_iff, All,
  inl, inr, Bool-cases,
}
use kombiner.Api.Placement.{
  PlacementRequest, PlacementRequestBindingResult, PlacementRequestResult, Binding, result_success,
  result_failure,
}
use kombiner.Placement
use kombiner.Placement.{record_result}
use kombiner.Cluster.{
  Cluster, Log, Call, BindRequest, Pod, Answer, found, failed, get_pod, bind_pod,
}
use kombiner.Controller.{bind_request, bind_one, bind_all}

module _ (c : Cluster) (namespace : String) where
  -- The log shows that the pod was on the node of the binding: a lookup said so, or the API accepted
  -- the bind request.
  pub data IsPlaced (b : Binding) : Log → Type 0 where
    was_bound :
        (older : Log) (pod : Pod)
        → c.pod_of older namespace b.pod_name ≡ found pod
        → pod.node_name ≡ b.node_name
        → IsPlaced b (get_pod namespace b.pod_name ∷ older)
    accepted :
        (older : Log)
        → c.bind_error older (bind_request namespace b) ≡ none
        → IsPlaced b (bind_pod (bind_request namespace b) ∷ older)
    earlier : (call : Call) (older : Log) → IsPlaced b older → IsPlaced b (call ∷ older)

  -- A result that claims success is backed by the log.
  abbrev pub IsBacked : Log → PlacementRequestBindingResult → Type 0
  IsBacked log r = r.result ≡ result_success → IsPlaced r.binding log

  record_result-All {κ} :
      (P : PlacementRequestBindingResult → Type κ) (bs : List PlacementRequestBindingResult)
      (r : PlacementRequestBindingResult)
      → All P bs
      → P r
      → All P (record_result bs r)
  unfolding record_result
  record_result-All P [] r h p = (p, tt)
  record_result-All P (b ∷ bs) r h p = elim (Bool-cases (b.binding.pod_uid == r.binding.pod_uid)) [
    | inl same ↦ rw same (p, h.1)
    | inr other ↦ rw other (h.0, record_result-All P bs r h.1 p)
  ]

  pub IsBacked-later :
      (bs : List PlacementRequestBindingResult) (call : Call) (log : Log)
      → All (IsBacked log) bs
      → All (IsBacked (call ∷ log)) bs
  IsBacked-later [] call log h = tt
  IsBacked-later (b ∷ bs) call log h =
      ((λ s. earlier call log (h.0 s)), IsBacked-later bs call log h.1)

  failure_is_no_success : result_failure ≢ result_success
  failure_is_no_success = ground (arith, eq_iff result_failure result_success)

  -- Every bind request in the log was made right after a lookup that found the pod unbound.
  abbrev pub BindsUnbound : Log → Type 0
  BindsUnbound [] = Unit
  BindsUnbound (bind_pod r ∷ older) =
      ((before : Log) × (pod : Pod) × (older ≡ get_pod r.namespace r.name ∷ before)
        × (c.pod_of before r.namespace r.name ≡ found pod)
        × (pod.node_name ≡ ""))
      × BindsUnbound older
  BindsUnbound (call ∷ older) = BindsUnbound older

  -- What holds between two rounds.
  pub record LoopInv (pr : PlacementRequest) (log : Log) : Type 0 where
    pub backed : All (IsBacked log) pr.status.bindings
    pub unbound : BindsUnbound log

  -- A result is recorded that is no success, or whose success the log shows.
  recorded :
      (pr : PlacementRequest) (b : Binding) (result : PlacementRequestResult) (reason msg : String)
      (log : Log)
      → All (IsBacked log) pr.status.bindings
      → (result ≡ result_success → IsPlaced b log)
      → All (IsBacked log) (Placement.set_pod_binding_result pr b result reason msg).status.bindings
  unfolding Placement.set_pod_binding_result
  recorded pr b result reason msg log h p =
      record_result-All (IsBacked log) pr.status.bindings _ h p

  module _ (b : Binding) (pr : PlacementRequest) (log : Log) (v : LoopInv pr log) where
    abbrev looked : Log
    looked = get_pod namespace b.pod_name ∷ log

    abbrev request : BindRequest
    request = bind_request namespace b

    abbrev Kept : PlacementRequest × Log → Type 0
    Kept r = LoopInv r.0 r.1

    later : All (IsBacked looked) pr.status.bindings
    later = IsBacked-later pr.status.bindings (get_pod namespace b.pod_name) log v.backed

    fails :
        (reason msg : String) (l : Log)
        → All (IsBacked l) pr.status.bindings
        → All
            (IsBacked l)
            (Placement.set_pod_binding_result pr b result_failure reason msg).status.bindings
    fails reason msg l h =
        recorded pr b result_failure reason msg l h (λ e. absurd (failure_is_no_success e))

    -- The round that sends a bind request.
    sends :
        (pod : Pod)
        → c.pod_of log namespace b.pod_name ≡ found pod
        → pod.node_name ≡ ""
        → (e : Option String) → c.bind_error looked request ≡ e
        → Kept (elim e [
          | some err ↦ (
            Placement.set_pod_binding_failure pr b "API denied binding" err,
            bind_pod request ∷ looked,
          )
          | none ↦ (
            Placement.set_pod_binding_success pr b "Binding successful" "Pod successfully bound",
            bind_pod request ∷ looked,
          )
        ])
    unfolding Placement.set_pod_binding_success Placement.set_pod_binding_failure bind_request
    sends pod lookup free (some err) e = record {
      backed = fails _ _ _ (IsBacked-later pr.status.bindings (bind_pod request) looked later);
      unbound = ((log, pod, refl, lookup, free), v.unbound);
    }
    sends pod lookup free none e = record {
      backed =
          recorded pr b result_success _ _ (bind_pod request ∷ looked)
            (IsBacked-later pr.status.bindings (bind_pod request) looked later)
            (λ _. accepted looked e);
      unbound = ((log, pod, refl, lookup, free), v.unbound);
    }

    pub bind_one-LoopInv : Kept (bind_one c namespace b pr log)
    unfolding bind_one Placement.set_pod_binding_success Placement.set_pod_binding_failure
    bind_one-LoopInv = go (c.pod_of log namespace b.pod_name) refl
      where
        go :
            (a : Answer Pod)
            → c.pod_of log namespace b.pod_name ≡ a
            → Kept (bind_one c namespace b pr log)
        go (failed err) e =
            rw (e, bind_one) (record { backed = fails _ _ _ later; unbound = v.unbound })
        go (found pod) e = elim (Bool-cases (pod.node_name == "")) [
          | inl free ↦
              rw (e, bind_one)
                (rw free (
                  sends pod e ((eq_iff pod.node_name "").0 free) (c.bind_error looked request)
                    refl))
          | inr taken ↦ elim (Bool-cases (pod.node_name == b.node_name)) [
            | inl there ↦
                rw (e, bind_one)
                  (rw (taken, there)
                    (record {
                      backed =
                          recorded pr b result_success _ _ looked later
                            (λ _. was_bound log pod e ((eq_iff pod.node_name b.node_name).0 there));
                      unbound = v.unbound;
                    }))
            | inr elsewhere ↦
                rw (e, bind_one)
                  (rw (taken, elsewhere)
                    (record { backed = fails _ _ _ later; unbound = v.unbound }))
          ]
        ]

  pub bind_all-LoopInv :
      (bs : List Binding) (pr : PlacementRequest) (log : Log)
      → LoopInv pr log
      → let r = bind_all c namespace bs pr log in LoopInv r.0 r.1
  unfolding bind_all
  bind_all-LoopInv [] pr log v = v
  bind_all-LoopInv (b ∷ bs) pr log v =
      let r = bind_one c namespace b pr log in
      bind_all-LoopInv bs r.0 r.1 (bind_one-LoopInv b pr log v)

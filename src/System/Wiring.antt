-- ===== src/System/Wiring.antt =====
-- The queues that New of pkg/controller/controller.go leaves to the goroutines.
pub mod Handlers
use kombiner.Prelude.{
  ℕ, zero, suc, ◌≤◌, ◌<◌, ◌≡◌, ◌∙◌, refl, sym, ap, subst, String, List, [], ◌∷◌, ◌++◌, map, Option,
  none, some, arith, inl, inr, ◌⊎◌, length, length-append, length-set, get_elem?, get_elem?_lt,
  get_elem?-inside, set, All, Option-cases, Bool-cases, ltb, Yields, yields, Yields-bind,
  Yields-map, Yields-both, Outcome, value,
}
use kombiner.Api.Config.{Queue, Configuration, FairnessAlgorithm}
use kombiner.Queue.PlacementRequest
use kombiner.Queue.PlacementRequest.{PlacementRequestQueue, run_handlers}
use kombiner.Queue.PlacementRequest.Contents.{IsValid, new_placement_request_queue-IsValid}
use kombiner.Queue.Store.{Store, QueueRef, alloc_queue, queue_add_push_handler}
use kombiner.Queue.Config.{
  QueueConfig, QueueConfigs, validate, add_push_handler, configs_from,
  queue_config_from_v1alpha1_config,
}
use kombiner.Queue.Access.{Among}
use kombiner.Queue.Iterator.{
  ReaderFactory, QueueIterator, Created, created, refused, resume, new_queue_iterator,
  apply_options, with_reader_factory,
}
use kombiner.Controller.New.{
  PlacementRequestController, factory_of, add_event_handlers, finish, with_factory, with_configs,
  new,
}
use kombiner.Controller.New.Accepts.{IsAllocated, All-grows, configs_from-IsAllocated}
use kombiner.System.Wiring.Handlers.{
  AllValid, Listed, configs_from-AllValid, add_push_handler-IsWired,
}
use kombiner.System.Invariant.{refs_of, Wakes, IsWired}

-- A controller that was created has an iterator over queues that are wired.
abbrev pub Wires : Created PlacementRequestController × Store ℕ → Type 0
Wires (refused err, st) = Unit
Wires (created c, st) = IsWired (refs_of c.iterator.configs) st

module _ (quote : String → String) (informer : Option String) where
  finish-Wires :
      (configs : QueueConfigs) (st : Store ℕ) (factory : ReaderFactory)
      → IsWired (refs_of configs) st
      → Yields Wires (
          finish quote informer configs
            (created (record { reader_factory = factory; configs = configs }), st))
  unfolding finish
  finish-Wires configs st factory wired = elim (Option-cases (add_event_handlers informer)) [
    | inl none_wrong ↦ rw (none_wrong, finish) (yields wired)
    | inr (err, wrong) ↦ rw (wrong, finish) (yields tt)
  ]

  new_queue_iterator-Wires :
      (configs : QueueConfigs) (st : Store ℕ) (factory : ReaderFactory)
      → Listed configs st
      → validate quote configs ≡ none
      → Yields
          (λ r.
            (r.0 ≡ created (record { reader_factory = factory; configs = configs }))
            × IsWired (refs_of configs) r.1)
          (new_queue_iterator quote st configs (with_reader_factory factory ∷ []))
  unfolding new_queue_iterator apply_options with_reader_factory
  new_queue_iterator-Wires configs st factory l good =
      rw (good, new_queue_iterator)
        (Yields-bind (add_push_handler-IsWired configs st l) λ st' wired. yields (refl, wired))

  with_factory-Wires :
      (algorithm : FairnessAlgorithm) (configs : QueueConfigs) (st : Store ℕ)
      (choice : Option ReaderFactory)
      → Listed configs st
      → validate quote configs ≡ none
      → Yields Wires (with_factory quote informer algorithm configs st choice)
  unfolding with_factory
  with_factory-Wires algorithm configs st none l good = yields tt
  with_factory-Wires algorithm configs st (some factory) l good =
      Yields-bind (new_queue_iterator-Wires configs st factory l good)
        λ (r, st') (e, wired). rw e (finish-Wires configs st' factory wired)

  with_configs-Wires :
      (algorithm : FairnessAlgorithm) (configs : QueueConfigs) (st : Store ℕ)
      → Listed configs st
      → Yields Wires (with_configs quote informer algorithm (configs, st))
  unfolding with_configs
  with_configs-Wires algorithm configs st l = elim (Option-cases (validate quote configs)) [
    | inr (err, bad) ↦ rw (bad, with_configs) (yields tt)
    | inl good ↦
        rw (good, with_configs)
          (with_factory-Wires algorithm configs st (factory_of algorithm) l good)
  ]

  -- New, while no queue exists yet, leaves the iterator of the controller that it creates wired:
  -- every queue is valid, wakes the iterator on a Push, and the configs point to queues.
  pub new-Wires :
      (st : Store ℕ) (cfg : Configuration)
      → st.queues ≡ []
      → Yields Wires (new quote informer st cfg)
  unfolding new queue_config_from_v1alpha1_config
  new-Wires st cfg empty =
      let valid : AllValid st = λ k q at. absurd (let e = ap (λ qs. get_elem? qs k) empty in cc) in
      Yields-bind
        (Yields-both (configs_from-IsAllocated st cfg.queues)
          (configs_from-AllValid st cfg.queues valid))
        λ (configs, st1) ((same, pointers, _), (all, covers)).
          with_configs-Wires cfg.fairness_algorithm configs st1 (record {
            all = all;
            pointers = pointers;
            covers = λ k low. covers k (let e = ap length empty in omega arith) low;
          })

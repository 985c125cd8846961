-- ===== src/Controller/New/Accepts.antt =====
-- When New gives a controller.
use kombiner.Prelude.{
  ℕ, suc, ◌≤◌, ◌<◌, ◌≡◌, ◌≢◌, ◌↔◌, refl, ap, String, List, [], ◌∷◌, map, Option, none, some, arith,
  length, length-append, length-set, get_elem?_lt, All, Option-cases, inl, inr, Yields, yields,
  Yields-bind, Yields-map,
}
use kombiner.Api.Config.{Queue, Configuration, FairnessAlgorithm}
use kombiner.Queue.PlacementRequest.{new_placement_request_queue, new_priority_queue}
use kombiner.Queue.Heap
use kombiner.Queue.Prioritized
use kombiner.Queue.Store.{Store, alloc_queue, queue_add_push_handler}
use kombiner.Queue.Config.{
  QueueConfig, QueueConfigs, validate, to_map, add_push_handler, configs_from,
  queue_config_from_v1alpha1_config,
}
use kombiner.Queue.Config.Accepts.{IsComplete, NamesDiffer, validate_lem}
use kombiner.Queue.Iterator.{
  ReaderFactory, Created, created, refused, resume, new_queue_iterator, apply_options,
  with_reader_factory,
}
use kombiner.Controller.New.{
  PlacementRequestController, factory_of, add_event_handlers, finish, with_factory, with_configs,
  new,
}

module _ {S : Type 0} where
  -- The pointer leads to a queue.
  abbrev pub IsAllocated : Store S → QueueConfig → Type 0
  IsAllocated st cfg = (k : ℕ) × (cfg.queue_ref ≡ some k) × (k < length st.queues)

  pub All-grows :
      (st st' : Store S) (cfgs : QueueConfigs)
      → length st.queues ≤ length st'.queues
      → All (IsAllocated st) cfgs
      → All (IsAllocated st') cfgs
  All-grows st st' [] h all = tt
  All-grows st st' (cfg ∷ cfgs) h ((k, at, low), rest) =
      ((k, at, omega arith), All-grows st st' cfgs h rest)

  pub alloc_queue-grows :
      (st : Store S)
      → Yields
          (λ r. (r.0 ≡ some (length st.queues)) × (length r.1.queues ≡ suc (length st.queues)))
          (alloc_queue st)
  unfolding alloc_queue new_placement_request_queue new_priority_queue Heap.init Prioritized.len
  alloc_queue-grows st = yields (refl, omega (arith, length-append st.queues _))

  pub configs_from-IsAllocated :
      (st : Store S) (queues : List Queue)
      → Yields
          (λ r.
            (map (λ (c : QueueConfig). c.queue) r.0 ≡ queues)
            × All (IsAllocated r.1) r.0
            × (length st.queues ≤ length r.1.queues))
          (configs_from st queues)
  unfolding configs_from
  configs_from-IsAllocated st [] = yields (refl, tt, omega arith)
  configs_from-IsAllocated st (queue ∷ queues) =
      Yields-bind (alloc_queue-grows st) λ (ref, st1) (at, more).
        Yields-bind (configs_from-IsAllocated st1 queues) λ (configs, st2) (same, all, grown).
          yields (
            ap (λ (qs : List Queue). queue ∷ qs) same,
            ((length st.queues, at, omega arith), all),
            omega arith,
          )

  queue_add_push_handler-keeps :
      (st : Store S) (cfg : QueueConfig) (handler : S → S)
      → IsAllocated st cfg
      → Yields
          (λ (st' : Store S). length st'.queues ≡ length st.queues)
          (queue_add_push_handler st cfg.queue_ref handler)
  unfolding queue_add_push_handler
  queue_add_push_handler-keeps st cfg handler (k, at, low) =
      let (q, found) = get_elem?_lt st.queues k low in
      rw at (rw found (yields (length-set st.queues k _)))

  add_push_handler-Yields :
      (st : Store S) (cfgs : QueueConfigs) (handler : S → S)
      → All (IsAllocated st) cfgs
      → Yields
          (λ (st' : Store S). length st'.queues ≡ length st.queues)
          (add_push_handler st cfgs handler)
  unfolding add_push_handler
  add_push_handler-Yields st [] handler all = yields refl
  add_push_handler-Yields st (cfg ∷ cfgs) handler all =
      Yields-bind (queue_add_push_handler-keeps st cfg handler all.0) λ st1 same.
        Yields-map
          (add_push_handler-Yields st1 cfgs handler (All-grows st st1 cfgs (omega arith) all.1))
          λ st2 e. omega arith

abbrev pub IsCreated : {A : Type 0} → Created A → Type 0
IsCreated (created a) = Unit
IsCreated (refused err) = ⊥

-- A controller that was created has the map of the configs, and an iterator over them with the
-- reader of the algorithm.
abbrev pub Gives : QueueConfigs → FairnessAlgorithm → Created PlacementRequestController → Type 0
Gives configs algorithm (refused err) = Unit
Gives configs algorithm (created c) =
    (c.queues ≡ to_map configs)
    × (c.iterator.configs ≡ configs)
    × (factory_of algorithm ≡ some c.iterator.reader_factory)

abbrev pub CanBuild : QueueConfigs → FairnessAlgorithm → Option String → Type 0
CanBuild configs algorithm informer =
    All IsComplete configs × NamesDiffer configs × (factory_of algorithm ≢ none) × (informer ≡ none)

abbrev pub Built :
    QueueConfigs → FairnessAlgorithm → Option String → Created PlacementRequestController → Type 0
Built configs algorithm informer r =
    (IsCreated r ↔ CanBuild configs algorithm informer) × Gives configs algorithm r

module _ (quote : String → String) (algorithm : FairnessAlgorithm) where
  finish-Built :
      (informer : Option String) (configs : QueueConfigs) (st : Store ℕ) (factory : ReaderFactory)
      → All IsComplete configs
      → NamesDiffer configs
      → factory_of algorithm ≡ some factory
      → Yields
          (λ r. Built configs algorithm informer r.0)
          (finish quote informer configs
            (created (record { reader_factory = factory; configs = configs }), st))
  unfolding finish add_event_handlers
  finish-Built (some err) configs st factory complete differ known =
      yields (((λ h. absurd h), (λ h. absurd (let e = h.3 in cc))), tt)
  finish-Built none configs st factory complete differ known = yields (
    ((λ h. (complete, differ, (λ e. let k = known in cc), refl)), (λ h. tt)),
    (refl, refl, known),
  )

  new_queue_iterator-created :
      (configs : QueueConfigs) (st : Store ℕ) (factory : ReaderFactory)
      → All (IsAllocated st) configs
      → validate quote configs ≡ none
      → Yields
          (λ r. r.0 ≡ created (record { reader_factory = factory; configs = configs }))
          (new_queue_iterator quote st configs (with_reader_factory factory ∷ []))
  unfolding new_queue_iterator apply_options with_reader_factory
  new_queue_iterator-created configs st factory all good =
      rw (good, new_queue_iterator)
        (Yields-bind (add_push_handler-Yields st configs resume all) λ st' same. yields refl)

  with_factory-Built :
      (informer : Option String) (configs : QueueConfigs) (st : Store ℕ)
      (choice : Option ReaderFactory)
      → All (IsAllocated st) configs
      → validate quote configs ≡ none
      → factory_of algorithm ≡ choice
      → Yields
          (λ r. Built configs algorithm informer r.0)
          (with_factory quote informer algorithm configs st choice)
  unfolding with_factory
  with_factory-Built informer configs st none all good known =
      yields (((λ h. absurd h), (λ h. absurd (h.2 known))), tt)
  with_factory-Built informer configs st (some factory) all good known =
      let (complete, differ) = (validate_lem quote configs).0 good in
      Yields-bind (new_queue_iterator-created configs st factory all good)
        λ (r, st') e. rw e (finish-Built informer configs st' factory complete differ known)

  pub with_configs-Built :
      (informer : Option String) (configs : QueueConfigs) (st : Store ℕ)
      → All (IsAllocated st) configs
      → Yields
          (λ r. Built configs algorithm informer r.0)
          (with_configs quote informer algorithm (configs, st))
  unfolding with_configs
  with_configs-Built informer configs st all = elim (Option-cases (validate quote configs)) [
    | inr (err, bad) ↦
        rw (bad, with_configs)
          (yields (
            (
              (λ h. absurd h),
              (λ h. absurd (let e = (validate_lem quote configs).1 (h.0, h.1) in cc)),
            ),
            tt,
          ))
    | inl good ↦
        rw (good, with_configs)
          (with_factory-Built informer configs st (factory_of algorithm) all good refl)
  ]

-- New returns, whatever queues exist already. There is one config for each queue of the
-- configuration, in order. A controller is created exactly if every config is complete, no two have
-- the same name, the switch knows a reader for the algorithm, and the informer takes the event
-- handler. It then has the map of the configs, and an iterator over them with that reader.
pub new-Built :
    (quote : String → String) (informer : Option String) (st : Store ℕ) (cfg : Configuration)
    → Yields
        (λ r.
          (configs : QueueConfigs) × (map (λ (c : QueueConfig). c.queue) configs ≡ cfg.queues)
          × Built configs cfg.fairness_algorithm informer r.0)
        (new quote informer st cfg)
unfolding new queue_config_from_v1alpha1_config
new-Built quote informer st cfg =
    Yields-bind (configs_from-IsAllocated st cfg.queues) λ (configs, st1) (same, all, _).
      Yields-map (with_configs-Built quote cfg.fairness_algorithm informer configs st1 all)
        λ r built. (configs, same, built)

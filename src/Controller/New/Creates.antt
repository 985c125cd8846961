-- ===== src/Controller/New/Creates.antt =====
-- What New does with a configuration: when it gives a controller, and which.
use kombiner.Prelude.{
  ℕ, suc, ◌≡◌, ◌≢◌, ◌↔◌, ◌⊎◌, ◌∙◌, refl, sym, ap, subst, String, List, [], ◌∷◌, map, Option, none,
  some, arith, length, get_elem?, All, string_eq, eq_iff, Yields, yields, Yields-bind, Yields-map,
  Yields-both,
}
use kombiner.Api.Config.{Queue, Configuration, FairnessAlgorithm, round_robin, uniform}
use kombiner.Configuration.Accepts
use kombiner.Queue.Store.{Store, QueueRef}
use kombiner.Queue.Config.{
  QueueConfig, QueueConfigs, lookup, to_map, configs_from, queue_config_from_v1alpha1_config,
}
use kombiner.Queue.Config.Accepts.{IsComplete, NamesDiffer, validate_lem, lookup-to_map}
use kombiner.Queue.Iterator.{
  ReaderFactory, Created, created, refused, new_round_robin_reader, new_uniform_reader,
}
use kombiner.Controller.New.{PlacementRequestController, factory_of, new}
use kombiner.Controller.New.Accepts.{
  IsAllocated, IsCreated, CanBuild, Gives, alloc_queue-grows, configs_from-IsAllocated,
  with_configs-Built,
}

abbrev queues_of : QueueConfigs → List Queue
queues_of configs = map (λ (c : QueueConfig). c.queue) configs

abbrev refs_of : QueueConfigs → List QueueRef
refs_of configs = map (λ (c : QueueConfig). c.queue_ref) configs

-- Pointers to new queues, from the `n`-th on, one for each queue of the configuration.
abbrev pub fresh : ℕ → List Queue → List QueueRef
fresh n [] = []
fresh n (queue ∷ queues) = some n ∷ fresh (suc n) queues

-- No name stands twice.
abbrev pub QueuesDiffer : List Queue → Type 0
QueuesDiffer [] = Unit
QueuesDiffer (queue ∷ queues) =
    All (λ (other : Queue). queue.scheduler_name ≢ other.scheduler_name) queues
    × QueuesDiffer queues

-- The reader of an algorithm; round robin is the default.
abbrev pub IsReader : FairnessAlgorithm → ReaderFactory → Type 0
IsReader algorithm new_round_robin_reader = (algorithm ≡ "") ⊎ (algorithm ≡ round_robin)
IsReader algorithm new_uniform_reader = algorithm ≡ uniform

-- What New asks for.
abbrev pub IsAcceptable : Configuration → Option String → Type 0
IsAcceptable cfg informer =
    All Accepts.IsComplete cfg.queues
    × QueuesDiffer cfg.queues
    × ((factory : ReaderFactory) × IsReader cfg.fairness_algorithm factory)
    × (informer ≡ none)

-- What New makes of it, `n` queues being there before: the iterator has one config for each queue of
-- the configuration, in order, with a pointer to a queue of its own, and the reader of the algorithm;
-- the controller finds each config by its name.
abbrev pub IsConfigured : ℕ → Configuration → Created PlacementRequestController → Type 0
IsConfigured n cfg (refused err) = Unit
IsConfigured n cfg (created c) =
    (queues_of c.iterator.configs ≡ cfg.queues)
    × (refs_of c.iterator.configs ≡ fresh n cfg.queues)
    × IsReader cfg.fairness_algorithm c.iterator.reader_factory
    × All (λ (q : QueueConfig). lookup q.queue.scheduler_name c.queues ≡ some q) c.iterator.configs

module _ {S : Type 0} where
  configs_from-fresh :
      (st : Store S) (queues : List Queue)
      → Yields (λ r. refs_of r.0 ≡ fresh (length st.queues) queues) (configs_from st queues)
  unfolding configs_from
  configs_from-fresh st [] = yields refl
  configs_from-fresh st (queue ∷ queues) =
      Yields-bind (alloc_queue-grows st) λ (ref, st1) (at, more).
        Yields-bind (configs_from-fresh st1 queues)
          λ (configs, st2) rest. yields (λ i. at i ∷ (rest ∙ ap (λ n. fresh n queues) more) i)

  -- A config with a pointer is complete if its queue is.
  entries_lem :
      (st : Store S) (configs : QueueConfigs)
      → All (IsAllocated st) configs
      → All IsComplete configs ↔ All Accepts.IsComplete (queues_of configs)
  entries_lem st [] all = ((λ h. tt), (λ h. tt))
  entries_lem st (c ∷ cs) ((k, at, low), rest) =
      let (there, back) = entries_lem st cs rest in
      (
        (λ ((named, weight, size, ref), h). ((named, weight, size), there h)),
        (λ ((named, weight, size), h). ((named, weight, size, (λ e. cc)), back h)),
      )

all_others :
    (name : String) (configs : QueueConfigs)
    → All (λ (other : QueueConfig). name ≢ other.queue.scheduler_name) configs
      ↔ All (λ (other : Queue). name ≢ other.scheduler_name) (queues_of configs)
all_others name [] = ((λ h. tt), (λ h. tt))
all_others name (c ∷ cs) =
    let (there, back) = all_others name cs in ((λ h. (h.0, there h.1)), (λ h. (h.0, back h.1)))

all_differ : (configs : QueueConfigs) → NamesDiffer configs ↔ QueuesDiffer (queues_of configs)
all_differ [] = ((λ h. tt), (λ h. tt))
all_differ (c ∷ cs) =
    let (there, back) = all_others c.queue.scheduler_name cs in
    let (on, off) = all_differ cs in ((λ h. (there h.0, on h.1)), (λ h. (back h.0, off h.1)))

factory_of_lem :
    (algorithm : FairnessAlgorithm) (factory : ReaderFactory)
    → (factory_of algorithm ≡ some factory) ↔ IsReader algorithm factory
unfolding factory_of
factory_of_lem algorithm new_round_robin_reader =
    ground (arith, eq_iff algorithm "", eq_iff algorithm round_robin, eq_iff algorithm uniform)
factory_of_lem algorithm new_uniform_reader = ground (
  arith,
  eq_iff algorithm "",
  eq_iff algorithm round_robin,
  eq_iff algorithm uniform,
  eq_iff uniform "",
  eq_iff uniform round_robin,
)

algorithms_lem :
    (algorithm : FairnessAlgorithm)
    → (factory_of algorithm ≢ none) ↔ ((factory : ReaderFactory) × IsReader algorithm factory)
algorithms_lem algorithm = (forward (factory_of algorithm) refl, backward)
  where
    forward :
        (o : Option ReaderFactory)
        → factory_of algorithm ≡ o
        → factory_of algorithm ≢ none
        → (factory : ReaderFactory) × IsReader algorithm factory
    forward none e h = absurd (h e)
    forward (some factory) e h = (factory, (factory_of_lem algorithm factory).0 e)

    backward : (factory : ReaderFactory) × IsReader algorithm factory → factory_of algorithm ≢ none
    backward (factory, reads) e = let found = (factory_of_lem algorithm factory).1 reads in cc

All-of_at :
    (P : QueueConfig → Type 0) (configs : QueueConfigs)
    → ((i : ℕ) (c : QueueConfig) → get_elem? configs i ≡ some c → P c)
    → All P configs
All-of_at P [] h = tt
All-of_at P (c ∷ cs) h = (h 0 c refl, All-of_at P cs (λ i d e. h (suc i) d e))

module _ (quote : String → String) (informer : Option String) (st : Store ℕ)
    (cfg : Configuration) where
  made_of :
      (configs : QueueConfigs) (r : Created PlacementRequestController)
      → queues_of configs ≡ cfg.queues
      → refs_of configs ≡ fresh (length st.queues) cfg.queues
      → (IsCreated r → CanBuild configs cfg.fairness_algorithm informer)
      → Gives configs cfg.fairness_algorithm r
      → IsConfigured (length st.queues) cfg r
  made_of configs (refused err) same refs builds gives = tt
  made_of configs (created c) same refs builds (found, taken, reads) =
      let (complete, differ, _, _) = builds tt in
      let valid = (validate_lem quote configs).1 (complete, differ) in
      (
        ap queues_of taken ∙ same,
        ap refs_of taken ∙ refs,
        (factory_of_lem cfg.fairness_algorithm c.iterator.reader_factory).0 reads,
        subst
            (λ (m : List (String × QueueConfig)).
              All (λ (q : QueueConfig). lookup q.queue.scheduler_name m ≡ some q)
                c.iterator.configs)
            (sym found)
            (subst
              (All (λ (q : QueueConfig). lookup q.queue.scheduler_name (to_map configs) ≡ some q))
              (sym taken)
              (All-of_at _ configs (λ i q at. lookup-to_map quote configs i q valid at))),
      )

  -- New returns, whatever queues exist already. It creates a controller exactly if every queue of the
  -- configuration has a name, a weight and a size over 0, no two have the same name, the algorithm is
  -- RoundRobin, Uniform or left empty, and the informer takes the event handler. The iterator of the
  -- controller then has one config for each queue of the configuration, in order, each with a pointer
  -- to a new queue of its own, and the reader of the algorithm, round robin for the empty one; and the
  -- controller's map has each of these configs under its name.
  pub new-Creates :
      Yields
        (λ r. (IsCreated r.0 ↔ IsAcceptable cfg informer) × IsConfigured (length st.queues) cfg r.0)
        (new quote informer st cfg)
  unfolding new queue_config_from_v1alpha1_config
  new-Creates =
      Yields-bind
        (Yields-both (configs_from-IsAllocated st cfg.queues) (configs_from-fresh st cfg.queues))
        λ (configs, st1) ((same, all, _), refs).
          Yields-map (with_configs-Built quote cfg.fairness_algorithm informer configs st1 all)
            λ r (accepted, gives).
              let (complete, incomplete) = entries_lem st1 configs all in
              let (differ, alike) = all_differ configs in
              let (known, unknown) = algorithms_lem cfg.fairness_algorithm in
              (
                (
                  (λ h.
                      let (a, b, k, i) = accepted.0 h in
                      (
                        subst (All Accepts.IsComplete) same (complete a),
                        subst QueuesDiffer same (differ b),
                        known k,
                        i,
                      )),
                  (λ (a, b, k, i). accepted.1 (
                    incomplete (subst (All Accepts.IsComplete) (sym same) a),
                    alike (subst QueuesDiffer (sym same) b),
                    unknown k,
                    i,
                  )),
                ),
                made_of configs r.0 same refs accepted.0 gives,
              )

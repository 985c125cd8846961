-- ===== src/Controller/New.antt =====
-- pkg/controller/controller.go: the construction of the controller. What the informer says to a new
-- event handler is a parameter; the clients, the listers and the options of logging are left out.
pub mod Accepts
pub mod Creates
mod Tests
use Prim.Native.String.{◌++◌}
use kombiner.Prelude.{
  ℕ, String, List, [], ◌∷◌, Bool, Option, none, some, ◌==◌, string_eq, if◌then◌else◌, Outcome,
  value, ◌>>=◌,
}
use kombiner.Api.Config.{Configuration, FairnessAlgorithm, round_robin, uniform}
use kombiner.Queue.Store.{Store}
use kombiner.Queue.Config.{
  QueueConfig, QueueConfigs, validate, to_map, queue_config_from_v1alpha1_config,
}
use kombiner.Queue.Iterator.{
  ReaderFactory, new_round_robin_reader, new_uniform_reader, QueueIterator, Created, created,
  refused, new_queue_iterator, with_reader_factory,
}

pub record PlacementRequestController : Type 0 where
  pub queues : List (String × QueueConfig)
  pub iterator : QueueIterator

-- The switch on the algorithm; `none` is its default.
unfoldable pub factory_of : FairnessAlgorithm → Option ReaderFactory
factory_of algorithm =
    if algorithm == ""
    then some new_round_robin_reader
    else if algorithm == round_robin
    then some new_round_robin_reader
    else if algorithm == uniform
    then some new_uniform_reader
    else none

-- The informer's error.
unfoldable pub add_event_handlers : Option String → Option String
add_event_handlers none = none
add_event_handlers (some err) = some ("failed to add placement request event handler: " ++ err)

module _ (quote : String → String) (informer : Option String) where
  -- From the iterator on.
  unfoldable pub finish :
      QueueConfigs
      → Created QueueIterator × Store ℕ
      → Outcome (Created PlacementRequestController × Store ℕ)
  unfolding add_event_handlers to_map
  finish configs (refused err, st) =
      value (refused ("failed to create internal queue iterator: " ++ err), st)
  finish configs (created it, st) = elim (add_event_handlers informer) [
    | some err ↦ value (refused ("failed to add event handlers: " ++ err), st)
    | none ↦ value (created (record { queues = to_map configs; iterator = it }), st)
  ]

  -- From the choice of the reader on.
  unfoldable pub with_factory :
      FairnessAlgorithm
      → QueueConfigs
      → Store ℕ
      → Option ReaderFactory
      → Outcome (Created PlacementRequestController × Store ℕ)
  unfolding finish new_queue_iterator with_reader_factory
  with_factory algorithm configs st none =
      value (refused ("unknown fairness algorithm " ++ quote algorithm), st)
  with_factory algorithm configs st (some factory) =
      new_queue_iterator quote st configs (with_reader_factory factory ∷ []) >>= finish configs

  unfoldable pub with_configs :
      FairnessAlgorithm
      → QueueConfigs × Store ℕ
      → Outcome (Created PlacementRequestController × Store ℕ)
  unfolding with_factory factory_of
  with_configs algorithm (configs, st) = elim (validate quote configs) [
    | some err ↦ value (refused ("invalid queue configuration: " ++ err), st)
    | none ↦ with_factory algorithm configs st (factory_of algorithm)
  ]

  unfoldable pub new :
      Store ℕ → Configuration → Outcome (Created PlacementRequestController × Store ℕ)
  unfolding queue_config_from_v1alpha1_config with_configs
  new st cfg = queue_config_from_v1alpha1_config st cfg >>= with_configs cfg.fairness_algorithm

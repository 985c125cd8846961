-- ===== src/Queue/Config.antt =====
-- pkg/queue/config.go: the configuration of the queues. `error` is Option of its text.
pub mod Accepts
pub mod Lookup
use Prim.Native.String.{◌++◌}
use kombiner.Prelude.{
  List, [], ◌∷◌, Bool, true, Option, none, some, String, ◌==◌, nat_eq, string_eq, if◌then◌else◌,
  Outcome, value, ◌>>=◌,
}
use kombiner.Api.Config.{Queue, Configuration}
use kombiner.Queue.Store.{Store, QueueRef, queue_add_push_handler, alloc_queue}

pub record QueueConfig : Type 0 where
  pub queue : Queue
  pub queue_ref : QueueRef

abbrev pub QueueConfigs : Type 0
QueueConfigs = List QueueConfig

unfoldable pub validate_config : QueueConfig → Option String
validate_config c =
    if c.queue.scheduler_name == ""
    then some "queue name cannot be empty"
    else if c.queue.weight == 0
    then some "queue weight must be greater than zero"
    else if c.queue.max_size == 0
    then some "queue max size must be greater than zero"
    else elim c.queue_ref [ none ↦ some "queue reference cannot be nil" | some _ ↦ none ]

-- A Go map from names, as the list of its writes, the last one first.
module _ {V : Type 0} where
  unfoldable pub lookup : String → List (String × V) → Option V
  lookup k [] = none
  lookup k ((j, v) ∷ m) = if j == k then some v else lookup k m

-- The verb %q quotes a text; how it escapes is a parameter.
module _ (quote : String → String) where
  -- The loop of Validate, with the names seen so far.
  unfoldable pub validate_loop : List (String × Bool) → QueueConfigs → Option String
  unfolding lookup validate_config
  validate_loop seen [] = none
  validate_loop seen (cfg ∷ cfgs) =
      let name = cfg.queue.scheduler_name in
      let rest = validate_loop ((name, true) ∷ seen) cfgs in
      elim (lookup name seen) [
        | some _ ↦ some ("duplicate config for scheduler " ++ quote name)
        | none ↦ elim (validate_config cfg) [
          | some err ↦ some ("invalid config for scheduler " ++ quote name ++ ": " ++ err)
          | none ↦ rest
        ]
      ]

  unfoldable pub validate : QueueConfigs → Option String
  unfolding validate_loop
  validate cfgs = validate_loop [] cfgs

-- The loop of ToMap writes the configs in order.
unfoldable pub to_map_from :
    List (String × QueueConfig) → QueueConfigs → List (String × QueueConfig)
to_map_from m [] = m
to_map_from m (cfg ∷ cfgs) = to_map_from ((cfg.queue.scheduler_name, cfg) ∷ m) cfgs

unfoldable pub to_map : QueueConfigs → List (String × QueueConfig)
unfolding to_map_from
to_map cfgs = to_map_from [] cfgs

module _ {S : Type 0} where
  unfoldable pub add_push_handler : Store S → QueueConfigs → (S → S) → Outcome (Store S)
  add_push_handler st [] handler = value st
  add_push_handler st (cfg ∷ cfgs) handler = do
    st' ← queue_add_push_handler st cfg.queue_ref handler
    add_push_handler st' cfgs handler

  -- The loop of QueueConfigFromV1Alpha1Config allocates one queue for each config.
  unfoldable pub configs_from : Store S → List Queue → Outcome (QueueConfigs × Store S)
  configs_from st [] = value ([], st)
  configs_from st (queue ∷ queues) = do
    (ref, st1) ← alloc_queue st
    (configs, st2) ← configs_from st1 queues
    value ((record { queue = queue; queue_ref = ref }) ∷ configs, st2)

  unfoldable pub queue_config_from_v1alpha1_config :
      Store S → Configuration → Outcome (QueueConfigs × Store S)
  unfolding configs_from
  queue_config_from_v1alpha1_config st raw = configs_from st raw.queues

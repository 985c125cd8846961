-- ===== src/Queue/Tests.antt =====
-- Runs of the queues and readers on small stores, and the theorems at concrete inputs.
use kombiner.Prelude.{
  Perm, ◌>>=◌, ℕ, ◌+◌, ◌-◌, ◌≡◌, refl, String, List, [], ◌∷◌, none, some, arith, value, Yields, All,
  find_index,
}
use kombiner.Api.Placement.{Time, PlacementRequest, policy_lenient}
use kombiner.Queue.PlacementRequest.{
  PrioritizedPlacementRequest, PlacementRequestQueue, unix_nano, push, pop, len, priority,
}
use kombiner.Queue.PlacementRequest.Contents.{
  Pushed, PoppedOldest, push-Pushed, pop-PoppedOldest, IsValid,
}
use kombiner.Queue.PlacementRequest.Drain.{
  items_of, OldestFirst, push_all, pop_all, push_all-pop_all,
}
use kombiner.Queue.Store.{Store}
use kombiner.Queue.Config.{QueueConfigs}
use kombiner.Queue.Uniform
use kombiner.Queue.Uniform.{Rand, total_from, slot_from, select, next, new_uniform_reader}
use kombiner.Queue.Uniform.Draws.{IsBounded, Selects, next-Selects}
use kombiner.Queue.Uniform.Serves.{ReadOf, uniform_read}
use kombiner.Queue.RoundRobin.{ExtendedQueueConfig, RoundRobinReader, max_bindings, read}
use kombiner.Queue.RoundRobin.Choice.{IsUsable, choice, holds_request}
use kombiner.Queue.RoundRobin.Reads.{Served}
use kombiner.Queue.RoundRobin.Serves.{read_serves}

shares :
    (max_bindings 5 5 ≡ 10)
    × (max_bindings 7 3 ≡ 24)
    × (max_bindings 11 10 ≡ 11)
    × (max_bindings 35 3 ≡ 117)
unfolding max_bindings
shares = (refl, refl, refl, refl)

abbrev at : ℕ → Time
at seconds = record { seconds = seconds; nanoseconds = 5 }

abbrev request : String → ℕ → PlacementRequest
request name seconds = record {
  meta = record {
    name = name;
    namespace = "default";
    creation_timestamp = at seconds;
    deletion_timestamp = none;
    owner_references = [];
  };
  spec = record {
    policy = policy_lenient;
    priority = 0;
    scheduler_name = "a";
    bindings = record { pod_name = "p"; pod_uid = "u"; node_name = "n" } ∷ [];
  };
  status = record { result = ""; reason = ""; message = ""; bindings = [] };
}

abbrev item : String → ℕ → PrioritizedPlacementRequest
item name seconds = record { request = request name seconds }

-- The handlers count their calls.
abbrev queue_of : List PrioritizedPlacementRequest → PlacementRequestQueue ℕ
queue_of items = record { queue = record { items = items }; push_handlers = (λ n. n + 1) ∷ [] }

abbrev two : PlacementRequestQueue ℕ
two = queue_of (item "old" 20 ∷ item "new" 30 ∷ [])

two-IsValid : IsValid two
unfolding priority unix_nano
two-IsValid c pos small = let one : c ≡ 1 = omega arith in rw one (omega arith)

push-Pushed_example :
    Yields (Pushed two (request "next" 10) 7) (push two (some (request "next" 10)) 7)
push-Pushed_example = push-Pushed two (request "next" 10) 7 two-IsValid

pop-PoppedOldest_example : Yields (PoppedOldest two) (pop two)
unfolding len
pop-PoppedOldest_example = pop-PoppedOldest 1 two refl two-IsValid (omega arith, (omega arith, tt))

abbrev config : String → ℕ → ℕ → ℕ → ExtendedQueueConfig
config name ref share spent = record {
  config = record {
    queue = record {
      scheduler_name = name;
      weight = 1;
      max_size = 9;
      plugins = record { validate = record { enabled = []; disabled = [] } };
    };
    queue_ref = some ref;
  };
  maximum_bindings = share;
  bindings_read = spent;
}

abbrev store : List PrioritizedPlacementRequest → Store ℕ
store items = record { queues = queue_of [] ∷ queue_of items ∷ []; signals = 0 }

abbrev reader : RoundRobinReader
reader = record { configs = config "a" 0 10 0 ∷ config "b" 1 20 20 ∷ [] }

abbrev waiting_items : List PrioritizedPlacementRequest
waiting_items = item "old" 20 ∷ item "new" 30 ∷ []

-- Both configs lead to valid queues.
usable :
    (items : List PrioritizedPlacementRequest)
    → IsValid (queue_of items)
    → All (IsUsable (store items)) reader.configs
usable items valid = (
  record {
    queue = queue_of [];
    resolves = refl;
    valid = (λ c a b. absurd (omega arith));
    share = omega arith;
  },
  (record { queue = queue_of items; resolves = refl; valid = valid; share = omega arith }, tt),
)

-- The first queue has room and is empty, the second has used up its share.
read_serves_example :
    Yields (Served (store waiting_items) reader.configs 1) (read reader (store waiting_items))
unfolding choice holds_request len find_index
read_serves_example =
    read_serves (store waiting_items) reader 1 (usable waiting_items two-IsValid) refl

-- The highest number each time, and the generator's state counts the calls.
abbrev highest : Rand ℕ
highest = record { intn = λ n g. (n - 1, g + 1) }

highest-IsBounded : IsBounded highest
highest-IsBounded n g pos small = omega arith

abbrev plain_configs : QueueConfigs
plain_configs = (config "a" 0 1 0).config ∷ (config "b" 1 1 0).config ∷ []

-- The higher of the two numbers selects the second queue.
draws_second : next highest plain_configs 0 ≡ value (1, 1)
unfolding next select total_from slot_from
draws_second = refl

next-Selects_example :
    Yields (λ r. Selects plain_configs 0 1 r.0 × (r.1 ≡ 1)) (next highest plain_configs 0)
next-Selects_example =
    next-Selects highest plain_configs 0 highest-IsBounded (omega arith) (omega arith)

uniform_read_example :
    Yields
      (λ r. ReadOf (store waiting_items) plain_configs r.0 r.1)
      (Uniform.read highest (new_uniform_reader plain_configs) (store waiting_items) 0)
unfolding new_uniform_reader
uniform_read_example =
    uniform_read (store waiting_items) highest highest-IsBounded (new_uniform_reader plain_configs)
      0
      (
        (
          record {
            queue = queue_of [];
            resolves = refl;
            valid = (λ c a b. absurd (omega arith));
            share = omega arith;
          },
          omega arith,
        ),
        (
          (
            record {
              queue = queue_of waiting_items;
              resolves = refl;
              valid = two-IsValid;
              share = omega arith;
            },
            omega arith,
          ),
          tt,
        ),
      )
      (omega arith)

empty-IsValid : IsValid (queue_of [])
empty-IsValid c pos small = absurd (omega arith)

push_all-pop_all_example :
    Yields
      (λ r.
        Perm (items_of r.0) (items_of (request "old" 20 ∷ request "new" 30 ∷ []))
        × OldestFirst r.0
        × (len r.1 ≡ 0))
      (push_all (queue_of []) (request "old" 20 ∷ request "new" 30 ∷ []) 0 >>= λ (filled, s').
        pop_all 2 filled)
unfolding len
push_all-pop_all_example =
    push_all-pop_all (queue_of []) (request "old" 20 ∷ request "new" 30 ∷ []) 0 empty-IsValid refl
      (omega arith, (omega arith, tt))

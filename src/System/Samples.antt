-- ===== src/System/Samples.antt =====
-- Data for the tests of the goroutines: one queue, on which a request is pushed while the iterator waits.
use kombiner.Prelude.{
  value, ℕ, zero, suc, subst, string_eq, ◌≡◌, refl, String, List, [], ◌∷◌, none, some, arith, All,
  get_elem?, All,
}
use kombiner.Api.Placement.{PlacementRequest, policy_lenient}
use kombiner.Queue.Heap
use kombiner.Queue.Prioritized
use kombiner.Queue.PlacementRequest
use kombiner.Queue.PlacementRequest.{
  new_placement_request_queue, PrioritizedPlacementRequest, PlacementRequestQueue, run_handlers,
  len, push,
}
use kombiner.Queue.PlacementRequest.Contents.{IsValid}
use kombiner.Queue.Store.{Store, queue_len, queue_push, alloc_queue, queue_add_push_handler}
use kombiner.Queue.Config.{
  QueueConfig, QueueConfigs, validate, add_push_handler, validate, add_push_handler,
}
use kombiner.Queue.Iterator.{resume}
use kombiner.Queue.RoundRobin.{new_round_robin_reader}
use kombiner.Queue.RoundRobin.Rounds.{round_robin, round}
use kombiner.Queue.RoundRobin.Minimum.{IsFloat}
use kombiner.System.{waiting, State, start, Reach, here, next, begin, look, return, insert, notify}
use kombiner.System.Invariant.{refs_of, Laws, IsWired, Wakes}
use kombiner.System.RoundRobin.{round_robin_laws}
use kombiner.Api.Config.{Configuration}
use kombiner.Queue.Iterator
use kombiner.Queue.Iterator.{created}
use kombiner.Controller.New.{PlacementRequestController, new}

abbrev pub request : String → PlacementRequest
request name = record {
  meta = record {
    name = name;
    namespace = "default";
    creation_timestamp = record { seconds = 20; nanoseconds = 5 };
    deletion_timestamp = none;
    owner_references = [];
  };
  spec = record {
    policy = policy_lenient;
    priority = 0;
    scheduler_name = "a";
    bindings = record { pod_name = "p"; pod_uid = "u"; node_name = "n" } ∷ [];
  };
  status = record { result = ""; reason = ""; message = ""; bindings = [] };
}

abbrev pub queue_of : List PrioritizedPlacementRequest → PlacementRequestQueue ℕ
queue_of items = record { queue = record { items = items }; push_handlers = resume ∷ [] }

abbrev pub idle : Store ℕ
idle = record { queues = queue_of [] ∷ []; signals = 0 }

abbrev pub config : QueueConfig
config = record {
  queue = record {
    scheduler_name = "a";
    weight = 5;
    max_size = 9;
    plugins = record { validate = record { enabled = []; disabled = [] } };
  };
  queue_ref = some 0;
}

abbrev pub configs : QueueConfigs
configs = config ∷ []

pub floats : All IsFloat configs
floats = ((omega arith, omega arith), tt)

abbrev pub laws : Laws round_robin configs
laws = round_robin_laws config [] floats

queue_of-Wakes : (items : List PrioritizedPlacementRequest) → Wakes (queue_of items)
unfolding resume run_handlers
queue_of-Wakes items n = ground arith

empty-IsValid : IsValid (queue_of [])
empty-IsValid c pos small = absurd (omega arith)

pub idle-IsWired : IsWired (refs_of configs) idle
idle-IsWired = record { queues = queues; pointers = ((0, refl, omega arith), tt) }
  where
    queues :
        (k : ℕ) (q : PlacementRequestQueue ℕ)
        → get_elem? idle.queues k ≡ some q
        → IsValid q × Wakes q
    queues zero q e =
        let same : queue_of [] ≡ q = cc in
        subst (λ x. IsValid x × Wakes x) same (empty-IsValid, queue_of-Wakes [])
    queues (suc k) q e = absurd (cc)

abbrev pub waits : State round_robin configs
waits = record (start round_robin configs idle) { iterator = waiting }

pub waits-Reach : Reach round_robin configs idle waits
unfolding new_round_robin_reader round queue_len len
waits-Reach =
    next (next (next here (begin refl refl refl)) (look refl (λ e. cc) refl)) (return refl)

-- A request was pushed while the iterator waited.
abbrev pub has_request : State round_robin configs
has_request = record waits {
  store = record { queues = queue_of (record { request = request "r" } ∷ []) ∷ []; signals = 1 };
  pushed = request "r" ∷ [];
}

pub has_request-Reach : Reach round_robin configs idle has_request
unfolding queue_push resume run_handlers push Heap.push Heap.up Prioritized.len Prioritized.push
has_request-Reach =
    next (next waits-Reach (insert {ref = some 0} {st = has_request.store} (request "r") refl refl))
      (notify {ref = some 0} {q = queue_of (record { request = request "r" } ∷ [])} refl refl)

abbrev pub configuration : Configuration
configuration = record {
  queues = config.queue ∷ [];
  fairness_algorithm = "RoundRobin";
  plugins = record { validate = record { enabled = []; disabled = [] } };
}

abbrev pub no_queues : Store ℕ
no_queues = record { queues = []; signals = 0 }

abbrev pub controller : PlacementRequestController
controller = record {
  queues = ("a", config) ∷ [];
  iterator = record { reader_factory = Iterator.new_round_robin_reader; configs = configs };
}

pub created_on_idle :
    new (λ name. name) none no_queues configuration ≡ value (created controller, idle)
unfolding new alloc_queue new_placement_request_queue Heap.init Prioritized.len validate
    add_push_handler queue_add_push_handler PlacementRequest.add_push_handler
created_on_idle = refl

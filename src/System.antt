-- ===== src/System.antt =====
-- The goroutines together: QueueIterator.Run (pkg/queue/iterator.go), PlacementRequestController.Run
-- (pkg/controller/controller.go) and the informer's, which calls enqueue. They meet at the queues, each
-- behind its mutex, at the channel `resume` of two signals and at the channel Next, which has no
-- buffer. A step is one access to what they share, in any order. Any request may be pushed onto any
-- queue, of which enqueue is a part.
pub mod Invariant
pub mod Wakeups
pub mod Progress
pub mod Requests
pub mod Shutdown
pub mod RoundRobin
pub mod Uniform
pub mod Wiring
pub mod Delivery
pub mod Serving
pub mod Samples
pub mod Program
mod Tests
use kombiner.Prelude.{
  ℕ, suc, ◌<◌, ◌≡◌, ◌≢◌, List, [], ◌∷◌, Bool, true, false, Option, none, some, Outcome, value,
  panic,
}
use kombiner.Api.Placement.{PlacementRequest}
use kombiner.Queue.PlacementRequest.{PlacementRequestQueue, run_handlers}
use kombiner.Queue.Store.{Store, QueueRef, deref?, queue_len, queue_pop, queue_push}
use kombiner.Queue.Config.{QueueConfigs}
use kombiner.Queue.Access.{Access, done, ask_len, ask_pop, draw, fail, Round, served, again, Reader}

-- Where QueueIterator.Run stands.
pub data Phase (R : Type 0) : Type 0 where
  starting : Phase R  -- the head of the outer loop
  reading : Access (Round R) → Phase R
  sending : PlacementRequest → R → Phase R  -- the select of the inner loop
  waiting : Phase R  -- the select after the inner loop
  ended : Phase R  -- returned, with Next closed
  failed : Phase R  -- a panic

-- Where PlacementRequestController.Run stands. `crashed` is ScheduleOne on a nil request.
pub data Worker : Type 0 where
  receiving : Worker
  scheduling : PlacementRequest → Worker
  left : Worker
  crashed : Worker

-- `pushing` is the queue whose mutex a Push holds that has yet to call the handlers. The last three
-- fields are the history, which no step reads.
pub record System (R : Type 0) : Type 0 where
  pub store : Store ℕ
  pub iterator : Phase R
  pub controller : Worker
  pub pushing : Option QueueRef
  pub cancelled : Bool
  pub pushed : List PlacementRequest
  pub delivered : List PlacementRequest
  pub dropped : List PlacementRequest

-- After a call of Read.
abbrev pub after : {R : Type 0} (rounds : R → Access (Round R)) → Round R → Phase R
after rounds (served none r) = waiting
after rounds (served (some pr) r) = sending pr r
after rounds (again r) = reading (rounds r)

module _ (reader : Reader) (configs : QueueConfigs) where
  abbrev pub State : Type 0
  State = System reader.State

  pub data Step (s : State) : State → Type 0 where
    -- The iterator: the head of the loop.
    stop : s.iterator ≡ starting → s.cancelled ≡ true → Step s (record s { iterator = ended })
    begin :
        {r : reader.State}
        → s.iterator ≡ starting
        → s.cancelled ≡ false
        → reader.make configs ≡ value r
        → Step s (record s { iterator = reading (reader.round r) })
    break_down :
        s.iterator ≡ starting
        → s.cancelled ≡ false
        → reader.make configs ≡ panic
        → Step s (record s { iterator = failed })
    -- The iterator: the accesses of Read.
    look :
        {ref : QueueRef} {k : ℕ → Access (Round reader.State)} {n : ℕ}
        → s.iterator ≡ reading (ask_len ref k)
        → s.pushing ≢ some ref
        → queue_len s.store ref ≡ value n
        → Step s (record s { iterator = reading (k n) })
    look_down :
        {ref : QueueRef} {k : ℕ → Access (Round reader.State)}
        → s.iterator ≡ reading (ask_len ref k)
        → s.pushing ≢ some ref
        → queue_len s.store ref ≡ panic
        → Step s (record s { iterator = failed })
    take :
        {ref : QueueRef} {k : Option PlacementRequest → Access (Round reader.State)}
        {o : Option PlacementRequest} {st : Store ℕ}
        → s.iterator ≡ reading (ask_pop ref k)
        → s.pushing ≢ some ref
        → queue_pop s.store ref ≡ value (o, st)
        → Step s (record s { store = st; iterator = reading (k o) })
    take_down :
        {ref : QueueRef} {k : Option PlacementRequest → Access (Round reader.State)}
        → s.iterator ≡ reading (ask_pop ref k)
        → s.pushing ≢ some ref
        → queue_pop s.store ref ≡ panic
        → Step s (record s { iterator = failed })
    roll :
        {n : ℕ} {k : ℕ → Access (Round reader.State)} (j : ℕ)
        → s.iterator ≡ reading (draw n k)
        → j < n
        → Step s (record s { iterator = reading (k j) })
    abort : s.iterator ≡ reading fail → Step s (record s { iterator = failed })
    return :
        {result : Round reader.State}
        → s.iterator ≡ reading (done result)
        → Step s (record s { iterator = after reader.round result })
    -- The iterator: the two selects.
    hand_over :
        {pr : PlacementRequest} {r : reader.State}
        → s.iterator ≡ sending pr r
        → s.controller ≡ receiving
        → Step s (record s {
          iterator = reading (reader.round r);
          controller = scheduling pr;
          delivered = pr ∷ s.delivered;
        })
    drop :
        {pr : PlacementRequest} {r : reader.State}
        → s.iterator ≡ sending pr r
        → s.cancelled ≡ true
        → Step s (record s { iterator = reading (reader.round r); dropped = pr ∷ s.dropped })
    wake :
        {n : ℕ}
        → s.iterator ≡ waiting
        → s.store.signals ≡ suc n
        → Step s (record s { store = record (s.store) { signals = n }; iterator = starting })
    wake_to_stop :
        s.iterator ≡ waiting → s.cancelled ≡ true → Step s (record s { iterator = starting })
    -- The controller.
    schedule :
        {pr : PlacementRequest}
        → s.controller ≡ scheduling pr
        → Step s (record s { controller = receiving })
    receive_nil :
        s.iterator ≡ ended → s.controller ≡ receiving → Step s (record s { controller = crashed })
    leave : s.controller ≡ receiving → s.cancelled ≡ true → Step s (record s { controller = left })
    -- The informer: a Push up to its handlers, and its handlers.
    insert :
        {ref : QueueRef} {st : Store ℕ} (pr : PlacementRequest)
        → s.pushing ≡ none
        → queue_push s.store ref (some pr) ≡ value st
        → Step s (record s {
          store = record st { signals = s.store.signals };
          pushing = some ref;
          pushed = pr ∷ s.pushed;
        })
    notify :
        {ref : QueueRef} {q : PlacementRequestQueue ℕ}
        → s.pushing ≡ some ref
        → deref? s.store ref ≡ some q
        → Step s (record s {
          store = record (s.store) { signals = run_handlers q.push_handlers s.store.signals };
          pushing = none;
        })
    -- The context.
    cancel : Step s (record s { cancelled = true })

  -- The goroutines at the start, on the queues as New leaves them.
  abbrev pub start : Store ℕ → State
  start st = record {
    store = st;
    iterator = starting;
    controller = receiving;
    pushing = none;
    cancelled = false;
    pushed = [];
    delivered = [];
    dropped = [];
  }

  pub data Reach (st : Store ℕ) : State → Type 0 where
    here : Reach st (start st)
    next : {s t : State} → Reach st s → Step s t → Reach st t

  -- Some steps, one after the other.
  pub data Steps (s : State) : State → Type 0 where
    stay : Steps s s
    go_on : {t u : State} → Steps s t → Step t u → Steps s u

-- ===== src/System/Invariant.antt =====
-- What holds in every reachable state.
pub mod Queues
pub mod Stores
pub mod Returns
pub mod Steps
use kombiner.Prelude.{
  ℕ, ◌<◌, ◌≡◌, List, [], map, Bool, false, ◌⊎◌, Option, some, length, get_elem?, All, Outcome,
  value,
}
use kombiner.Api.Placement.{PlacementRequest}
use kombiner.Queue.PlacementRequest.{PlacementRequestQueue, run_handlers}
use kombiner.Queue.PlacementRequest.Contents.{IsValid}
use kombiner.Queue.Store.{Store, QueueRef}
use kombiner.Queue.Config.{QueueConfig, QueueConfigs}
use kombiner.Queue.Access.{Access, done, Round, served, Reader, Checks}
use kombiner.Queue.RoundRobin.Choice.{holds_request}
use kombiner.System.{Phase, starting, reading, sending, waiting, ended, failed, System, State}

abbrev pub refs_of : QueueConfigs → List QueueRef
refs_of configs = map (λ (c : QueueConfig). c.queue_ref) configs

-- What the iterator relies on of its readers: the factory makes a good one, and the calls of Read of a
-- good one do what Checks says.
pub record Laws (reader : Reader) (configs : QueueConfigs) : Type 1 where
  pub Good : reader.State → Type 0
  pub makes : (r : reader.State) × (reader.make configs ≡ value r) × Good r
  pub checks : (r : reader.State) → Good r → Checks Good (refs_of configs) [] (reader.round r)

-- The handlers of the queue leave a signal.
abbrev pub Wakes : PlacementRequestQueue ℕ → Type 0
Wakes q = (n : ℕ) → 0 < run_handlers q.push_handlers n

-- Every queue is valid and has a handler that leaves a signal, and the pointers lead to queues.
pub record IsWired (refs : List QueueRef) (st : Store ℕ) : Type 0 where
  pub queues :
      (k : ℕ) (q : PlacementRequestQueue ℕ) → get_elem? st.queues k ≡ some q → IsValid q × Wakes q
  pub pointers : All (λ ref. (k : ℕ) × (ref ≡ some k) × (k < length st.queues)) refs

-- The queue is empty, or a signal waits in the channel, or a Push onto it has yet to leave one.
abbrev pub Quiet : Store ℕ → Option QueueRef → QueueRef → Type 0
Quiet st pushing ref = (holds_request st ref ≡ false) ⊎ ((0 < st.signals) ⊎ (pushing ≡ some ref))

module _ {reader : Reader} {configs : QueueConfigs} (laws : Laws reader configs) where
  -- Of a call of Read: it has found the queues `seen` empty, and each is quiet still.
  abbrev pub Scans : Store ℕ → Option QueueRef → Access (Round reader.State) → Type 0
  Scans st pushing t =
      (seen : List QueueRef) × All (Quiet st pushing) seen
      × Checks laws.Good (refs_of configs) seen t

  -- The call has popped a request and returns it.
  abbrev pub Has : Access (Round reader.State) → Type 0
  Has t =
      (pr : PlacementRequest) × (r : reader.State) × (t ≡ done (served (some pr) r)) × laws.Good r

  -- What holds where the iterator stands.
  abbrev pub Holds : Store ℕ → Option QueueRef → Phase reader.State → Type 0
  Holds st pushing starting = Unit
  Holds st pushing (reading t) = Scans st pushing t ⊎ Has t
  Holds st pushing (sending pr r) = laws.Good r
  Holds st pushing waiting = All (Quiet st pushing) (refs_of configs)
  Holds st pushing ended = Unit
  Holds st pushing failed = ⊥

  pub record Inv (s : State reader configs) : Type 0 where
    pub wired : IsWired (refs_of configs) s.store
    pub holds : Holds s.store s.pushing s.iterator

-- ===== src/System/Wakeups.antt =====
-- Whether the iterator learns of the requests that are pushed.
use kombiner.Prelude.{ℕ, zero, suc, ◌<◌, ◌≡◌, ◌≢◌, refl, true, inl, inr, Option, some, arith}
use kombiner.Queue.Store.{Store, QueueRef}
use kombiner.Queue.Config.{QueueConfigs}
use kombiner.Queue.Access.{Reader, Among}
use kombiner.Queue.Access.Covers.{Among-All}
use kombiner.Queue.RoundRobin.Choice.{holds_request}
use kombiner.System.{starting, waiting, State, Step, wake, Reach}
use kombiner.System.Invariant.{refs_of, Laws, IsWired, Quiet}
use kombiner.System.Invariant.Steps.{at_phase, Reach-Inv}

pub signal_left :
    (st : Store ℕ) (pushing : Option QueueRef) (ref : QueueRef)
    → Quiet st pushing ref
    → holds_request st ref ≡ true
    → pushing ≢ some ref
    → (n : ℕ) × (st.signals ≡ suc n)
signal_left st pushing ref (inl idle) busy free = absurd (cc)
signal_left st pushing ref (inr (inr held)) busy free = absurd (free held)
signal_left st pushing ref (inr (inl some_left)) busy free = go (st.signals) some_left
  where
    go : (m : ℕ) → 0 < m → (n : ℕ) × (m ≡ suc n)
    go zero h = absurd (omega arith)
    go (suc n) h = (n, refl)

-- No wakeup is lost. The readers keep their laws, and at the start the queues are wired. Then, whatever
-- the goroutines have done before, if the iterator waits while one of its queues holds a request, and
-- no Push onto that queue is under way, a signal is there for it, and it can take the signal at once
-- and go on.
pub no_lost_wakeup :
    (reader : Reader) (configs : QueueConfigs) (laws : Laws reader configs) (st : Store ℕ)
    (s : State reader configs) (ref : QueueRef)
    → IsWired (refs_of configs) st
    → Reach reader configs st s
    → s.iterator ≡ waiting
    → Among ref (refs_of configs)
    → holds_request s.store ref ≡ true
    → s.pushing ≢ some ref
    → (t : State reader configs) × Step reader configs s t
      × (t.iterator ≡ starting)
      × (s.store.signals ≡ suc t.store.signals)
no_lost_wakeup reader configs laws st s ref wired reach at listed busy free =
    let inv = Reach-Inv laws wired reach in
    let all = at_phase laws waiting inv at in
    let (n, left) =
      signal_left s.store s.pushing ref
        (Among-All (Quiet s.store s.pushing) (refs_of configs) ref all listed) busy free in
    (_, wake at left, refl, left)

-- ===== src/System/Progress.antt =====
-- The iterator goes on.
use kombiner.Prelude.{
  ℕ, ◌<◌, ◌≡◌, ◌≢◌, refl, Bool, true, false, inl, inr, ◌⊎◌, none, Yields-inv, Bool-cases,
}
use kombiner.Queue.Store.{Store}
use kombiner.Queue.Config.{QueueConfigs}
use kombiner.Queue.Access.{Access, done, ask_len, ask_pop, draw, fail, Round, Reader}
use kombiner.System.{
  starting, reading, failed, State, Step, Reach, stop, begin, break_down, look, take, roll, abort,
  look_down, take_down, return, hand_over, drop, wake, wake_to_stop, schedule, receive_nil, leave,
  insert, notify, cancel,
}
use kombiner.System.Invariant.{refs_of, Laws, IsWired, Holds, Inv}
use kombiner.System.Invariant.Returns.{queue_len-returns, queue_pop-returns, len-listed, pop-listed}
use kombiner.System.Invariant.Steps.{at_phase, fail-absurd, Reach-Inv}

module _ (reader : Reader) (configs : QueueConfigs) where
  -- The steps that the iterator makes by itself, its panics left out.
  abbrev pub is_own : {s t : State reader configs} → Step reader configs s t → Bool
  is_own (stop at c) = true
  is_own (begin at c m) = true
  is_own (break_down at c m) = false
  is_own (look at f e) = true
  is_own (look_down at f e) = false
  is_own (take at f e) = true
  is_own (take_down at f e) = false
  is_own (roll j at h) = true
  is_own (abort at) = false
  is_own (return at) = true
  is_own (hand_over at r) = false
  is_own (drop at c) = true
  is_own (wake at e) = true
  is_own (wake_to_stop at c) = true
  is_own (schedule at) = false
  is_own (receive_nil at r) = false
  is_own (leave at c) = false
  is_own (insert pr f e) = false
  is_own (notify h a) = false
  is_own cancel = false

  abbrev pub Moves : State reader configs → Type 0
  Moves s = (t : State reader configs) × (step : Step reader configs s t) × (is_own step ≡ true)

  pub draw-positive :
      (laws : Laws reader configs) (s : State reader configs) (n : ℕ)
      (k : ℕ → Access (Round reader.State))
      → Holds laws s.store s.pushing (reading (draw n k))
      → 0 < n
  draw-positive laws s n k (inl (seen, quiet, c)) = c.0
  draw-positive laws s n k (inr (pr, r, e, good)) = absurd (cc)

  reading-Moves :
      (laws : Laws reader configs) (s : State reader configs) (t : Access (Round reader.State))
      → Inv laws s
      → s.pushing ≡ none
      → s.iterator ≡ reading t
      → Moves s
  reading-Moves laws s (done result) inv free at = (_, return at, refl)
  reading-Moves laws s fail inv free at =
      absurd (fail-absurd laws s.store s.pushing (at_phase laws (reading fail) inv at))
  reading-Moves laws s (draw n k) inv free at =
      (_, roll 0 at (draw-positive laws s n k (at_phase laws (reading (draw n k)) inv at)), refl)
  reading-Moves laws s (ask_len ref k) inv free at =
      let listed =
        len-listed laws s.store s.pushing ref k (at_phase laws (reading (ask_len ref k)) inv at) in
      let (n, e, _) =
        Yields-inv (queue_len-returns (refs_of configs) s.store ref inv.wired listed) in
      (_, look at (λ held. let f = free in cc) e, refl)
  reading-Moves laws s (ask_pop ref k) inv free at =
      let listed =
        pop-listed laws s.store s.pushing ref k (at_phase laws (reading (ask_pop ref k)) inv at) in
      let ((o, st), e, _) =
        Yields-inv (queue_pop-returns (refs_of configs) s.store ref inv.wired listed) in
      (_, take at (λ held. let f = free in cc) e, refl)

  -- If the readers keep their laws and the queues are wired at the start, the iterator never panics:
  -- neither its factory, nor a call of Read, nor a Len or a Pop in it.
  pub never_fails :
      (laws : Laws reader configs) (st : Store ℕ) (s : State reader configs)
      → IsWired (refs_of configs) st
      → Reach reader configs st s
      → s.iterator ≢ failed
  never_fails laws st s wired reach e = at_phase laws failed (Reach-Inv laws wired reach) e

  -- The iterator is never stuck on its way. The readers keep their laws, and at the start the queues are
  -- wired. Then in every reachable state in which it is at the head of its loop or in a call of Read,
  -- and no Push is under way, it can make a step of its own that is no panic.
  pub iterator-Moves :
      (laws : Laws reader configs) (st : Store ℕ) (s : State reader configs)
      → IsWired (refs_of configs) st
      → Reach reader configs st s
      → s.pushing ≡ none
      → (s.iterator ≡ starting) ⊎ ((t : Access (Round reader.State)) × (s.iterator ≡ reading t))
      → Moves s
  iterator-Moves laws st s wired reach free (inr (t, at)) =
      reading-Moves laws s t (Reach-Inv laws wired reach) free at
  iterator-Moves laws st s wired reach free (inl at) = elim (Bool-cases (s.cancelled)) [
    | inl c ↦ (_, stop at c, refl)
    | inr c ↦ let (r, makes, good) = laws.makes in (_, begin at c makes, refl)
  ]

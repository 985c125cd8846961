-- ===== src/System/Requests.antt =====
-- Where the requests are that were pushed.
pub mod Tally
use kombiner.Prelude.{
  ℕ, zero, suc, ◌+◌, ◌<◌, ◌≡◌, ◌∙◌, refl, ap, List, [], ◌∷◌, Bool, inl, inr, Option, none, some,
  arith, get_elem?, set, count_of, count_of-perm, value,
}
use kombiner.Api.Placement.{PlacementRequest}
use kombiner.Queue.PlacementRequest.{PlacementRequestQueue, PrioritizedPlacementRequest}
use kombiner.Queue.PlacementRequest.Contents.{waiting as items}
use kombiner.Queue.Store.{Store, QueueRef, queue_pop, queue_push}
use kombiner.Queue.Store.Effects.{queue_pop-Writes, queue_push-Writes}
use kombiner.Queue.Config.{QueueConfigs}
use kombiner.Queue.Access.{
  Access, done, ask_len, ask_pop, draw, fail, Round, served, again, Reader, Checks,
}
use kombiner.System.{
  Phase, starting, reading, sending, waiting, ended, failed, System, State, Step, Reach, here, next,
  after, stop, begin, break_down, look, look_down, take, take_down, roll, abort, return, hand_over,
  drop, wake, wake_to_stop, schedule, receive_nil, leave, insert, notify, cancel,
}
use kombiner.System.Invariant.{refs_of, Laws, IsWired, Holds, Inv}
use kombiner.System.Invariant.Queues.{pop-cases, push-result}
use kombiner.System.Requests.Tally.{tally, count_cons, given, queue_pop-tally, queue_push-tally}
use kombiner.System.Invariant.Returns.{look_down-absurd, take_down-absurd}
use kombiner.System.Invariant.Steps.{at_phase, made_good, Reach-Inv}

-- The request that a call of Read is about to return, or that the iterator offers on Next.
abbrev pub popped : {R : Type 0} → Access (Round R) → List PlacementRequest
popped (done (served (some pr) r)) = pr ∷ []
popped (done (served none r)) = []
popped (done (again r)) = []
popped (ask_len ref k) = []
popped (ask_pop ref k) = []
popped (draw n k) = []
popped fail = []

abbrev pub in_hand : {R : Type 0} → Phase R → List PlacementRequest
in_hand starting = []
in_hand (reading t) = popped t
in_hand (sending pr r) = pr ∷ []
in_hand waiting = []
in_hand ended = []
in_hand failed = []

module _ (test : PlacementRequest → Bool) where
  -- All requests that pass the test and are somewhere.
  abbrev pub total : {R : Type 0} → System R → ℕ
  total s =
      tally test s.store.queues
      + count_of test (in_hand s.iterator)
      + count_of test s.delivered
      + count_of test s.dropped

  module _ {reader : Reader} {configs : QueueConfigs} (laws : Laws reader configs) where
    popped-Checks :
        (seen : List QueueRef) (t : Access (Round reader.State))
        → Checks laws.Good (refs_of configs) seen t
        → popped t ≡ []
    popped-Checks seen (done (served none r)) c = refl
    popped-Checks seen (done (served (some pr) r)) c = absurd c
    popped-Checks seen (done (again r)) c = refl
    popped-Checks seen (ask_len ref k) c = refl
    popped-Checks seen (ask_pop ref k) c = refl
    popped-Checks seen (draw n k) c = refl
    popped-Checks seen fail c = refl

    -- A fresh call of Read has popped nothing.
    popped-round : (r : reader.State) → laws.Good r → popped (reader.round r) ≡ []
    popped-round r good = popped-Checks [] (reader.round r) (laws.checks r good)

    module _ (st : Store ℕ) (p : Option QueueRef) where
      popped-look :
          (ref : QueueRef) (k : ℕ → Access (Round reader.State)) (n : ℕ)
          → Holds laws st p (reading (ask_len ref k))
          → popped (k n) ≡ []
      popped-look ref k zero (inl (seen, quiet, c)) = popped-Checks (ref ∷ seen) (k zero) c.1
      popped-look ref k (suc n) (inl (seen, quiet, c)) = popped-Checks seen (k (suc n)) (c.2 n)
      popped-look ref k n (inr (pr, r, e, good)) = absurd (cc)

      popped-take :
          (ref : QueueRef) (k : Option PlacementRequest → Access (Round reader.State))
          (o : Option PlacementRequest)
          → Holds laws st p (reading (ask_pop ref k))
          → popped (k o) ≡ given o
      popped-take ref k none (inl (seen, quiet, c)) = popped-Checks (ref ∷ seen) (k none) c.1
      popped-take ref k (some pr) (inl (seen, quiet, c)) =
          let (r, e, good) = c.2 pr in ap (λ t. popped t) e
      popped-take ref k o (inr (pr, r, e, good)) = absurd (cc)

      popped-roll :
          (n : ℕ) (k : ℕ → Access (Round reader.State)) (j : ℕ)
          → j < n
          → Holds laws st p (reading (draw n k))
          → popped (k j) ≡ []
      popped-roll n k j below (inl (seen, quiet, c)) = popped-Checks seen (k j) (c.1 j below)
      popped-roll n k j below (inr (pr, r, e, good)) = absurd (cc)

      popped-return :
          (result : Round reader.State)
          → Holds laws st p (reading (done result))
          → in_hand (after reader.round result) ≡ popped (done result)
      popped-return (served none r) h = refl
      popped-return (served (some pr) r) h = refl
      popped-return (again r) (inl (seen, quiet, good)) = popped-round r good
      popped-return (again r) (inr (pr, r', e, good)) = absurd (cc)

    abbrev Balanced : State reader configs → State reader configs → Type 0
    Balanced s t = total t + count_of test s.pushed ≡ total s + count_of test t.pushed

    -- The count in hand where the iterator stands.
    held :
        (s : State reader configs) (phase : Phase reader.State) (prs : List PlacementRequest)
        → s.iterator ≡ phase
        → in_hand phase ≡ prs
        → count_of test (in_hand s.iterator) ≡ count_of test prs
    held s phase prs at e = ap (λ ph. count_of test (in_hand ph)) at ∙ ap (count_of test) e

    Step-Balanced :
        {s t : State reader configs} → Inv laws s → Step reader configs s t → Balanced s t
    unfolding count_of
    Step-Balanced {s} inv (stop at c) = omega (arith, held s starting [] at refl)
    Step-Balanced {s} inv (begin {r} at c made) = omega (
      arith,
      held s starting [] at refl,
      ap (count_of test) (popped-round r (made_good laws r made)),
    )
    Step-Balanced {s} inv (break_down at c breaks) = omega (arith, held s starting [] at refl)
    Step-Balanced {s} inv (look {ref} {k} {n} at free e) =
        let phase : Phase reader.State = reading (ask_len ref k) in
        omega (
          arith,
          held s phase [] at refl,
          ap (count_of test) (popped-look s.store s.pushing ref k n (at_phase laws phase inv at)),
        )
    Step-Balanced {s} inv (look_down {ref} {k} at free e) =
        let here_ = at_phase laws (reading (ask_len ref k)) inv at in
        absurd (look_down-absurd laws s.store s.pushing ref k inv.wired here_ e)
    Step-Balanced {s} inv (take_down {ref} {k} at free e) =
        let here_ = at_phase laws (reading (ask_pop ref k)) inv at in
        absurd (take_down-absurd laws s.store s.pushing ref k inv.wired here_ e)
    Step-Balanced {s} inv (take {ref} {k} {o} {st} at free e) =
        let phase : Phase reader.State = reading (ask_pop ref k) in
        omega (
          arith,
          held s phase [] at refl,
          ap (count_of test) (popped-take s.store s.pushing ref k o (at_phase laws phase inv at)),
          queue_pop-tally test (refs_of configs) s.store st ref o inv.wired e,
        )
    Step-Balanced {s} inv (roll {n} {k} j at below) =
        let phase : Phase reader.State = reading (draw n k) in
        omega (
          arith,
          held s phase [] at refl,
          ap (count_of test)
              (popped-roll s.store s.pushing n k j below (at_phase laws phase inv at)),
        )
    Step-Balanced {s} inv (abort at) = omega (arith, held s (reading fail) [] at refl)
    Step-Balanced {s} inv (return {result} at) =
        let phase : Phase reader.State = reading (done result) in
        omega (
          arith,
          held s phase (popped (done result)) at refl,
          ap (count_of test) (popped-return s.store s.pushing result (at_phase laws phase inv at)),
        )
    Step-Balanced {s} inv (hand_over {pr} {r} at ready) =
        let phase : Phase reader.State = sending pr r in
        omega (
          arith,
          held s phase (pr ∷ []) at refl,
          count_cons test pr s.delivered,
          ap (count_of test) (popped-round r (at_phase laws phase inv at)),
        )
    Step-Balanced {s} inv (drop {pr} {r} at c) =
        let phase : Phase reader.State = sending pr r in
        omega (
          arith,
          held s phase (pr ∷ []) at refl,
          count_cons test pr s.dropped,
          ap (count_of test) (popped-round r (at_phase laws phase inv at)),
        )
    Step-Balanced {s} inv (wake at e) = omega (arith, held s waiting [] at refl)
    Step-Balanced {s} inv (wake_to_stop at c) = omega (arith, held s waiting [] at refl)
    Step-Balanced inv (schedule at) = refl
    Step-Balanced inv (receive_nil at ready) = refl
    Step-Balanced inv (leave at c) = refl
    Step-Balanced {s} inv (insert {ref} {st} pr free e) = omega (
      arith,
      queue_push-tally test (refs_of configs) s.store st ref pr inv.wired e,
      count_cons test pr s.pushed,
    )
    Step-Balanced inv (notify h a) = refl
    Step-Balanced inv cancel = refl

    -- No request is lost or handed over twice. The readers keep their laws, and at the start the queues
    -- are wired. Then in every reachable state, and for any test on requests, as many of them as were in
    -- the queues at the start or were pushed since are in the queues, in the iterator's hand, delivered
    -- to the controller or dropped.
    pub requests_conserved :
        (st : Store ℕ) (s : State reader configs)
        → IsWired (refs_of configs) st
        → Reach reader configs st s
        → total s ≡ tally test st.queues + count_of test s.pushed
    unfolding count_of
    requests_conserved st s wired here = omega arith
    requests_conserved st s wired (next {s = before} r step) =
        omega
          (arith, requests_conserved st before wired r, Step-Balanced (Reach-Inv laws wired r) step)

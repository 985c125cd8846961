-- ===== src/System/Delivery.antt =====
-- From the wait to the next delivery.
use kombiner.Prelude.{
  ℕ, zero, suc, ◌≡◌, ◌∙◌, refl, ap, subst, ◌∷◌, true, false, Option, none, some, Outcome, value,
  >>=_value, value-injective,
}
use kombiner.Api.Placement.{PlacementRequest}
use kombiner.Queue.Store.{Store, QueueRef, queue_len, queue_pop}
use kombiner.Queue.Config.{QueueConfigs}
use kombiner.Queue.Access.{
  Access, done, ask_len, ask_pop, draw, fail, Round, served, again, Reader, Among, run, read_rounds,
}
use kombiner.Queue.Uniform.{Rand}
use kombiner.Queue.RoundRobin.Choice.{holds_request}
use kombiner.System.{
  starting, reading, sending, waiting, receiving, scheduling, State, Step, Reach, Steps, stay,
  go_on, after, begin, look, take, roll, return, hand_over, wake,
}
use kombiner.System.Invariant.{refs_of, Laws, IsWired, Quiet, Inv}
use kombiner.System.Invariant.Steps.{at_phase, Step-Inv, Reach-Inv}
use kombiner.Queue.Access.Covers.{Among-All}
use kombiner.System.Wakeups.{signal_left}
use kombiner.System.Progress.{draw-positive}

-- One way for the random numbers to fall.
abbrev pub first : Rand ℕ
first = record { intn = λ n g. (0, g) }

holds_request-signals :
    (st : Store ℕ) (n : ℕ) (ref : QueueRef)
    → holds_request (record st { signals = n }) ref ≡ holds_request st ref
unfolding holds_request
holds_request-signals st n none = refl
holds_request-signals st n (some k) = refl

module _ (reader : Reader) (configs : QueueConfigs) where
  -- A request more has been handed to the controller.
  abbrev pub Delivers : State reader configs → Type 0
  Delivers s =
      (pr : PlacementRequest) × (t : State reader configs) × Steps reader configs s t
      × (t.delivered ≡ pr ∷ s.delivered)
      × (t.controller ≡ scheduling pr)

module _ {reader : Reader} {configs : QueueConfigs} where
  prepend :
      {s t u : State reader configs}
      → Step reader configs s t
      → Steps reader configs t u
      → Steps reader configs s u
  prepend step stay = go_on stay step
  prepend step (go_on steps last) = go_on (prepend step steps) last

  append :
      {s t u : State reader configs}
      → Steps reader configs s t
      → Steps reader configs t u
      → Steps reader configs s u
  append steps stay = steps
  append steps (go_on more last) = go_on (append steps more) last

  module _ (laws : Laws reader configs) where
    -- A call of Read that returns is a sequence of steps.
    run-Steps :
        (t : Access (Round reader.State)) (s : State reader configs) (g : ℕ)
        (result : Round reader.State) (st : Store ℕ) (g' : ℕ)
        → Inv laws s
        → s.pushing ≡ none
        → s.iterator ≡ reading t
        → run first s.store g t ≡ value (result, st, g')
        → Steps reader configs s (record s { iterator = reading (done result); store = st })
    unfolding run
    run-Steps (done a) s g result st g' inv free at ran =
        let same : a ≡ result = cc in
        let stays : s.store ≡ st = cc in
        subst (λ u. Steps reader configs s u)
          (λ i. record s { iterator = (at ∙ ap (λ x. reading (done x)) same) i; store = stays i })
          stay
    run-Steps (ask_len ref k) s g result st g' inv free at ran =
        let (n, found, rest) = >>=_value (queue_len s.store ref) _ ran in
        let step : Step reader configs s (record s { iterator = reading (k n) }) =
          look at (λ held. let f = free in cc) found in
        prepend step (run-Steps (k n) _ g result st g' (Step-Inv laws step inv) free refl rest)
    run-Steps (ask_pop ref k) s g result st g' inv free at ran =
        let ((o, st1), found, rest) = >>=_value (queue_pop s.store ref) _ ran in
        let step : Step reader configs s (record s { iterator = reading (k o); store = st1 }) =
          take at (λ held. let f = free in cc) found in
        prepend step (run-Steps (k o) _ g result st g' (Step-Inv laws step inv) free refl rest)
    run-Steps (draw n k) s g result st g' inv free at ran =
        let pos =
          draw-positive reader configs laws s n k (at_phase laws (reading (draw n k)) inv at) in
        let step : Step reader configs s (record s { iterator = reading (k 0) }) = roll 0 at pos in
        prepend step (run-Steps (k 0) _ g result st g' (Step-Inv laws step inv) free refl ran)
    run-Steps fail s g result st g' inv free at ran = absurd (cc)

    Steps-Inv : {s t : State reader configs} → Inv laws s → Steps reader configs s t → Inv laws t
    Steps-Inv inv stay = inv
    Steps-Inv inv (go_on steps last) = Step-Inv laws last (Steps-Inv inv steps)

    -- Read, with its calls of itself, is a sequence of steps.
    read_rounds-Steps :
        (fuel : ℕ) (r : reader.State) (s : State reader configs) (g : ℕ)
        (o : Option PlacementRequest) (r' : reader.State) (st : Store ℕ)
        → Inv laws s
        → s.pushing ≡ none
        → s.iterator ≡ reading (reader.round r)
        → read_rounds first reader fuel r s.store g ≡ value (o, r', st)
        → Steps reader configs s
            (record s { iterator = after reader.round (served o r'); store = st })
    unfolding read_rounds
    read_rounds-Steps zero r s g o r' st inv free at ran = absurd (cc)
    read_rounds-Steps (suc fuel) r s g o r' st inv free at ran =
        let ((result, st1, g1), called, rest) =
          >>=_value (run first s.store g (reader.round r)) _ ran in
        let steps = run-Steps (reader.round r) s g result st1 g1 inv free at called in
        ends result st1 g1 steps (Steps-Inv inv steps) rest
          (λ r1 u i f a e. read_rounds-Steps fuel r1 u g1 o r' st i f a e)
      where
        ends :
            (result : Round reader.State) (st1 : Store ℕ) (g1 : ℕ)
            → Steps reader configs s (record s { iterator = reading (done result); store = st1 })
            → Inv laws (record s { iterator = reading (done result); store = st1 })
            → elim result as (λ _. Outcome (Option PlacementRequest × reader.State × Store ℕ)) [
              | served found r1 ↦ value (found, r1, st1)
              | again r1 ↦ read_rounds first reader fuel r1 st1 g1
            ]
              ≡ value (o, r', st)
            → ((r1 : reader.State) (u : State reader configs)
                → Inv laws u
                → u.pushing ≡ none
                → u.iterator ≡ reading (reader.round r1)
                → read_rounds first reader fuel r1 u.store g1 ≡ value (o, r', st)
                → Steps reader configs u
                    (record u { iterator = after reader.round (served o r'); store = st }))
            → Steps reader configs s
                (record s { iterator = after reader.round (served o r'); store = st })
        ends (served found r1) st1 g1 steps inv1 e more =
            let back : Step reader configs
                (record s { iterator = reading (done (served found r1)); store = st1 })
                (record s { iterator = after reader.round (served found r1); store = st1 }) =
              return refl in
            subst
              (λ x.
                Steps reader configs s
                  (record s { iterator = after reader.round (served x.0 x.1); store = x.2 }))
              (value-injective e) (go_on steps back)
        ends (again r1) st1 g1 steps inv1 e more =
            let step : Step reader configs
                (record s { iterator = reading (done (again r1)); store = st1 })
                (record s { iterator = reading (reader.round r1); store = st1 }) =
              return refl in
            append (go_on steps step) (more r1 _ (Step-Inv laws step inv1) free refl e)

    -- The readers serve: Read on queues that are wired, of which one holds a request, gives a request.
    abbrev pub Serves : Type 0
    Serves =
        (r : reader.State) (st : Store ℕ) (ref : QueueRef)
        → laws.Good r
        → IsWired (refs_of configs) st
        → Among ref (refs_of configs)
        → holds_request st ref ≡ true
        → (fuel : ℕ) × (pr : PlacementRequest) × (r' : reader.State) × (st' : Store ℕ)
          × (read_rounds first reader fuel r st 0 ≡ value (some pr, r', st'))

    starting-Delivers :
        (serves : Serves) (s : State reader configs) (ref : QueueRef)
        → Inv laws s
        → s.pushing ≡ none
        → s.cancelled ≡ false
        → s.controller ≡ receiving
        → s.iterator ≡ starting
        → Among ref (refs_of configs)
        → holds_request s.store ref ≡ true
        → Delivers reader configs s
    starting-Delivers serves s ref inv free runs ready at listed busy =
        let (r, made, good) = laws.makes in
        let (fuel, pr, r', st, ran) = serves r s.store ref good inv.wired listed busy in
        let s1 : State reader configs = record s { iterator = reading (reader.round r) } in
        let step : Step reader configs s s1 = begin at runs made in
        let steps =
          read_rounds-Steps fuel r s1 0 (some pr) r' st (Step-Inv laws step inv) free refl ran in
        let s2 : State reader configs = record s { iterator = sending pr r'; store = st } in
        let last : Step reader configs s2 (record s2 {
          iterator = reading (reader.round r');
          controller = scheduling pr;
          delivered = pr ∷ s.delivered;
        }) =
          hand_over refl ready in
        (pr, _, go_on (prepend step steps) last, refl, refl)

    -- The wait is over with the signal that is there.
    waiting-Delivers :
        (serves : Serves) (s : State reader configs) (ref : QueueRef)
        → Inv laws s
        → s.pushing ≡ none
        → s.cancelled ≡ false
        → s.controller ≡ receiving
        → s.iterator ≡ waiting
        → Among ref (refs_of configs)
        → holds_request s.store ref ≡ true
        → Delivers reader configs s
    waiting-Delivers serves s ref inv free runs ready at listed busy =
        let all = at_phase laws waiting inv at in
        let quiet = Among-All (Quiet s.store s.pushing) (refs_of configs) ref all listed in
        let (n, left) = signal_left s.store s.pushing ref quiet busy (λ held. let f = free in cc) in
        let s1 : State reader configs = record s {
          store = record (s.store) { signals = n };
          iterator = starting;
        } in
        let step : Step reader configs s s1 = wake at left in
        let (pr, t, steps, given, scheduled) =
          starting-Delivers serves s1 ref (Step-Inv laws step inv) free runs ready refl listed
            (holds_request-signals s.store n ref ∙ busy) in
        (pr, t, prepend step steps, given, scheduled)

    -- A waiting request is handed over: if the readers keep their laws and serve, and the queues are
    -- wired at the start, then from every reachable state in which the iterator waits, the controller
    -- receives, the context is not done, no Push is under way and one of the queues holds a request,
    -- there are steps of the iterator and the controller after which a request more is delivered.
    pub Reach-Delivers :
        (serves : Serves) (st : Store ℕ) (s : State reader configs) (ref : QueueRef)
        → IsWired (refs_of configs) st
        → Reach reader configs st s
        → s.pushing ≡ none
        → s.cancelled ≡ false
        → s.controller ≡ receiving
        → s.iterator ≡ waiting
        → Among ref (refs_of configs)
        → holds_request s.store ref ≡ true
        → Delivers reader configs s
    Reach-Delivers serves st s ref wired reach free runs ready at listed busy =
        waiting-Delivers serves s ref (Reach-Inv laws wired reach) free runs ready at listed busy

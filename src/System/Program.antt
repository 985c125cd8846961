-- ===== src/System/Program.antt =====
-- The program from New on: its iterator with the readers of the configured algorithm.
use kombiner.Prelude.{
  arith, ℕ, ◌+◌, suc, ◌<◌, ◌^◌, ◌≡◌, ◌≢◌, ◌∙◌, refl, sym, ap, subst, String, List, [], ◌∷◌, map,
  true, false, Option, none, some, All, Yields-inv, Yields-both, value-injective, value,
}
use kombiner.Api.Config.{Queue, Configuration}
use kombiner.Queue.Store.{Store, QueueRef}
use kombiner.Queue.Config.{QueueConfig, QueueConfigs}
use kombiner.Queue.Config.Accepts.{IsComplete}
use kombiner.Queue.Access.{Among, Reader}
use kombiner.Queue.Uniform.Draws.{weight_sum}
use kombiner.Queue.Uniform.Rounds.{uniform}
use kombiner.Queue.Uniform.Checks.{HasWeight}
use kombiner.System.Uniform.{uniform_laws}
use kombiner.Queue.Iterator.{ReaderFactory, new_round_robin_reader, new_uniform_reader, created}
use kombiner.Queue.RoundRobin.Choice.{holds_request}
use kombiner.Queue.RoundRobin.Minimum.{IsFloat}
use kombiner.Queue.RoundRobin.Rounds.{round_robin}
use kombiner.Controller.New.{PlacementRequestController, new}
use kombiner.Controller.New.Accepts.{Built, new-Built}
use kombiner.System.{State, Step, Reach, starting, waiting, failed, receiving}
use kombiner.System.Invariant.{refs_of, Laws, IsWired}
use kombiner.System.RoundRobin.{round_robin_laws}
use kombiner.System.Wakeups.{no_lost_wakeup}
use kombiner.System.Progress.{never_fails}
use kombiner.System.Delivery.{Serves, Delivers, Reach-Delivers}
use kombiner.System.Serving.{round_robin-serves, uniform-serves}
use kombiner.System.Wiring.{Wires, new-Wires}

-- The readers that a factory makes.
abbrev pub reader_of : ReaderFactory → Reader
reader_of new_round_robin_reader = round_robin
reader_of new_uniform_reader = uniform

IsFloat-HasWeight : (configs : QueueConfigs) → All IsFloat configs → All HasWeight configs
IsFloat-HasWeight [] h = tt
IsFloat-HasWeight (cfg ∷ cfgs) h = (h.0.0, IsFloat-HasWeight cfgs h.1)

laws_of :
    (factory : ReaderFactory) (configs : QueueConfigs)
    → configs ≢ []
    → All IsFloat configs
    → weight_sum configs < 2 ^ 63
    → Laws (reader_of factory) configs
laws_of new_round_robin_reader [] some_queue floats small = absurd (some_queue refl)
laws_of new_round_robin_reader (cfg ∷ cfgs) some_queue floats small =
    round_robin_laws cfg cfgs floats
laws_of new_uniform_reader configs some_queue floats small =
    uniform_laws configs (IsFloat-HasWeight configs floats) small

abbrev pub total_weight : List Queue → ℕ
total_weight [] = 0
total_weight (q ∷ qs) = q.weight + total_weight qs

weight_sum-total_weight :
    (configs : QueueConfigs)
    → weight_sum configs ≡ total_weight (map (λ (c : QueueConfig). c.queue) configs)
weight_sum-total_weight [] = refl
weight_sum-total_weight (cfg ∷ cfgs) = omega (arith, weight_sum-total_weight cfgs)

-- A weight that a float64 holds.
abbrev pub IsSmall : Queue → Type 0
IsSmall q = q.weight < 2 ^ 53

All-IsFloat :
    (configs : QueueConfigs) (queues : List Queue)
    → map (λ (c : QueueConfig). c.queue) configs ≡ queues
    → All IsComplete configs
    → All IsSmall queues
    → All IsFloat configs
All-IsFloat [] queues e complete small = tt
All-IsFloat (cfg ∷ cfgs) [] e complete small = absurd (cc)
All-IsFloat (cfg ∷ cfgs) (q ∷ qs) e complete small =
    let first : cfg.queue ≡ q = cc in
    let rest : map (λ (c : QueueConfig). c.queue) cfgs ≡ qs = cc in
    ((complete.0.1, subst IsSmall (sym first) small.0), All-IsFloat cfgs qs rest complete.1 small.1)

serves_of :
    (factory : ReaderFactory) (configs : QueueConfigs) (some_queue : configs ≢ [])
    (floats : All IsFloat configs) (small : weight_sum configs < 2 ^ 63)
    → Serves (laws_of factory configs some_queue floats small)
unfolding laws_of round_robin_laws uniform_laws
serves_of new_round_robin_reader [] some_queue floats small r st ref over wired listed busy =
    absurd (some_queue refl)
serves_of new_round_robin_reader (cfg ∷ cfgs) some_queue floats small r st ref over wired listed
      busy =
    round_robin-serves (refs_of (cfg ∷ cfgs)) st wired r ref over listed busy
serves_of new_uniform_reader configs some_queue floats small r st ref reads wired listed busy =
    let same = sym reads in
    uniform-serves (refs_of configs) st wired r ref (ap refs_of reads)
      (subst (All HasWeight) same (IsFloat-HasWeight configs floats))
      (subst (λ cs. weight_sum cs < 2 ^ 63) same small) listed busy

module _ (quote : String → String) (informer : Option String) (st st' : Store ℕ)
    (cfg : Configuration) (c : PlacementRequestController) where
  -- The readers that the controller's iterator uses, and its queues.
  abbrev pub reader : Reader
  reader = reader_of c.iterator.reader_factory

  abbrev pub configs : QueueConfigs
  configs = c.iterator.configs

  -- What the iterator of a created controller can rely on.
  started :
      st.queues ≡ []
      → cfg.queues ≢ []
      → All IsSmall cfg.queues
      → total_weight cfg.queues < 2 ^ 63
      → new quote informer st cfg ≡ value (created c, st')
      → ((laws : Laws reader configs) × Serves laws) × IsWired (refs_of configs) st'
  started empty some_queue small sum ran =
      let (r, run, (built, wires)) =
        Yields-inv
          (Yields-both (new-Built quote informer st cfg) (new-Wires quote informer st cfg empty)) in
      let same : r ≡ (created c, st') = value-injective (sym run ∙ ran) in
      let (cfgs, queues, (accepted, (_, taken, _))) =
        subst
          (λ x.
            (cfgs : QueueConfigs) × (map (λ (c : QueueConfig). c.queue) cfgs ≡ cfg.queues)
            × Built cfgs cfg.fairness_algorithm informer x.0)
          same built in
      let complete = (accepted.0 tt).0 in
      let floats = All-IsFloat cfgs cfg.queues queues complete small in
      let total : weight_sum cfgs < 2 ^ 63 =
        omega (arith, sum, weight_sum-total_weight cfgs, ap total_weight queues) in
      let listed : cfgs ≢ [] =
        λ none_left. some_queue (sym queues ∙ ap (map (λ (c : QueueConfig). c.queue)) none_left) in
      (
        subst (λ cs. (laws : Laws reader cs) × Serves laws) (sym taken)
            (
              laws_of c.iterator.reader_factory cfgs listed floats total,
              serves_of c.iterator.reader_factory cfgs listed floats total,
            ),
        subst Wires same wires,
      )

  -- From New on: once New has created a controller on a store without queues, from a configuration of
  -- at least one queue, with weights below 2 ^ 53 that sum up to an int, the iterator with the readers
  -- of the configured algorithm loses no wakeup: in every reachable state in which it waits while one
  -- of its queues holds a request and no Push onto that queue is under way, a signal is there for it,
  -- and it can take the signal at once and go on.
  pub started-wakes :
      (s : State reader configs) (ref : QueueRef)
      → st.queues ≡ []
      → cfg.queues ≢ []
      → All IsSmall cfg.queues
      → total_weight cfg.queues < 2 ^ 63
      → new quote informer st cfg ≡ value (created c, st')
      → Reach reader configs st' s
      → s.iterator ≡ waiting
      → Among ref (refs_of configs)
      → holds_request s.store ref ≡ true
      → s.pushing ≢ some ref
      → (t : State reader configs) × Step reader configs s t
        × (t.iterator ≡ starting)
        × (s.store.signals ≡ suc t.store.signals)
  started-wakes s ref empty some_queue small sum ran reach at listed busy free =
      let ((laws, serves), wired) = started empty some_queue small sum ran in
      no_lost_wakeup reader configs laws st' s ref wired reach at listed busy free

  -- From New on, once New has created a controller on a store without queues, from a configuration of
  -- at least one queue, with weights below 2 ^ 53 that sum up to an int: the iterator with the readers
  -- of the configured algorithm never panics, in any reachable state: neither its factory, nor a call
  -- of Read, nor a Len or a Pop in that call.
  pub started-never_fails :
      (s : State reader configs)
      → st.queues ≡ []
      → cfg.queues ≢ []
      → All IsSmall cfg.queues
      → total_weight cfg.queues < 2 ^ 63
      → new quote informer st cfg ≡ value (created c, st')
      → Reach reader configs st' s
      → s.iterator ≢ failed
  started-never_fails s empty some_queue small sum ran reach =
      let ((laws, serves), wired) = started empty some_queue small sum ran in
      never_fails reader configs laws st' s wired reach

  -- From New on: once New has created a controller on a store without queues, from a configuration of
  -- at least one queue, with weights below 2 ^ 53 that sum up to an int, the iterator with the readers
  -- of the configured algorithm can always deliver: from every reachable state in which it waits, the
  -- controller receives, the context is not done, no Push is under way and one of the queues holds a
  -- request, there are steps after which one more request has been handed to the controller, which
  -- schedules it.
  pub started-Delivers :
      (s : State reader configs) (ref : QueueRef)
      → st.queues ≡ []
      → cfg.queues ≢ []
      → All IsSmall cfg.queues
      → total_weight cfg.queues < 2 ^ 63
      → new quote informer st cfg ≡ value (created c, st')
      → Reach reader configs st' s
      → s.pushing ≡ none
      → s.cancelled ≡ false
      → s.controller ≡ receiving
      → s.iterator ≡ waiting
      → Among ref (refs_of configs)
      → holds_request s.store ref ≡ true
      → Delivers reader configs s
  started-Delivers s ref empty some_queue small sum ran reach free runs ready at listed busy =
      let ((laws, serves), wired) = started empty some_queue small sum ran in
      Reach-Delivers laws serves st' s ref wired reach free runs ready at listed busy

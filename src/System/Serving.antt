-- ===== src/System/Serving.antt =====
-- Both readers give a request while one of the queues holds one.
use kombiner.Prelude.{
  ℕ, suc, ◌+◌, ◌*◌, ◌<◌, ◌^◌, ◌≡◌, ◌∙◌, refl, sym, ap, subst, List, [], ◌∷◌, map, true, inl, inr,
  some, arith, length, get_elem?_lt, find_index, All, value, ◌>>=◌, Yields-inv, Bool-cases,
  Option-cases,
}
use kombiner.Api.Placement.{PlacementRequest}
use kombiner.Queue.Store.{Store, QueueRef}
use kombiner.Queue.Config.{QueueConfigs}
use kombiner.Queue.Access.{Among, read_rounds}
use kombiner.Queue.RoundRobin.{ExtendedQueueConfig, RoundRobinReader}
use kombiner.Queue.RoundRobin.Agrees.{read_rounds-read}
use kombiner.Queue.RoundRobin.Checks.{ref_of, IsOver}
use kombiner.Queue.RoundRobin.Choice.{holds_request, is_busy, is_ready, choice, IsUsable}
use kombiner.Queue.RoundRobin.Rounds.{round_robin}
use kombiner.Queue.RoundRobin.Serves.{read_serves}
use kombiner.System.Delivery.{first}
use kombiner.Queue.Uniform.{UniformReader}
use kombiner.Queue.Uniform.Agrees.{uniform_rounds-read}
use kombiner.Queue.Uniform.Checks.{HasWeight}
use kombiner.Queue.Uniform.Draws.{IsBounded, weight_sum}
use kombiner.Queue.Uniform.Rounds.{uniform}
use kombiner.Queue.Uniform.Serves.{IsReadable, IsIdle, plain, uniform_read}
use kombiner.System.Invariant.{refs_of, IsWired}

abbrev Pointer : Store ℕ → QueueRef → Type 0
Pointer st ref = (k : ℕ) × (ref ≡ some k) × (k < length st.queues)

module _ (refs : List QueueRef) (st : Store ℕ) (wired : IsWired refs st) where
  usable :
      (cfg : ExtendedQueueConfig)
      → 0 < cfg.maximum_bindings
      → Pointer st (ref_of cfg)
      → IsUsable st cfg
  usable cfg share (k, at, low) =
      let (q, found) = get_elem?_lt st.queues k low in
      record {
        queue = q;
        resolves = rw at found;
        valid = (wired.queues k q found).0;
        share = share;
      }

  All-IsUsable :
      (cfgs : List ExtendedQueueConfig)
      → All (λ (cfg : ExtendedQueueConfig). 0 < cfg.maximum_bindings) cfgs
      → All (Pointer st) (map ref_of cfgs)
      → All (IsUsable st) cfgs
  All-IsUsable [] shares h = tt
  All-IsUsable (cfg ∷ cfgs) shares h = (usable cfg shares.0 h.0, All-IsUsable cfgs shares.1 h.1)

  busy_found :
      (cfgs : List ExtendedQueueConfig) (ref : QueueRef)
      → Among ref (map ref_of cfgs)
      → holds_request st ref ≡ true
      → (i : ℕ) × (find_index (is_busy st) cfgs ≡ some i)
  unfolding find_index
  busy_found [] ref a busy = absurd a
  busy_found (cfg ∷ cfgs) ref (inl here) busy =
      (0, let e = subst (λ r. holds_request st r ≡ true) here busy in rw e refl)
  busy_found (cfg ∷ cfgs) ref (inr there) busy = elim (Bool-cases (is_busy st cfg)) [
    | inl now ↦ (0, rw now refl)
    | inr idle ↦ let (i, at) = busy_found cfgs ref there busy in (suc i, rw idle (rw at refl))
  ]

  choice_found :
      (cfgs : List ExtendedQueueConfig) (ref : QueueRef)
      → Among ref (map ref_of cfgs)
      → holds_request st ref ≡ true
      → (i : ℕ) × (choice st cfgs ≡ some i)
  unfolding choice
  choice_found cfgs ref a busy =
      let (i, at) = busy_found cfgs ref a busy in
      elim (Option-cases (find_index (is_ready st) cfgs)) [
        | inl none_ready ↦ (i, rw none_ready at)
        | inr (j, ready) ↦ (j, rw ready refl)
      ]

  pub round_robin-serves :
      (r : RoundRobinReader) (ref : QueueRef)
      → IsOver refs r
      → Among ref refs
      → holds_request st ref ≡ true
      → (fuel : ℕ) × (pr : PlacementRequest) × (r' : RoundRobinReader) × (st' : Store ℕ)
        × (read_rounds first round_robin fuel r st 0 ≡ value (some pr, r', st'))
  round_robin-serves r ref over listed busy =
      let (i, chosen) =
        choice_found r.configs ref (subst (Among ref) (sym over.same) listed) busy in
      let all =
        All-IsUsable r.configs over.shares
          (subst (All (Pointer st)) (sym over.same) wired.pointers) in
      let ((o, r', st'), ran, served) = Yields-inv (read_serves st r i all chosen) in
      (
        2 * length r.configs + 1,
        served.popped.request,
        r',
        st',
        read_rounds-read first st 0 r ∙ ran ∙ ap (λ x. value (x, r', st')) served.popped.given,
      )

  first-IsBounded : IsBounded first
  first-IsBounded n g pos small = pos

  All-IsReadable :
      (cfgs : QueueConfigs)
      → All HasWeight cfgs
      → All (Pointer st) (refs_of cfgs)
      → All (IsReadable st) cfgs
  All-IsReadable [] weights h = tt
  All-IsReadable (cfg ∷ cfgs) weights h =
      ((usable (plain st cfg) (omega arith) h.0, weights.0), All-IsReadable cfgs weights.1 h.1)

  not_idle :
      (cfgs : QueueConfigs) (ref : QueueRef)
      → All (IsIdle st) cfgs
      → Among ref (refs_of cfgs)
      → holds_request st ref ≡ true
      → ⊥
  not_idle [] ref idle a busy = a
  not_idle (cfg ∷ cfgs) ref idle (inl here) busy =
      let b = subst (λ r. holds_request st r ≡ true) here busy in let i = idle.0 in absurd (cc)
  not_idle (cfg ∷ cfgs) ref idle (inr there) busy = not_idle cfgs ref idle.1 there busy

  pub uniform-serves :
      (u : UniformReader) (ref : QueueRef)
      → refs_of u.configs ≡ refs
      → All HasWeight u.configs
      → weight_sum u.configs < 2 ^ 63
      → Among ref refs
      → holds_request st ref ≡ true
      → (fuel : ℕ) × (pr : PlacementRequest) × (r' : UniformReader) × (st' : Store ℕ) × (read_rounds
            first uniform fuel u st 0
          ≡ value (some pr, r', st'))
  uniform-serves u ref same weights small listed busy =
      let all =
        All-IsReadable u.configs weights (subst (All (Pointer st)) (sym same) wired.pointers) in
      let ((o, st', g'), ran, of) =
        Yields-inv (uniform_read st first first-IsBounded u 0 all small) in
      let agree =
        uniform_rounds-read first u st 0 ∙ ap (λ m. m >>= λ (o, st', g'). value (o, u, st')) ran in
      elim of [
        | inl (given, same_store, idle) ↦
            absurd (not_idle u.configs ref idle (subst (Among ref) (sym same) listed) busy)
        | inr s ↦ (1, s.popped.request, u, st', agree ∙ ap (λ x. value (x, u, st')) s.popped.given)
      ]

-- ===== src/Queue/RoundRobin/Reads.antt =====
-- The parts of a read: a pop from a busy queue, and an empty queue that gives up its share.
use kombiner.Prelude.{
  ℕ, ◌+◌, ◌-◌, ◌<◌, ◌≡◌, ◌∙◌, refl, ap, sym, List, map, Bool, true, false, ◌&&◌, Option, none, some,
  arith, length, get_elem?, set, value, find_index, All, find_index-set, find_index-sharper,
  find_index-holds, get_elem?-set, get_elem?-inside, ◌≢◌, ◌⊎◌, find_index-none_of_sharper,
  count_of-set, length-set, All-at, All-set, map-set, set_self, Option-cases, inl, inr, Yields,
  yields, Yields-bind,
}
use kombiner.Api.Placement.{PlacementRequest}
use mathlib.Core.Option
use kombiner.Queue.Store.{Store, QueueRef, deref?, write, queue_pop}
use kombiner.Queue.PlacementRequest
use kombiner.Queue.PlacementRequest.{PlacementRequestQueue}
use kombiner.Queue.PlacementRequest.Contents.{Popped, pop-empty, pop-Popped}
use kombiner.Queue.RoundRobin.{ExtendedQueueConfig, RoundRobinReader, has_room}
use kombiner.Queue.RoundRobin.Choice.{is_busy, is_ready, choice, prefer, IsUsable, is_busy_lem}
use kombiner.Queue.RoundRobin.Picks.{share, base, base_at, measure, Picked, and_left}

and_right : (a b : Bool) → (a && b) ≡ true → b ≡ true
and_right true b e = e
and_right false b e = absurd (cc)

module _ {S : Type 0} (st : Store S) where
  -- What a read gives that serves the queue of the config at `i`.
  pub record Served (cfgs : List ExtendedQueueConfig) (i : ℕ)
      (r : Option PlacementRequest × RoundRobinReader × Store S) : Type 0 where
    pub before : ExtendedQueueConfig
    -- The config at `i`, its count reset to 0 exactly if it had no room.
    pub origin : base_at cfgs i ≡ some before
    pub queue : PlacementRequestQueue S
    pub queue' : PlacementRequestQueue S
    pub resolves : deref? st before.config.queue_ref ≡ some queue
    pub popped : Popped queue (r.0, queue')
    pub stored : r.2 ≡ write st before.config.queue_ref queue'
    pub room : before.bindings_read < before.maximum_bindings
    pub counted :
        get_elem? r.1.configs i
        ≡ some (record before {
          bindings_read = before.bindings_read + length popped.request.spec.bindings;
        })
    pub shares : map share r.1.configs ≡ map share cfgs

  write_self :
      (ref : QueueRef) (q : PlacementRequestQueue S) → deref? st ref ≡ some q → write st ref q ≡ st
  write_self none q e = refl
  write_self (some k) q e = λ i. record st { queues = set_self st.queues k e i }

  pub queue_pop-idle :
      (cfg : ExtendedQueueConfig) (u : IsUsable st cfg)
      → is_busy st cfg ≡ false
      → queue_pop st cfg.config.queue_ref ≡ value (none, st)
  unfolding queue_pop
  queue_pop-idle cfg u idle =
      let none_left : PlacementRequest.len u.queue ≡ 0 = ground (arith, is_busy_lem st cfg u) in
      rw (u.resolves) (
        rw (pop-empty u.queue none_left) (
          ap (λ (x : Store S). value (none, x))
            (write_self cfg.config.queue_ref u.queue u.resolves)))

  pub queue_pop-busy :
      (cfg : ExtendedQueueConfig) (u : IsUsable st cfg)
      → is_busy st cfg ≡ true
      → Yields
          (λ r.
            (q' : PlacementRequestQueue S) × Popped u.queue (r.0, q')
            × (r.1 ≡ write st cfg.config.queue_ref q'))
          (queue_pop st cfg.config.queue_ref)
  unfolding queue_pop
  queue_pop-busy cfg u busy =
      let n = PlacementRequest.len u.queue in
      let some_left : 0 < n = ground (arith, is_busy_lem st cfg u) in
      rw (u.resolves) (
        Yields-bind (pop-Popped (n - 1) u.queue (omega arith) u.valid)
          λ (o, q') p. yields (q', p, refl))

  none_chosen : {i : ℕ} (a b : Option ℕ) → a ≡ none → b ≡ none → prefer st a b ≡ some i → ⊥
  none_chosen a b ea eb e = ground arith

  busy_at :
      (cfgs : List ExtendedQueueConfig) (i : ℕ) (test : ExtendedQueueConfig → Bool)
      → ((c : ExtendedQueueConfig) → test c ≡ true → is_busy st c ≡ true)
      → find_index test cfgs ≡ some i
      → (c : ExtendedQueueConfig) × (get_elem? cfgs i ≡ some c) × (is_busy st c ≡ true)
  busy_at cfgs i test sharp e =
      let (c, at, holds) = find_index-holds test cfgs i e in (c, at, sharp c holds)

  preferred : {i : ℕ} (a b : Option ℕ) → prefer st a b ≡ some i → (a ≡ some i) ⊎ (b ≡ some i)
  preferred (some a) b e = inl e
  preferred none b e = inr e

  -- The choice is busy.
  pub choice-at :
      (cfgs : List ExtendedQueueConfig) (i : ℕ)
      → choice st cfgs ≡ some i
      → (c : ExtendedQueueConfig) × (get_elem? cfgs i ≡ some c) × (is_busy st c ≡ true)
  unfolding choice
  choice-at cfgs i e =
      elim (preferred (find_index (is_ready st) cfgs) (find_index (is_busy st) cfgs) e) [
        | inl ready ↦
            busy_at cfgs i (is_ready st) (λ c. and_right (has_room c) (is_busy st c)) ready
        | inr busy ↦ busy_at cfgs i (is_busy st) (λ c h. h) busy
      ]

  set_other :
      (cfgs : List ExtendedQueueConfig) (k i : ℕ) {c : ExtendedQueueConfig}
      (d : ExtendedQueueConfig)
      → get_elem? cfgs k ≡ some c
      → k ≢ i
      → get_elem? (set cfgs k d) i ≡ get_elem? cfgs i
  set_other cfgs k i d at other =
      ground (arith, get_elem?-set cfgs k i d (get_elem?-inside cfgs k at))

  -- Some queue is busy if there is a choice.
  pub choice-busy :
      (cfgs : List ExtendedQueueConfig) (i : ℕ)
      → choice st cfgs ≡ some i
      → (j : ℕ) × (find_index (is_busy st) cfgs ≡ some j)
  unfolding choice
  choice-busy cfgs i e = elim (Option-cases (find_index (is_busy st) cfgs)) [
    | inr found ↦ found
    | inl idle ↦
        let unready =
          find_index-none_of_sharper (is_busy st) (is_ready st) cfgs
            (λ y. and_right (has_room y) (is_busy st y)) idle in
        absurd (
          none_chosen (find_index (is_ready st) cfgs) (find_index (is_busy st) cfgs) unready idle e)
  ]

  idle_of_none : (a b : Option ℕ) → prefer st a b ≡ none → b ≡ none
  idle_of_none none b e = e
  idle_of_none (some i) b e = absurd (cc)

  pub choice-none :
      (cfgs : List ExtendedQueueConfig)
      → choice st cfgs ≡ none
      → find_index (is_busy st) cfgs ≡ none
  unfolding choice
  choice-none cfgs e = idle_of_none (find_index (is_ready st) cfgs) (find_index (is_busy st) cfgs) e

  -- The picked queue is the choice, if it is busy.
  pub Picked-choice :
      (cfgs : List ExtendedQueueConfig) (k : ℕ) (r : RoundRobinReader) (p : Picked st cfgs k r)
      → is_busy st p.cfg ≡ true
      → choice st cfgs ≡ some k
  unfolding choice
  Picked-choice cfgs k r p busy =
      let ready : is_ready st p.cfg ≡ true = ground (arith, p.room, busy) in
      let found =
        find_index-sharper has_room (is_ready st) r.configs k p.cfg
          (λ y. and_left (has_room y) (is_busy st y)) p.first p.at ready in
      sym p.same_choice
      ∙ ap (λ (o : Option ℕ). prefer st o (find_index (is_busy st) r.configs)) found

  abbrev pub spend : ExtendedQueueConfig → ExtendedQueueConfig
  spend cfg = record cfg { bindings_read = cfg.maximum_bindings }

  module _ (cfgs : List ExtendedQueueConfig) (k : ℕ) (r : RoundRobinReader) (p : Picked st cfgs k r)
      (idle : is_busy st p.cfg ≡ false) where
    abbrev pub rest : List ExtendedQueueConfig
    rest = set r.configs k (spend p.cfg)

    spend-ready : find_index (is_ready st) rest ≡ find_index (is_ready st) r.configs
    spend-ready = find_index-set (is_ready st) r.configs k (spend p.cfg) p.at (ground (arith, idle))

    pub spend-choice : choice st rest ≡ choice st cfgs
    unfolding choice
    spend-choice =
        rw (spend-ready, find_index-set (is_busy st) r.configs k (spend p.cfg) p.at refl)
          p.same_choice

    pub spend-measure : measure st rest < measure st cfgs
    spend-measure =
        rw (spend-ready, length-set r.configs k (spend p.cfg))
          (omega (
            arith,
            p.less,
            count_of-set has_room r.configs k (spend p.cfg) p.at p.room (ground arith),
          ))

    pub spend-base : (i : ℕ) → choice st cfgs ≡ some i → base_at rest i ≡ base_at cfgs i
    spend-base i e =
        let (c, at, busy) = choice-at r.configs i (p.same_choice ∙ e) in
        let other : k ≢ i =
          λ same. let there : get_elem? r.configs k ≡ some c = rw same at in let q = p.at in cc in
        ap (Option.map base) (set_other r.configs k i (spend p.cfg) p.at other) ∙ p.bases i

    pub spend-IsUsable : All (IsUsable st) rest
    spend-IsUsable =
        let u = All-at (IsUsable st) r.configs k p.at p.usable in
        All-set (IsUsable st) r.configs k (spend p.cfg) p.usable
          (record { queue = u.queue; resolves = u.resolves; valid = u.valid; share = u.share })

    pub spend-shares : map share rest ≡ map share cfgs
    spend-shares = map-set share r.configs k (spend p.cfg) p.at refl ∙ p.shares

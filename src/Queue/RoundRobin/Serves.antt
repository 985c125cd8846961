-- ===== src/Queue/RoundRobin/Serves.antt =====
-- Read serves the queue of choice, and always returns.
use kombiner.Prelude.{
  ℕ, zero, suc, ◌+◌, ◌*◌, ◌≤◌, ◌<◌, ◌≡◌, ◌∙◌, refl, sym, List, map, true, Option, none, some, arith,
  length, get_elem?, set, Outcome, value, ◌>>=◌, find_index, All, count_of-le, All-at,
  get_elem?-set_at, map-set, get_elem?-inside, Bool-cases, inl, inr, Yields, yields, Yields-bind,
  Yields-map, ltb→lt,
}
use kombiner.Api.Placement.{PlacementRequest}
use kombiner.Queue.Store.{Store, queue_pop}
use kombiner.Queue.RoundRobin.{
  ExtendedQueueConfig, RoundRobinReader, has_room, pick, read_loop, read,
}
use kombiner.Queue.RoundRobin.Choice.{is_busy, choice, IsUsable, empty_lem}
use kombiner.Queue.RoundRobin.Picks.{share, base_at, measure, Picked, pick-Picked}
use kombiner.Queue.RoundRobin.Reads.{
  Served, queue_pop-idle, queue_pop-busy, choice-busy, Picked-choice, rest, spend-choice,
  spend-measure, spend-IsUsable, spend-shares, spend-base,
}

one_more : (n : ℕ) → n + 1 ≡ suc n
one_more n = omega arith

some_inj : (a b : ℕ) → some a ≡ some b → a ≡ b
some_inj a b e = cc

module _ {S : Type 0} (st : Store S) where
  Served-shares :
      {cfgs cfgs' : List ExtendedQueueConfig} {i : ℕ}
      (m : Outcome (Option PlacementRequest × RoundRobinReader × Store S))
      → map share cfgs' ≡ map share cfgs
      → base_at cfgs' i ≡ base_at cfgs i
      → Yields (Served st cfgs' i) m
      → Yields (Served st cfgs i) m
  Served-shares m e b run = Yields-map run λ r s. record {
    before = s.before;
    origin = sym b ∙ s.origin;
    queue = s.queue;
    queue' = s.queue';
    resolves = s.resolves;
    popped = s.popped;
    stored = s.stored;
    room = s.room;
    counted = s.counted;
    shares = s.shares ∙ e;
  }

  -- The rest of a read, once a queue is picked and popped.
  abbrev finish :
      ℕ
      → RoundRobinReader
      → ℕ
      → ExtendedQueueConfig
      → Option PlacementRequest × Store S
      → Outcome (Option PlacementRequest × RoundRobinReader × Store S)
  finish fuel r k cfg (found, st1) = elim found [
    | some pr ↦
        let count = cfg.bindings_read + length pr.spec.bindings in
        let served = record cfg { bindings_read = count } in
        value (some pr, record { configs = set r.configs k served }, st1)
    | none ↦
        let spent = record cfg { bindings_read = cfg.maximum_bindings } in
        read_loop fuel (record { configs = set r.configs k spent }) st1
  ]

  read_loop_step :
      (fuel : ℕ) (r r1 : RoundRobinReader) (j k : ℕ) (cfg : ExtendedQueueConfig)
      → All (IsUsable st) r.configs
      → find_index (is_busy st) r.configs ≡ some j
      → pick r ≡ value (k, r1)
      → get_elem? r1.configs k ≡ some cfg
      → read_loop (suc fuel) r st ≡ (queue_pop st cfg.config.queue_ref >>= finish fuel r1 k cfg)
  unfolding read_loop
  read_loop_step fuel r r1 j k cfg u busy picked at =
      rw (empty_lem st r.configs u, busy) (rw picked (rw at))

  base_self :
      (cfgs : List ExtendedQueueConfig) (k : ℕ) (cfg : ExtendedQueueConfig)
      → get_elem? cfgs k ≡ some cfg
      → has_room cfg ≡ true
      → base_at cfgs k ≡ some cfg
  base_self cfgs k cfg at room = rw at (rw room refl)

  finish-Served :
      (fuel : ℕ) (cfgs : List ExtendedQueueConfig) (k : ℕ) (r : RoundRobinReader)
      (p : Picked st cfgs k r) (u : IsUsable st p.cfg)
      → is_busy st p.cfg ≡ true
      → Yields (Served st cfgs k) (queue_pop st p.cfg.config.queue_ref >>= finish fuel r k p.cfg)
  finish-Served fuel cfgs k r p u busy =
      Yields-bind (queue_pop-busy st p.cfg u busy) λ (found, st1) (q', popped, stored).
        rw (popped.given) (
          yields (record {
            before = p.cfg;
            origin = sym (p.bases k) ∙ base_self r.configs k p.cfg p.at p.room;
            queue = u.queue;
            queue' = q';
            resolves = u.resolves;
            popped = record {
              request = popped.request;
              given = refl;
              valid = popped.valid;
              same = popped.same;
              first = popped.first;
              handlers = popped.handlers;
            };
            stored = stored;
            room = ltb→lt _ _ p.room;
            counted = get_elem?-set_at r.configs k _ (get_elem?-inside r.configs k p.at);
            shares = map-set share r.configs k _ p.at refl ∙ p.shares;
          }))

  read_loop-Served :
      (fuel : ℕ) (r : RoundRobinReader) (i : ℕ)
      → measure st r.configs < fuel
      → All (IsUsable st) r.configs
      → choice st r.configs ≡ some i
      → Yields (Served st r.configs i) (read_loop fuel r st)
  read_loop-Served zero r i f u e = absurd (omega arith)
  read_loop-Served (suc fuel) r i f u e =
      let (j, busy) = choice-busy st r.configs i e in
      let (k, r1, picked, p) = pick-Picked st r j u busy in
      let usable = All-at (IsUsable st) r1.configs k p.at p.usable in
      rw (read_loop_step fuel r r1 j k p.cfg u busy picked p.at)
        (elim (Bool-cases (is_busy st p.cfg)) [
          | inl serves ↦
              let chosen = Picked-choice st r.configs k r1 p serves in
              let same : k ≡ i = some_inj k i (sym chosen ∙ e) in
              rw (← same) (finish-Served fuel r.configs k r1 p usable serves)
          | inr idle ↦ rw (queue_pop-idle st p.cfg usable idle) (
              Served-shares _ (spend-shares st r.configs k r1 p idle)
                (spend-base st r.configs k r1 p idle i e)
                (read_loop-Served fuel (record { configs = rest st r.configs k r1 p idle }) i
                  (omega (arith, spend-measure st r.configs k r1 p idle))
                  (spend-IsUsable st r.configs k r1 p idle)
                  (spend-choice st r.configs k r1 p idle ∙ e)))
        ])

  read_loop-idle :
      (fuel : ℕ) (r : RoundRobinReader)
      → All (IsUsable st) r.configs
      → find_index (is_busy st) r.configs ≡ none
      → read_loop (suc fuel) r st ≡ value (none, r, st)
  unfolding read_loop
  read_loop-idle fuel r u idle = rw (empty_lem st r.configs u, idle)

  measure-le : (cfgs : List ExtendedQueueConfig) → measure st cfgs ≤ 2 * length cfgs
  measure-le cfgs = ground (arith, count_of-le has_room cfgs)

  -- Where every pointer leads to a valid queue and every share is positive: if all queues are empty,
  -- Read returns nil and changes nothing.
  pub read_empty :
      (r : RoundRobinReader)
      → All (IsUsable st) r.configs
      → find_index (is_busy st) r.configs ≡ none
      → read r st ≡ value (none, r, st)
  unfolding read
  read_empty r u idle =
      rw (one_more (2 * length r.configs)) (read_loop-idle (2 * length r.configs) r u idle)

  -- Where every pointer leads to a valid queue and every share is positive, and some queue holds a
  -- request: Read returns and serves the queue of choice, which is the first queue with requests and
  -- room in its share or, if there is none, the first queue with requests. It pops that queue and
  -- writes it back, adds the request's bindings to those counted against its share before, or to 0 if
  -- there was no room left in the share, and changes no other queue, no share and no pointer.
  pub read_serves :
      (r : RoundRobinReader) (i : ℕ)
      → All (IsUsable st) r.configs
      → choice st r.configs ≡ some i
      → Yields (Served st r.configs i) (read r st)
  unfolding read
  read_serves r i u e =
      read_loop-Served (2 * length r.configs + 1) r i (omega (arith, measure-le r.configs)) u e

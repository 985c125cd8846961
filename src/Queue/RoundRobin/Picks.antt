-- ===== src/Queue/RoundRobin/Picks.antt =====
-- `next` and `reset` lead to the queue of choice, or to an empty one with room before it.
use kombiner.Prelude.{
  ℕ, zero, suc, Option, ◌+◌, ◌≤◌, ◌≡◌, ◌∙◌, refl, ap, List, [], ◌∷◌, map, Bool, true, false, ◌&&◌,
  none, some, arith, if◌then◌else◌, length, get_elem?, value, find_index, All, count_of,
  find_index-holds, find_index-none_of_sharper, count_of-le, Option-cases, inl, inr,
}
use mathlib.Core.Option
use kombiner.Queue.Store.{Store}
use kombiner.Queue.Config.{QueueConfig}
use kombiner.Queue.RoundRobin.{ExtendedQueueConfig, RoundRobinReader, has_room, reset, pick}
use kombiner.Queue.RoundRobin.Choice.{next_lem, is_none, is_busy, is_ready, choice, IsUsable}

-- What a read never changes of a config: the queue and its share.
abbrev pub share : ExtendedQueueConfig → QueueConfig × ℕ
share cfg = (cfg.config, cfg.maximum_bindings)

share-reset : (cfgs : List ExtendedQueueConfig) → map share (reset cfgs) ≡ map share cfgs
unfolding reset
share-reset [] = refl
share-reset (cfg ∷ cfgs) = λ i. share cfg ∷ share-reset cfgs i

length-reset : (cfgs : List ExtendedQueueConfig) → length (reset cfgs) ≡ length cfgs
unfolding reset
length-reset [] = refl
length-reset (cfg ∷ cfgs) = ap suc (length-reset cfgs)

-- The config from which a read counts: its count goes on while there is room in its share, and
-- starts again from 0 if there is none.
abbrev pub base : ExtendedQueueConfig → ExtendedQueueConfig
base cfg = if has_room cfg then cfg else record cfg { bindings_read = 0 }

abbrev pub base_at : List ExtendedQueueConfig → ℕ → Option ExtendedQueueConfig
base_at cfgs i = Option.map base (get_elem? cfgs i)

base-reset :
    (cfgs : List ExtendedQueueConfig) (i : ℕ)
    → find_index has_room cfgs ≡ none
    → base_at (reset cfgs) i ≡ base_at cfgs i
unfolding reset find_index
base-reset [] i full = refl
base-reset (cfg ∷ cfgs) zero full = ground arith
base-reset (cfg ∷ cfgs) (suc i) full = base-reset cfgs i (ground arith)

pick-found :
    (r : RoundRobinReader) (i : ℕ) → find_index has_room r.configs ≡ some i → pick r ≡ value (i, r)
unfolding pick
pick-found r i e = let found = next_lem r.configs ∙ e in rw (found, pick)

pick-reset :
    (r : RoundRobinReader) (i : ℕ)
    → find_index has_room r.configs ≡ none
    → find_index has_room (reset r.configs) ≡ some i
    → pick r ≡ value (i, record { configs = reset r.configs })
unfolding pick
pick-reset r i e f =
    let full = next_lem r.configs ∙ e in
    let found = next_lem (reset r.configs) ∙ f in rw (full, pick) (rw (found, pick))

pub and_left : (a b : Bool) → (a && b) ≡ true → a ≡ true
and_left true b e = refl
and_left false b e = e

module _ {S : Type 0} (st : Store S) where
  reset-IsUsable :
      (cfgs : List ExtendedQueueConfig) → All (IsUsable st) cfgs → All (IsUsable st) (reset cfgs)
  unfolding reset
  reset-IsUsable [] u = tt
  reset-IsUsable (cfg ∷ cfgs) u = (
    record { queue = u.0.queue; resolves = u.0.resolves; valid = u.0.valid; share = u.0.share },
    reset-IsUsable cfgs u.1,
  )

  find_busy-reset :
      (cfgs : List ExtendedQueueConfig)
      → find_index (is_busy st) (reset cfgs) ≡ find_index (is_busy st) cfgs
  unfolding reset find_index
  find_busy-reset [] = refl
  find_busy-reset (cfg ∷ cfgs) = ground (arith, find_busy-reset cfgs)

  -- After a reset every queue has room.
  find_ready-reset :
      (cfgs : List ExtendedQueueConfig)
      → All (IsUsable st) cfgs
      → find_index (is_ready st) (reset cfgs) ≡ find_index (is_busy st) cfgs
  unfolding reset find_index
  find_ready-reset [] u = refl
  find_ready-reset (cfg ∷ cfgs) u = ground (arith, u.0.share, find_ready-reset cfgs u.1)

  find_room-reset :
      (cfgs : List ExtendedQueueConfig) (i : ℕ)
      → All (IsUsable st) cfgs
      → find_index (is_busy st) cfgs ≡ some i
      → find_index has_room (reset cfgs) ≡ some 0
  unfolding reset find_index
  find_room-reset [] i u b = absurd (cc)
  find_room-reset (cfg ∷ cfgs) i u b = ground (arith, u.0.share)

  -- How many more calls a read may make.
  abbrev pub measure : List ExtendedQueueConfig → ℕ
  measure cfgs =
      count_of has_room cfgs + (if is_none (find_index (is_ready st) cfgs) then length cfgs else 0)

  module _ (cfgs : List ExtendedQueueConfig) (j : ℕ) (u : All (IsUsable st) cfgs)
      (full : find_index has_room cfgs ≡ none) (b : find_index (is_busy st) cfgs ≡ some j) where
    none_ready : find_index (is_ready st) cfgs ≡ none
    none_ready =
        find_index-none_of_sharper has_room (is_ready st) cfgs
          (λ y. and_left (has_room y) (is_busy st y)) full

    choice-reset : choice st (reset cfgs) ≡ choice st cfgs
    unfolding choice
    choice-reset = rw (none_ready, find_ready-reset cfgs u, find_busy-reset cfgs, b)

    measure-reset : measure (reset cfgs) ≤ measure cfgs
    measure-reset =
        rw (none_ready, find_ready-reset cfgs u, b)
          (omega (arith, count_of-le has_room (reset cfgs), length-reset cfgs))

  -- The state in which a queue is picked.
  pub record Picked (cfgs : List ExtendedQueueConfig) (i : ℕ) (r : RoundRobinReader) : Type 0 where
    pub cfg : ExtendedQueueConfig
    pub at : get_elem? r.configs i ≡ some cfg
    pub room : has_room cfg ≡ true
    pub first : find_index has_room r.configs ≡ some i
    pub usable : All (IsUsable st) r.configs
    pub shares : map share r.configs ≡ map share cfgs
    pub bases : (n : ℕ) → base_at r.configs n ≡ base_at cfgs n
    pub size : length r.configs ≡ length cfgs
    pub same_choice : choice st r.configs ≡ choice st cfgs
    pub less : measure r.configs ≤ measure cfgs

  pub pick-Picked :
      (r : RoundRobinReader) (j : ℕ)
      → All (IsUsable st) r.configs
      → find_index (is_busy st) r.configs ≡ some j
      → (i : ℕ) × (r' : RoundRobinReader) × (pick r ≡ value (i, r')) × Picked r.configs i r'
  unfolding pick
  pick-Picked r j u b = elim (Option-cases (find_index has_room r.configs)) [
    | inr (i, found) ↦
        let (cfg, at, room) = find_index-holds has_room r.configs i found in
        (
          i,
          r,
          pick-found r i found,
          record {
            cfg = cfg;
            at = at;
            room = room;
            first = found;
            usable = u;
            shares = refl;
            bases = λ n. refl;
            size = refl;
            same_choice = refl;
            less = omega arith;
          },
        )
    | inl full ↦
        let cfgs = reset r.configs in
        let found = find_room-reset r.configs j u b in
        let (cfg, at, room) = find_index-holds has_room cfgs 0 found in
        (
          0,
          record { configs = cfgs },
          pick-reset r 0 full found,
          record {
            cfg = cfg;
            at = at;
            room = room;
            first = found;
            usable = reset-IsUsable r.configs u;
            shares = share-reset r.configs;
            bases = λ n. base-reset r.configs n full;
            size = length-reset r.configs;
            same_choice = choice-reset r.configs j u full b;
            less = measure-reset r.configs j u full b;
          },
        )
  ]

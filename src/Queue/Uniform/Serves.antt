-- ===== src/Queue/Uniform/Serves.antt =====
-- Which requests a read gives.
use kombiner.Prelude.{
  ℕ, zero, suc, ◌≤◌, ◌<◌, ◌^◌, ◌≡◌, refl, ap, List, [], ◌∷◌, false, Option, none, some, arith,
  length, get_elem?, All, All-at, value, Bool-cases, inl, inr, ◌⊎◌, Yields, yields, Yields-bind,
  Yields-map, Outcome,
}
use mathlib.Core.Path.{subst}
use kombiner.Api.Placement.{PlacementRequest}
use kombiner.Queue.Store.{Store, deref?, write}
use kombiner.Queue.Config.{QueueConfig, QueueConfigs}
use kombiner.Queue.PlacementRequest.{PlacementRequestQueue}
use kombiner.Queue.PlacementRequest.Contents.{Popped}
use kombiner.Queue.RoundRobin.{ExtendedQueueConfig}
use kombiner.Queue.RoundRobin.Choice.{IsUsable, holds_request}
use kombiner.Queue.RoundRobin.Reads.{queue_pop-idle, queue_pop-busy}
use kombiner.Queue.Uniform.{Rand, UniformReader, delete, read_loop, read}
use kombiner.Queue.Uniform.Draws.{weight_sum, IsBounded, next-Selects}

module _ {ℓ} {A : Type ℓ} where
  pub length-delete :
      (i : ℕ) (xs : List A) {x : A} {n : ℕ}
      → get_elem? xs i ≡ some x
      → length xs ≡ suc n
      → length (delete i xs) ≡ n
  unfolding delete
  length-delete i [] e h = absurd (cc)
  length-delete zero (x ∷ xs) e h = omega arith
  length-delete (suc i) (x ∷ []) e h = absurd (cc)
  length-delete (suc i) (x ∷ y ∷ xs) {n = zero} e h = absurd (omega arith)
  length-delete (suc i) (x ∷ y ∷ xs) {n = suc n} e h =
      ap suc (length-delete i (y ∷ xs) e (omega arith))

  pub All-delete {κ} : (P : A → Type κ) (i : ℕ) (xs : List A) → All P xs → All P (delete i xs)
  unfolding delete
  All-delete P i [] h = tt
  All-delete P zero (x ∷ xs) h = h.1
  All-delete P (suc i) (x ∷ xs) h = (h.0, All-delete P i xs h.1)

  -- What holds of the deleted entry and of the others holds of all.
  All-deleted {κ} :
      (P : A → Type κ) (i : ℕ) (xs : List A) {x : A}
      → get_elem? xs i ≡ some x
      → P x
      → All P (delete i xs)
      → All P xs
  unfolding delete
  All-deleted P i [] e p h = absurd (cc)
  All-deleted P zero (y ∷ ys) {x} e p h = (subst P (some_inj e) p, h)
    where
      some_inj : some y ≡ some x → x ≡ y
      some_inj e = cc
  All-deleted P (suc i) (y ∷ ys) e p h = (h.0, All-deleted P i ys e p h.1)

  delete-get_elem? :
      (i j : ℕ) (xs : List A) {y : A}
      → get_elem? (delete i xs) j ≡ some y
      → (k : ℕ) × (get_elem? xs k ≡ some y)
  unfolding delete
  delete-get_elem? i j [] e = absurd (cc)
  delete-get_elem? zero j (x ∷ xs) e = (suc j, e)
  delete-get_elem? (suc i) zero (x ∷ xs) e = (zero, e)
  delete-get_elem? (suc i) (suc j) (x ∷ xs) e =
      let (k, at) = delete-get_elem? i j xs e in (suc k, at)

weight_sum-delete : (i : ℕ) (cfgs : QueueConfigs) → weight_sum (delete i cfgs) ≤ weight_sum cfgs
unfolding delete
weight_sum-delete i [] = omega arith
weight_sum-delete zero (cfg ∷ cfgs) = omega arith
weight_sum-delete (suc i) (cfg ∷ cfgs) = omega (arith, weight_sum-delete i cfgs)

module _ {S : Type 0} (st : Store S) where
  -- The config as the lemmas on pops take it; the share plays no part in them.
  abbrev pub plain : QueueConfig → ExtendedQueueConfig
  plain cfg = record { config = cfg; maximum_bindings = 1; bindings_read = 0 }

  -- The pointer leads to a valid queue, and the weight is not zero.
  abbrev pub IsReadable : QueueConfig → Type 0
  IsReadable cfg = IsUsable st (plain cfg) × (0 < cfg.queue.weight)

  abbrev pub IsIdle : QueueConfig → Type 0
  IsIdle cfg = holds_request st cfg.queue_ref ≡ false

  -- What a read gives that serves the queue of one of the configs.
  pub record ServedOne (cfgs : QueueConfigs) (o : Option PlacementRequest) (st' : Store S)
      : Type 0 where
    pub index : ℕ
    pub config : QueueConfig
    pub listed : get_elem? cfgs index ≡ some config
    pub queue : PlacementRequestQueue S
    pub queue' : PlacementRequestQueue S
    pub resolves : deref? st config.queue_ref ≡ some queue
    pub popped : Popped queue (o, queue')
    pub stored : st' ≡ write st config.queue_ref queue'

  -- A read gives nothing, from empty queues and without a change, or serves one of the queues.
  abbrev pub ReadOf : QueueConfigs → Option PlacementRequest → Store S → Type 0
  ReadOf cfgs o st' = ((o ≡ none) × (st' ≡ st) × All IsIdle cfgs) ⊎ ServedOne cfgs o st'

  ReadOf-delete :
      {cfgs : QueueConfigs} (i : ℕ) {cfg : QueueConfig} {o : Option PlacementRequest}
      {st' : Store S}
      → get_elem? cfgs i ≡ some cfg
      → IsIdle cfg
      → ReadOf (delete i cfgs) o st'
      → ReadOf cfgs o st'
  ReadOf-delete {cfgs} i at idle (inl (given, same, all)) =
      inl (given, same, All-deleted IsIdle i cfgs at idle all)
  ReadOf-delete {cfgs} i at idle (inr s) =
      let (k, listed) = delete-get_elem? i s.index cfgs s.listed in
      inr (record {
        index = k;
        config = s.config;
        listed = listed;
        queue = s.queue;
        queue' = s.queue';
        resolves = s.resolves;
        popped = s.popped;
        stored = s.stored;
      })

  -- After a pop from a busy queue the read is over.
  ReadOf-busy :
      {R : Type 0} {cfgs : QueueConfigs} (i : ℕ) {cfg : QueueConfig} (g : R)
      → get_elem? cfgs i ≡ some cfg
      → (u : IsUsable st (plain cfg)) (o : Option PlacementRequest) (st1 : Store S)
      → (q' : PlacementRequestQueue S) × Popped u.queue (o, q') × (st1 ≡ write st cfg.queue_ref q')
      → (rest : Outcome (Option PlacementRequest × Store S × R))
      → Yields
          (λ r. ReadOf cfgs r.0 r.1)
          (elim o [ some pr ↦ value (some pr, st1, g) | none ↦ rest ])
  ReadOf-busy i g at u none st1 (q', p, stored) rest = absurd (let given = p.given in cc)
  ReadOf-busy i {cfg} g at u (some pr) st1 (q', p, stored) rest = yields (
      inr (record {
        index = i;
        config = cfg;
        listed = at;
        queue = u.queue;
        queue' = q';
        resolves = u.resolves;
        popped = p;
        stored = stored;
      }))

  module _ {R : Type 0} (rand : Rand R) (bounded : IsBounded rand) where
    read_loop-ReadOf :
        (n : ℕ) (cfgs : QueueConfigs) (g : R)
        → length cfgs ≡ n
        → All IsReadable cfgs
        → weight_sum cfgs < 2 ^ 63
        → Yields (λ r. ReadOf cfgs r.0 r.1) (read_loop rand n cfgs st g)
    unfolding read_loop
    read_loop-ReadOf zero [] g h u small = yields (inl (refl, refl, tt))
    read_loop-ReadOf zero (cfg ∷ cfgs) g h u small = absurd (omega arith)
    read_loop-ReadOf (suc n) [] g h u small = absurd (omega arith)
    read_loop-ReadOf (suc n) (first ∷ others) g h u small =
        let cfgs : QueueConfigs = first ∷ others in
        let pos : 0 < weight_sum cfgs = omega (arith, u.0.1) in
        Yields-bind (next-Selects rand cfgs g bounded pos small) λ (i, g1) (s, _).
          let usable = (All-at IsReadable cfgs i s.found u).0 in
          rw (s.found) (elim (Bool-cases (holds_request st s.entry.queue_ref)) [
            | inl busy ↦ Yields-bind (queue_pop-busy st (plain s.entry) usable busy) λ (o, st1) p.
                ReadOf-busy i g1 s.found usable o st1 p (read_loop rand n (delete i cfgs) st1 g1)
            | inr idle ↦ rw (queue_pop-idle st (plain s.entry) usable idle) (
                let rest =
                  read_loop-ReadOf n (delete i cfgs) g1 (length-delete i cfgs s.found h)
                    (All-delete IsReadable i cfgs u) (omega (arith, weight_sum-delete i cfgs)) in
                Yields-map rest (λ r. ReadOf-delete i s.found idle))
          ])

    -- Where every pointer leads to a valid queue, every weight is over 0 and their sum is an int, and the
    -- random numbers are under their bound: Read returns. It gives nothing only if every queue is empty,
    -- and then changes none; or it serves one of the queues, by a Pop that gives a request, and changes
    -- no other queue.
    pub uniform_read :
        (u : UniformReader) (g : R)
        → All IsReadable u.configs
        → weight_sum u.configs < 2 ^ 63
        → Yields (λ r. ReadOf u.configs r.0 r.1) (read rand u st g)
    unfolding read
    uniform_read u g readable small =
        read_loop-ReadOf (length u.configs) u.configs g refl readable small

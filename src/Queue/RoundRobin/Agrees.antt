-- ===== src/Queue/RoundRobin/Agrees.antt =====
-- Read as one recursive function and Read access by access.
use kombiner.Prelude.{
  ℕ, zero, suc, ◌+◌, ◌*◌, ◌≡◌, ◌≢◌, arith, ◌∙◌, refl, sym, ap, List, [], ◌∷◌, Bool, true, false,
  Option, none, some, ltb, if◌then◌else◌, length, get_elem?, set, Outcome, value, panic, exhausted,
  ◌>>=◌, or_panic, >>=_assoc, >>=_cong, Bool-cases, inl, inr,
}
use kombiner.Api.Placement.{PlacementRequest}
use kombiner.Queue.Store.{Store, queue_len, queue_pop}
use kombiner.Queue.Uniform.{Rand}
use kombiner.Queue.Access.{Access, Round, served, again, run, read_rounds}
use kombiner.Queue.RoundRobin.{ExtendedQueueConfig, RoundRobinReader, empty, pick, read_loop, read}
use kombiner.Queue.RoundRobin.Rounds.{
  empty_then, settle, pop_at, picked, after_empty, round, round_robin,
}

pick_settles : (r : RoundRobinReader) → pick r ≢ exhausted
unfolding pick
pick_settles r e = absurd (ground arith)

module _ {S G : Type 0} (rand : Rand G) where
  run-empty_then :
      {A : Type 0} (st : Store S) (g : G) (cfgs : List ExtendedQueueConfig) (k : Bool → Access A)
      → run rand st g (empty_then cfgs k) ≡ (empty st cfgs >>= λ b. run rand st g (k b))
  unfolding run empty_then empty
  run-empty_then st g [] k = refl
  run-empty_then st g (cfg ∷ cfgs) k =
      >>=_cong (queue_len st cfg.config.queue_ref) _ _ (here (run-empty_then st g cfgs k))
      ∙ sym (>>=_assoc (queue_len st cfg.config.queue_ref) _ _)
    where
      here :
          run rand st g (empty_then cfgs k) ≡ (empty st cfgs >>= λ b. run rand st g (k b))
          → (n : ℕ)
          → run rand st g (if ltb 0 n then k false else empty_then cfgs k)
            ≡ ((if ltb 0 n then value false else empty st cfgs) >>= λ b. run rand st g (k b))
      here rest n = elim (Bool-cases (ltb 0 n)) [
        | inl busy ↦ rw busy refl
        | inr idle ↦ rw idle rest
      ]

  -- What a call of Read leaves, or the call that it ends in.
  follow :
      ℕ
      → Round RoundRobinReader × Store S × G
      → Outcome (Option PlacementRequest × RoundRobinReader × Store S)
  follow fuel (served found r, st, g) = value (found, r, st)
  follow fuel (again r, st, g) = read_loop fuel r st

  -- The part of Read after the Pop, and after the choice of a queue.
  after_pop :
      ℕ
      → ℕ
      → RoundRobinReader
      → ExtendedQueueConfig
      → Option PlacementRequest × Store S
      → Outcome (Option PlacementRequest × RoundRobinReader × Store S)
  after_pop fuel i r1 cfg (some pr, st1) =
      let count = cfg.bindings_read + length pr.spec.bindings in
      let served = record cfg { bindings_read = count } in
      value (some pr, record { configs = set r1.configs i served }, st1)
  after_pop fuel i r1 cfg (none, st1) =
      let spent = record cfg { bindings_read = cfg.maximum_bindings } in
      read_loop fuel (record { configs = set r1.configs i spent }) st1

  serve :
      ℕ
      → Store S
      → ℕ × RoundRobinReader
      → Outcome (Option PlacementRequest × RoundRobinReader × Store S)
  unfolding after_pop
  serve fuel st (i, r1) = do
    cfg ← or_panic (get_elem? r1.configs i)
    queue_pop st cfg.config.queue_ref >>= after_pop fuel i r1 cfg

  follow-pop_at :
      (fuel : ℕ) (st : Store S) (g : G) (i : ℕ) (r1 : RoundRobinReader)
      → (run rand st g (pop_at i r1 (get_elem? r1.configs i)) >>= follow fuel)
        ≡ serve fuel st (i, r1)
  unfolding serve run pop_at settle follow
  follow-pop_at fuel st g i r1 = go (get_elem? r1.configs i)
    where
      after :
          (cfg : ExtendedQueueConfig) (p : Option PlacementRequest × Store S)
          → (run rand p.1 g (settle i r1 cfg p.0) >>= follow fuel) ≡ after_pop fuel i r1 cfg p
      after cfg (some pr, st1) = refl
      after cfg (none, st1) = refl

      go :
          (o : Option ExtendedQueueConfig)
          → (run rand st g (pop_at i r1 o) >>= follow fuel)
            ≡ (or_panic o >>= λ cfg. queue_pop st cfg.config.queue_ref >>= after_pop fuel i r1 cfg)
      go none = refl
      go (some cfg) =
          >>=_assoc (queue_pop st cfg.config.queue_ref) _ _
          ∙ >>=_cong (queue_pop st cfg.config.queue_ref) _ _ (after cfg)

  follow-after_empty :
      (fuel : ℕ) (st : Store S) (g : G) (r : RoundRobinReader) (nothing : Bool)
      → (run rand st g (after_empty r nothing) >>= follow fuel)
        ≡ (if nothing then value (none, r, st) else (pick r >>= serve fuel st))
  unfolding run after_empty follow
  follow-after_empty fuel st g r true = refl
  follow-after_empty fuel st g r false = go (pick r) refl
    where
      go :
          (m : Outcome (ℕ × RoundRobinReader))
          → pick r ≡ m
          → (run rand st g (picked m) >>= follow fuel) ≡ (m >>= serve fuel st)
      go (value (i, r1)) e = follow-pop_at fuel st g i r1
      go panic e = refl
      go exhausted e = absurd (pick_settles r e)

  after_pop_lem :
      (fuel i : ℕ) (r1 : RoundRobinReader) (cfg : ExtendedQueueConfig) (o : Option PlacementRequest)
      (st1 : Store S)
      → after_pop fuel i r1 cfg (o, st1) ≡ elim o [
        | some pr ↦ after_pop fuel i r1 cfg (some pr, st1)
        | none ↦ after_pop fuel i r1 cfg (none, st1)
      ]
  after_pop_lem fuel i r1 cfg (some pr) st1 = refl
  after_pop_lem fuel i r1 cfg none st1 = refl

  serve-read_loop :
      (fuel : ℕ) (st : Store S) (r : RoundRobinReader)
      → (empty st r.configs >>= λ nothing.
          if nothing then value (none, r, st) else (pick r >>= serve fuel st))
        ≡ read_loop (suc fuel) r st
  unfolding read_loop serve after_pop
  serve-read_loop fuel st r = >>=_cong (empty st r.configs) _ _ λ nothing.
      ap (λ m. if nothing then value (none, r, st) else m)
        (>>=_cong (pick r) _ _ λ (i, r1). >>=_cong (or_panic (get_elem? r1.configs i)) _ _ λ cfg.
          >>=_cong (queue_pop st cfg.config.queue_ref) _ _
            λ (o, st1). after_pop_lem fuel i r1 cfg o st1)

  -- One call of Read, access by access, and what it ends in.
  follow-round :
      (fuel : ℕ) (st : Store S) (g : G) (r : RoundRobinReader)
      → (run rand st g (round r) >>= follow fuel) ≡ read_loop (suc fuel) r st
  unfolding round
  follow-round fuel st g r =
      ap (λ m. m >>= follow fuel) (run-empty_then st g r.configs (after_empty r))
      ∙ >>=_assoc (empty st r.configs) _ _
      ∙ >>=_cong (empty st r.configs) _ _ (follow-after_empty fuel st g r)
      ∙ serve-read_loop fuel st r

  follow_lem :
      (fuel : ℕ) (result : Round RoundRobinReader) (st : Store S) (g : G)
      → ((r : RoundRobinReader) → read_rounds rand round_robin fuel r st g ≡ read_loop fuel r st)
      → elim result [
        | served found r ↦ value (found, r, st)
        | again r ↦ read_rounds rand round_robin fuel r st g
      ]
        ≡ follow fuel (result, st, g)
  unfolding follow
  follow_lem fuel (served found r) st g rounds = refl
  follow_lem fuel (again r) st g rounds = rounds r

  read_rounds-read_loop :
      (fuel : ℕ) (st : Store S) (g : G) (r : RoundRobinReader)
      → read_rounds rand round_robin fuel r st g ≡ read_loop fuel r st
  unfolding read_rounds read_loop
  read_rounds-read_loop zero st g r = refl
  read_rounds-read_loop (suc fuel) st g r =
      >>=_cong (run rand st g (round r)) _ _ (λ (result, st1, g1).
        follow_lem fuel result st1 g1 (λ r1. read_rounds-read_loop fuel st1 g1 r1))
      ∙ follow-round fuel st g r

  -- On the same store the calls of Read one after the other, access by access and with nothing between
  -- the accesses, give what the recursive Read gives, panics included.
  pub read_rounds-read :
      (st : Store S) (g : G) (r : RoundRobinReader)
      → read_rounds rand round_robin (2 * length r.configs + 1) r st g ≡ read r st
  unfolding read
  read_rounds-read st g r = read_rounds-read_loop (2 * length r.configs + 1) st g r

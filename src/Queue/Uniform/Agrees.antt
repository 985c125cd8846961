-- ===== src/Queue/Uniform/Agrees.antt =====
-- Read as one recursive function and Read access by access.
use kombiner.Prelude.{
  ℕ, zero, suc, ◌+◌, ◌%◌, ◌^◌, ◌≡◌, ◌∙◌, refl, sym, Option, none, some, length, get_elem?, Outcome,
  value, ◌>>=◌, or_panic, >>=_assoc, >>=_cong, Bool-cases, inl, inr,
}
use kombiner.Api.Placement.{PlacementRequest}
use kombiner.Queue.Store.{Store, queue_pop}
use kombiner.Queue.Config.{QueueConfig, QueueConfigs}
use kombiner.Queue.Access.{Access, Round, served, run, read_rounds}
use kombiner.Queue.Uniform.{
  UniformReader, Rand, delete, total_from, slot_from, is_positive, select, next, read_loop, read,
}
use kombiner.Queue.Uniform.Rounds.{found, pop_from, chosen, round_loop, round, uniform}

module _ {S G : Type 0} (rand : Rand G) (u : UniformReader) where
  -- The result of Read as that of its one call.
  abbrev give : Option PlacementRequest × Store S × G → Outcome (Round UniformReader × Store S × G)
  give (o, st, g) = value (served o u, st, g)

  -- What Read does from the index of a queue on; `rest` is the next round of its loop.
  abbrev pop_at :
      QueueConfigs
      → (ℕ → Store S → G → Outcome (Option PlacementRequest × Store S × G))
      → Store S
      → ℕ × G
      → Outcome (Option PlacementRequest × Store S × G)
  pop_at cfgs rest st (i, g) = do
    cfg ← or_panic (get_elem? cfgs i)
    (o, st1) ← queue_pop st cfg.queue_ref
    elim o [ some pr ↦ value (some pr, st1, g) | none ↦ rest i st1 g ]

  module _ (tree : ℕ → Access (Round UniformReader))
      (rest : ℕ → Store S → G → Outcome (Option PlacementRequest × Store S × G)) where
    abbrev Agree : Type 0
    Agree = (i : ℕ) (st : Store S) (g : G) → run rand st g (tree i) ≡ (rest i st g >>= give)

    run-found :
        (i : ℕ) (st : Store S) (g : G) (o : Option PlacementRequest)
        → Agree
        → run rand st g (found u (tree i) o)
          ≡ (elim o [ some pr ↦ value (some pr, st, g) | none ↦ rest i st g ] >>= give)
    unfolding run found
    run-found i st g (some pr) agree = refl
    run-found i st g none agree = agree i st g

    run-pop_from :
        (i : ℕ) (st : Store S) (g : G) (o : Option QueueConfig)
        → Agree
        → run rand st g (pop_from u (tree i) o) ≡ (
            (do
              cfg ← or_panic o
              (answer, st1) ← queue_pop st cfg.queue_ref
              elim answer [ some pr ↦ value (some pr, st1, g) | none ↦ rest i st1 g ])
            >>= give)
    unfolding run pop_from
    run-pop_from i st g none agree = refl
    run-pop_from i st g (some cfg) agree =
        >>=_cong (queue_pop st cfg.queue_ref) _ _ (λ (answer, st1). run-found i st1 g answer agree)
        ∙ sym (>>=_assoc (queue_pop st cfg.queue_ref) _ _)

    run-chosen :
        (cfgs : QueueConfigs) (st : Store S) (g : G) (o : Option ℕ)
        → Agree
        → run rand st g (chosen u cfgs tree o)
          ≡ ((do i ← or_panic o; value (i, g)) >>= pop_at cfgs rest st >>= give)
    unfolding run chosen
    run-chosen cfgs st g none agree = refl
    run-chosen cfgs st g (some i) agree = run-pop_from i st g (get_elem? cfgs i) agree

  round_loop-read_loop :
      (n : ℕ) (cfgs : QueueConfigs) (st : Store S) (g : G)
      → run rand st g (round_loop n u cfgs) ≡ (read_loop rand n cfgs st g >>= give)
  unfolding run round_loop read_loop next select
  round_loop-read_loop zero cfgs st g = refl
  round_loop-read_loop (suc n) cfgs st g = elim (Bool-cases (is_positive (total_from 0 cfgs))) [
    | inr bad ↦ rw bad refl
    | inl good ↦
        let (k, g1) = rand.intn (total_from 0 cfgs) g in
        rw good (
          run-chosen (λ i. round_loop n u (delete i cfgs))
            (λ i st1 g2. read_loop rand n (delete i cfgs) st1 g2) cfgs st g1
            (slot_from ((k + 1) % 2 ^ 64) 0 cfgs)
            (λ i st1 g2. round_loop-read_loop n (delete i cfgs) st1 g2))
  ]

  -- On the same store one call of Read, access by access and with nothing between the accesses, gives
  -- what Read gives, panics included, and leaves the reader as it is.
  pub uniform_rounds-read :
      (st : Store S) (g : G)
      → read_rounds rand uniform 1 u st g ≡ (read rand u st g >>= λ (o, st', g'). value (o, u, st'))
  unfolding read_rounds read round
  uniform_rounds-read st g =
      rw (round_loop-read_loop (length u.configs) u.configs st g)
        (>>=_assoc (read_loop rand (length u.configs) u.configs st g) give _)

-- ===== src/Queue/Uniform/Checks.antt =====
-- What a call of the uniform Read does while requests are pushed between its accesses.
use kombiner.Prelude.{
  All-map, ℕ, zero, suc, ◌+◌, ◌≤◌, ◌<◌, ◌%◌, ◌^◌, ◌≡◌, ◌∙◌, refl, sym, ap, subst, List, [], ◌∷◌,
  map, true, inl, inr, ◌⊎◌, Option, some, arith, ltb, length, get_elem?, All, All-at,
}
use kombiner.Queue.Store.{QueueRef}
use kombiner.Queue.Config.{QueueConfig, QueueConfigs}
use kombiner.Queue.Access.{Access, Round, Among, Checks}
use kombiner.Queue.Access.Covers.{Covers, Covers-All, Covers-self, All-Among}
use kombiner.Queue.Uniform.{UniformReader, delete, total_from, slot_from}
use kombiner.Queue.Uniform.Draws.{weight_sum, total_from_lem, slot_from_lem}
use kombiner.Queue.Uniform.Serves.{length-delete, All-delete}
use kombiner.Queue.Uniform.Rounds.{found, pop_from, chosen, round_loop, round}

abbrev pub HasWeight : QueueConfig → Type 0
HasWeight cfg = 0 < cfg.queue.weight

abbrev pub refs_in : QueueConfigs → List QueueRef
refs_in cfgs = map (λ (c : QueueConfig). c.queue_ref) cfgs

weight_sum-delete : (cfgs : QueueConfigs) (i : ℕ) → weight_sum (delete i cfgs) ≤ weight_sum cfgs
unfolding delete
weight_sum-delete [] i = omega arith
weight_sum-delete (cfg ∷ cfgs) zero = omega arith
weight_sum-delete (cfg ∷ cfgs) (suc i) = omega (arith, weight_sum-delete cfgs i)

Among-delete :
    (cfgs : QueueConfigs) (i : ℕ) (e : QueueConfig) (ref : QueueRef)
    → get_elem? cfgs i ≡ some e
    → Among ref (refs_in cfgs)
    → (ref ≡ e.queue_ref) ⊎ Among ref (refs_in (delete i cfgs))
unfolding delete
Among-delete [] i e ref at a = absurd a
Among-delete (cfg ∷ cfgs) zero e ref at (inl here) =
    let same : cfg ≡ e = cc in inl (here ∙ ap (λ (c : QueueConfig). c.queue_ref) same)
Among-delete (cfg ∷ cfgs) zero e ref at (inr there) = inr there
Among-delete (cfg ∷ cfgs) (suc i) e ref at (inl here) = inr (inl here)
Among-delete (cfg ∷ cfgs) (suc i) e ref at (inr there) = elim (Among-delete cfgs i e ref at there) [
  | inl here ↦ inl here
  | inr left ↦ inr (inr left)
]

Covers-delete :
    (refs seen : List QueueRef) (cfgs : QueueConfigs) (i : ℕ) (e : QueueConfig)
    → get_elem? cfgs i ≡ some e
    → Covers refs seen (refs_in cfgs)
    → Covers refs (e.queue_ref ∷ seen) (refs_in (delete i cfgs))
Covers-delete refs seen cfgs i e at h = All-map refs move h
  where
    move :
        (x : QueueRef)
        → Among x seen ⊎ Among x (refs_in cfgs)
        → Among x (e.queue_ref ∷ seen) ⊎ Among x (refs_in (delete i cfgs))
    move x (inl a) = inl (inr a)
    move x (inr b) = elim (Among-delete cfgs i e x at b) [
      | inl here ↦ inl (inl here)
      | inr left ↦ inr left
    ]

module _ (configs : QueueConfigs) where
  -- A reader over the configs.
  abbrev pub Reads : UniformReader → Type 0
  Reads u = u.configs ≡ configs

  abbrev pub refs : List QueueRef
  refs = refs_in configs

  -- What is left in the loop of Read.
  record Left (seen : List QueueRef) (cfgs : QueueConfigs) : Type 0 where
    covers : Covers refs seen (refs_in cfgs)
    listed : All (λ (c : QueueConfig). Among c.queue_ref refs) cfgs
    weights : All HasWeight cfgs
    small : weight_sum cfgs < 2 ^ 63

  weight_sum_positive :
      (cfgs : QueueConfigs) (n : ℕ) → length cfgs ≡ suc n → All HasWeight cfgs → 0 < weight_sum cfgs
  weight_sum_positive [] n size h = absurd (omega arith)
  weight_sum_positive (cfg ∷ cfgs) n size h = omega (arith, h.0)

  pop_from-Checks :
      (u : UniformReader) (seen : List QueueRef) (rest : Access (Round UniformReader))
      (e : QueueConfig)
      → Reads u
      → Among e.queue_ref refs
      → Checks Reads refs (e.queue_ref ∷ seen) rest
      → Checks Reads refs seen (pop_from u rest (some e))
  unfolding pop_from found
  pop_from-Checks u seen rest e reads listed h = (listed, h, λ pr. (u, refl, reads))

  chosen-Checks :
      (u : UniformReader) (seen : List QueueRef) (cfgs : QueueConfigs)
      (rest : ℕ → Access (Round UniformReader)) (o : Option ℕ) (j : ℕ) (e : QueueConfig)
      → o ≡ some j
      → get_elem? cfgs j ≡ some e
      → Reads u
      → Among e.queue_ref refs
      → Checks Reads refs (e.queue_ref ∷ seen) (rest j)
      → Checks Reads refs seen (chosen u cfgs rest o)
  unfolding chosen
  chosen-Checks u seen cfgs rest o j e picked at reads listed h =
      subst (λ x. Checks Reads refs seen (chosen u cfgs rest x)) (sym picked)
        (subst (λ x. Checks Reads refs seen (pop_from u (rest j) x)) (sym at)
          (pop_from-Checks u seen (rest j) e reads listed h))

  round_loop-Checks :
      (n : ℕ) (u : UniformReader) (seen : List QueueRef) (cfgs : QueueConfigs)
      → Reads u
      → length cfgs ≡ n
      → Left seen cfgs
      → Checks Reads refs seen (round_loop n u cfgs)
  unfolding round_loop
  round_loop-Checks zero u seen [] reads size l = Covers-All refs seen l.covers
  round_loop-Checks zero u seen (cfg ∷ cfgs) reads size l = absurd (omega arith)
  round_loop-Checks (suc n) u seen cfgs reads size l =
      let total : total_from 0 cfgs ≡ weight_sum cfgs =
        total_from_lem 0 cfgs (omega (arith, l.small)) ∙ omega arith in
      let pos = weight_sum_positive cfgs n size l.weights in
      let positive : ltb 0 (weight_sum cfgs) ≡ true = ground arith in
      let int : ltb (weight_sum cfgs) (2 ^ 63) ≡ true = ground (arith, l.small) in
      rw total (
        rw (positive, int)
          (
            pos,
            λ k under.
                let exact : (k + 1) % 2 ^ 64 ≡ suc k = omega (arith, l.small) in
                let (j, at, s) =
                  slot_from_lem k 0 cfgs (omega arith) (omega arith) (omega (arith, l.small)) in
                let rest = λ (i : ℕ). round_loop n u (delete i cfgs) in
                let picked = ap (λ x. slot_from x 0 cfgs) exact ∙ at in
                chosen-Checks u seen cfgs rest (slot_from ((k + 1) % 2 ^ 64) 0 cfgs) j s.entry
                  picked s.found reads
                  (All-at (λ (c : QueueConfig). Among c.queue_ref refs) cfgs j s.found l.listed)
                  (round_loop-Checks n u (s.entry.queue_ref ∷ seen) (delete j cfgs) reads
                    (length-delete j cfgs s.found size)
                    (record {
                      covers = Covers-delete refs seen cfgs j s.entry s.found l.covers;
                      listed =
                          All-delete (λ (c : QueueConfig). Among c.queue_ref refs) j cfgs l.listed;
                      weights = All-delete HasWeight j cfgs l.weights;
                      small = omega (arith, weight_sum-delete cfgs j, l.small);
                    })),
          ))

  configs_listed :
      (cfgs : QueueConfigs) (xs : List QueueRef)
      → All (λ ref. Among ref xs) (refs_in cfgs)
      → All (λ (c : QueueConfig). Among c.queue_ref xs) cfgs
  configs_listed [] xs h = tt
  configs_listed (cfg ∷ cfgs) xs h = (h.0, configs_listed cfgs xs h.1)

  -- A call of Read on a reader over the configs keeps what Checks says, if their weights are over 0
  -- and sum up to an int.
  pub round-Checks :
      (u : UniformReader)
      → Reads u
      → All HasWeight configs
      → weight_sum configs < 2 ^ 63
      → Checks Reads refs [] (round u)
  unfolding round
  round-Checks u reads weights small =
      subst (λ cs. Checks Reads refs [] (round_loop (length cs) u cs)) (sym reads)
        (round_loop-Checks (length configs) u [] configs reads refl (record {
          covers = Covers-self refs;
          listed = configs_listed configs refs (All-Among refs);
          weights = weights;
          small = small;
        }))

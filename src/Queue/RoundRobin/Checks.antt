-- ===== src/Queue/RoundRobin/Checks.antt =====
-- What a call of the round-robin Read does while requests are pushed between its accesses.
use kombiner.Prelude.{
  ℕ, suc, ◌<◌, ◌≡◌, ◌∙◌, refl, sym, ap, List, [], ◌∷◌, map, true, inl, inr, some, arith, ltb,
  get_elem?, set, All, All-at, All-set, map-set, find_index-holds, Option-cases,
}
use mathlib.Core.Path.{subst}
use kombiner.Queue.Store.{QueueRef}
use kombiner.Queue.Access.{Among, Checks}
use kombiner.Queue.Access.Covers.{Covers, Covers-seen, Covers-All, Covers-self, All-Among}
use kombiner.Queue.RoundRobin.{ExtendedQueueConfig, RoundRobinReader, has_room, next, reset, pick}
use kombiner.Queue.RoundRobin.Choice.{next_lem}
use kombiner.Queue.RoundRobin.Rounds.{empty_then, settle, pop_at, picked, after_empty, round}

abbrev pub ref_of : ExtendedQueueConfig → QueueRef
ref_of cfg = cfg.config.queue_ref

abbrev HasShare : ExtendedQueueConfig → Type 0
HasShare cfg = 0 < cfg.maximum_bindings

-- A reader over the queues `refs`, each of which has a share.
pub record IsOver (refs : List QueueRef) (r : RoundRobinReader) : Type 0 where
  pub same : map ref_of r.configs ≡ refs
  pub shares : All HasShare r.configs

map-All :
    (cfgs : List ExtendedQueueConfig) (refs : List QueueRef)
    → All (λ ref. Among ref refs) (map ref_of cfgs)
    → All (λ cfg. Among (ref_of cfg) refs) cfgs
map-All [] refs h = tt
map-All (cfg ∷ cfgs) refs h = (h.0, map-All cfgs refs h.1)

map-reset : (cfgs : List ExtendedQueueConfig) → map ref_of (reset cfgs) ≡ map ref_of cfgs
unfolding reset
map-reset [] = refl
map-reset (cfg ∷ cfgs) = λ i. ref_of cfg ∷ map-reset cfgs i

shares-reset : (cfgs : List ExtendedQueueConfig) → All HasShare cfgs → All HasShare (reset cfgs)
unfolding reset
shares-reset [] h = tt
shares-reset (cfg ∷ cfgs) h = (h.0, shares-reset cfgs h.1)

-- After a reset the first queue has room.
next-reset :
    (cfgs : List ExtendedQueueConfig) (cfg : ExtendedQueueConfig)
    → get_elem? cfgs 0 ≡ some cfg
    → All HasShare cfgs
    → next (reset cfgs) ≡ some 0
unfolding next reset
next-reset [] cfg at h = absurd (cc)
next-reset (c ∷ cfgs) cfg at h = ground (arith, h.0)

module _ (refs : List QueueRef) where
  -- A write of the same queue with the same share.
  IsOver-set :
      (r : RoundRobinReader) (i : ℕ) (cfg : ExtendedQueueConfig) (n : ℕ)
      → get_elem? r.configs i ≡ some cfg
      → IsOver refs r
      → IsOver refs (record { configs = set r.configs i (record cfg { bindings_read = n }) })
  IsOver-set r i cfg n at over = record {
    same = map-set ref_of r.configs i (record cfg { bindings_read = n }) at refl ∙ over.same;
    shares =
        All-set HasShare r.configs i (record cfg { bindings_read = n }) over.shares
          (All-at HasShare r.configs i at over.shares);
  }

  -- The Pop of a config that stands in the reader.
  pop_at-Checks :
      (seen : List QueueRef) (i : ℕ) (r : RoundRobinReader) (cfg : ExtendedQueueConfig)
      → get_elem? r.configs i ≡ some cfg
      → IsOver refs r
      → Checks (IsOver refs) refs seen (pop_at i r (get_elem? r.configs i))
  unfolding pop_at settle
  pop_at-Checks seen i r cfg at over =
      let listed =
        All-at (λ c. Among (ref_of c) refs) r.configs i at
          (map-All r.configs refs (rw (over.same) (All-Among refs))) in
      rw at (
        listed,
        IsOver-set r i cfg cfg.maximum_bindings at over,
        λ pr. (_, refl, IsOver-set r i cfg _ at over),
      )

  -- If there is a config, a queue is found, after a reset at the latest.
  picked-Checks :
      (seen : List QueueRef) (r : RoundRobinReader) (cfg : ExtendedQueueConfig)
      → get_elem? r.configs 0 ≡ some cfg
      → IsOver refs r
      → Checks (IsOver refs) refs seen (picked (pick r))
  unfolding picked pick
  picked-Checks seen r cfg at over = elim (Option-cases (next r.configs)) [
    | inr (i, found) ↦
        let (c, here, _) =
          find_index-holds has_room r.configs i (sym (next_lem r.configs) ∙ found) in
        rw (found, pick) (pop_at-Checks seen i r c here over)
    | inl full ↦
        let cfgs = reset r.configs in
        let found = next-reset r.configs cfg at over.shares in
        let (c, here, _) = find_index-holds has_room cfgs 0 (sym (next_lem cfgs) ∙ found) in
        let over' : IsOver refs (record { configs = cfgs }) = record {
          same = map-reset r.configs ∙ over.same;
          shares = shares-reset r.configs over.shares;
        } in
        rw (full, pick)
          (rw (found, pick) (pop_at-Checks seen 0 (record { configs = cfgs }) c here over'))
  ]

  empty_then-Checks :
      (r : RoundRobinReader) (first : ExtendedQueueConfig) (seen : List QueueRef)
      (cfgs : List ExtendedQueueConfig)
      → get_elem? r.configs 0 ≡ some first
      → IsOver refs r
      → Covers refs seen (map ref_of cfgs)
      → All (λ cfg. Among (ref_of cfg) refs) cfgs
      → Checks (IsOver refs) refs seen (empty_then cfgs (after_empty r))
  unfolding empty_then after_empty
  empty_then-Checks r first seen [] at over covers listed = Covers-All refs seen covers
  empty_then-Checks r first seen (cfg ∷ cfgs) at over covers listed = (
    listed.0,
    empty_then-Checks r first (ref_of cfg ∷ seen) cfgs at over
        (Covers-seen refs seen (map ref_of cfgs) (ref_of cfg) covers) listed.1,
    (λ n.
        let busy : ltb 0 (suc n) ≡ true = ground arith in
        rw busy (picked-Checks seen r first at over)),
  )

  -- A call of Read on a reader over the queues keeps what Checks says.
  pub round-Checks : (r : RoundRobinReader) → IsOver refs r → Checks (IsOver refs) refs [] (round r)
  unfolding round
  round-Checks r over = go (r.configs) refl over.same
    where
      go :
          (cfgs : List ExtendedQueueConfig)
          → r.configs ≡ cfgs
          → map ref_of cfgs ≡ refs
          → Checks (IsOver refs) refs [] (empty_then cfgs (after_empty r))
      go [] e same =
          Covers-All refs [] (subst (λ xs. Covers refs [] xs) (sym same) (Covers-self refs))
      go (first ∷ cfgs) e same =
          empty_then-Checks r first [] (first ∷ cfgs) (ap (λ cs. get_elem? cs 0) e) over
            (subst (λ xs. Covers refs [] xs) (sym same) (Covers-self refs))
            (map-All (first ∷ cfgs) refs
              (subst (λ xs. All (λ ref. Among ref refs) xs) (sym same) (All-Among refs)))

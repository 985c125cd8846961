-- ===== src/Queue/RoundRobin/Shares.antt =====
-- The reader that NewRoundRobinReader gives: the shares are relative to the lightest queue.
use kombiner.Prelude.{
  ℕ, zero, suc, ◌+◌, ◌-◌, ◌%◌, ◌≤◌, ◌<◌, ◌^◌, ◌≡◌, refl, [], ◌∷◌, map, false, some, arith, ltb, leb,
  ◌==◌, nat_eq, get_elem?, All, All-at, Bool-cases, inl, inr, Yields, yields,
}
use kombiner.Queue.Config.{QueueConfig, QueueConfigs}
use kombiner.Queue.RoundRobin.{
  RoundRobinReader, is_lighter, lightest_from, lightest, extend, new_round_robin_reader,
}

-- A weight that is over 0 and an int.
abbrev pub IsWeighted : QueueConfig → Type 0
IsWeighted c = (0 < c.queue.weight) × (c.queue.weight < 2 ^ 63)

is_lighter_lem :
    (a b : QueueConfig)
    → IsWeighted a
    → IsWeighted b
    → is_lighter a b ≡ ltb a.queue.weight b.queue.weight
unfolding is_lighter
is_lighter_lem a b ha hb = go (a.queue.weight) (b.queue.weight) ha.1 hb.1
  where
    go : (x y : ℕ) → x < 2 ^ 63 → y < 2 ^ 63 → leb (2 ^ 63) ((x + 2 ^ 64 - y) % 2 ^ 64) ≡ ltb x y
    go x y hx hy = elim (Bool-cases (ltb x y)) [
      | inl less ↦
          let low : x < y = ground arith in
          let e : (x + 2 ^ 64 - y) % 2 ^ 64 ≡ x + 2 ^ 64 - y = omega arith in ground (arith, e)
      | inr more ↦
          let high : y ≤ x = ground arith in
          let e : (x + 2 ^ 64 - y) % 2 ^ 64 ≡ x - y = omega arith in ground (arith, e)
    ]

-- A config of the list that no other is lighter than.
pub record Lightest (cfgs : QueueConfigs) (m : QueueConfig) : Type 0 where
  pub index : ℕ
  pub listed : get_elem? cfgs index ≡ some m
  pub least : All (λ c. m.queue.weight ≤ c.queue.weight) cfgs

lightest_from-Lightest :
    (m : QueueConfig) (cfgs : QueueConfigs)
    → IsWeighted m
    → All IsWeighted cfgs
    → Lightest (m ∷ cfgs) (lightest_from m cfgs)
unfolding lightest_from
lightest_from-Lightest m [] hm h = record { index = 0; listed = refl; least = (omega arith, tt) }
lightest_from-Lightest m (cfg ∷ cfgs) hm h =
    elim (Bool-cases (ltb cfg.queue.weight m.queue.weight)) [
      | inl lighter ↦
          let (i, listed, (least, rest)) =
            expand (cfg ∷ cfgs) (lightest_from cfg cfgs)
              (lightest_from-Lightest cfg cfgs h.0 h.1) in
          rw (is_lighter_lem cfg m h.0 hm) (
            rw lighter
              (record { index = suc i; listed = listed; least = (ground arith, (least, rest)) }))
      | inr heavier ↦
          let (i, listed, (least, rest)) =
            expand (m ∷ cfgs) (lightest_from m cfgs) (lightest_from-Lightest m cfgs hm h.1) in
          rw (is_lighter_lem cfg m h.0 hm) (
            rw heavier (record {
              index = skip i;
              listed = skipped i listed;
              least = (least, (ground arith, rest));
            }))
    ]
  where
    expand :
        (cs : QueueConfigs) (r : QueueConfig)
        → Lightest cs r
        → (i : ℕ) × (get_elem? cs i ≡ some r) × All (λ c. r.queue.weight ≤ c.queue.weight) cs
    expand cs r l = (l.index, l.listed, l.least)

    skip : ℕ → ℕ
    skip zero = zero
    skip (suc i) = suc (suc i)

    skipped :
        {r : QueueConfig} (i : ℕ)
        → get_elem? (m ∷ cfgs) i ≡ some r
        → get_elem? (m ∷ cfg ∷ cfgs) (skip i) ≡ some r
    skipped zero e = e
    skipped (suc i) e = e

-- If every weight is over 0 and an int, NewRoundRobinReader returns for at least one config: there is a
-- config that no other is lighter than, and the reader has all configs in order, each with nothing
-- read and with the share that its weight has relative to that config's.
pub new_round_robin_reader-Lightest :
    (cfg : QueueConfig) (cfgs : QueueConfigs)
    → All IsWeighted (cfg ∷ cfgs)
    → Yields
        (λ (r : RoundRobinReader).
          (m : QueueConfig) × Lightest (cfg ∷ cfgs) m
          × (r.configs ≡ map (extend m.queue.weight) (cfg ∷ cfgs)))
        (new_round_robin_reader (cfg ∷ cfgs))
unfolding new_round_robin_reader lightest
new_round_robin_reader-Lightest cfg cfgs h =
    let l = lightest_from-Lightest cfg cfgs h.0 h.1 in
    let m = lightest_from cfg cfgs in
    let pos : 0 < m.queue.weight = (All-at IsWeighted (cfg ∷ cfgs) l.index l.listed h).0 in
    let filled : (m.queue.weight == 0) ≡ false = ground arith in rw filled (yields (m, l, refl))

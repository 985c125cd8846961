-- ===== src/Queue/RoundRobin/Minimum.antt =====
-- How many bindings NewRoundRobinReader grants a queue at least.
use kombiner.Prelude.{
  ℕ, zero, suc, ◌*◌, ◌^◌, ◌≤◌, ◌<◌, ◌≡◌, ◌∙◌, refl, sym, ap, subst, [], ◌∷◌, map, some, arith,
  get_elem?, All, All-at, Yields, Yields-map,
}
use native.Mathlib.Nat.{mul-le-mul_right, mul-div_right, mul-one, one-mul, le-div_iff_mul-le}
use kombiner.Queue.Config.{QueueConfig, QueueConfigs}
use kombiner.Queue.Float
use kombiner.Queue.Float.Bounds.{round-atleast, from_uint_exact, nearest_exact}
use kombiner.Queue.RoundRobin.{
  ExtendedQueueConfig, RoundRobinReader, minimum_bindings, max_bindings, extend,
  new_round_robin_reader,
}
use kombiner.Queue.RoundRobin.Shares.{IsWeighted, new_round_robin_reader-Lightest}

-- A weight that is no less than the lightest one gives a multiplier of at least 1.
div-atleast : (a b : ℕ) → 0 < b → b ≤ a → 2 ^ 52 ≤ Float.div a b
unfolding Float.div
div-atleast a b pos h =
    round-atleast (a * 2 ^ 52) b (2 ^ 52)
      ((le-div_iff_mul-le pos).1 (omega (arith, mul-le-mul_right (2 ^ 52) h))) (omega arith) refl

pub ten : Float.from_uint minimum_bindings ≡ 10 * 2 ^ 52
ten = from_uint_exact 10 (omega arith)

mul-atleast : (m : ℕ) → 2 ^ 52 ≤ m → 10 * 2 ^ 52 ≤ Float.mul m (10 * 2 ^ 52)
unfolding Float.mul
mul-atleast m h =
    round-atleast (m * (10 * 2 ^ 52)) (2 ^ 52) (10 * 2 ^ 52) (omega arith) (omega arith) refl

ceil-atleast : (a : ℕ) → 10 * 2 ^ 52 ≤ a → 10 ≤ Float.ceil a
unfolding Float.ceil
ceil-atleast a h = omega arith

max_bindings-atleast :
    (weight least : ℕ)
    → 0 < least
    → least ≤ weight
    → weight < 2 ^ 53
    → minimum_bindings ≤ max_bindings weight least
unfolding max_bindings
max_bindings-atleast weight least pos h small = rw ten (
    rw (from_uint_exact weight small) (
      rw (from_uint_exact least (omega arith)) (
        ceil-atleast _ (
          mul-atleast _
            (div-atleast (weight * 2 ^ 52) (least * 2 ^ 52) (omega arith) (omega arith))))))

excess_one : Float.excess (2 ^ 52) ≡ 0
unfolding Float.excess
excess_one = refl

div_self : (a : ℕ) → 0 < a → Float.div a a ≡ 2 ^ 52
unfolding Float.div Float.round
div_self a pos =
    let n = a * 2 ^ 52 in
    let exact = one-mul (Float.nearest n a) ∙ nearest_exact a (2 ^ 52) pos in
    let whole = subst (λ d. 1 * Float.nearest n d ≡ 2 ^ 52) (sym (mul-one a)) exact in
    let fits = subst (λ e. 2 ^ e * Float.nearest n (a * 2 ^ e) ≡ 2 ^ 52) (sym excess_one) whole in
    subst (λ q. 2 ^ Float.excess q * Float.nearest n (a * 2 ^ Float.excess q) ≡ 2 ^ 52)
      (sym (mul-div_right (2 ^ 52) pos)) fits

-- The lightest queue itself.
max_bindings_least :
    (weight : ℕ) → 0 < weight → weight < 2 ^ 53 → max_bindings weight weight ≡ minimum_bindings
unfolding max_bindings
max_bindings_least weight pos small =
    rw ten (rw (from_uint_exact weight small) (rw (div_self (weight * 2 ^ 52) (omega arith)) refl))

-- A weight that is over 0 and that a float64 holds.
abbrev pub IsFloat : QueueConfig → Type 0
IsFloat c = (0 < c.queue.weight) × (c.queue.weight < 2 ^ 53)

abbrev pub HasMinimum : ExtendedQueueConfig → Type 0
HasMinimum cfg = minimum_bindings ≤ cfg.maximum_bindings

-- Every config has its minimum, in a reader over the configs, and one of them has no more.
pub record Granted (cfgs : QueueConfigs) (r : RoundRobinReader) : Type 0 where
  pub same : map (λ (cfg : ExtendedQueueConfig). cfg.config) r.configs ≡ cfgs
  pub minimum : All HasMinimum r.configs
  pub index : ℕ
  pub lightest : ExtendedQueueConfig
  pub listed : get_elem? r.configs index ≡ some lightest
  pub no_more : lightest.maximum_bindings ≡ minimum_bindings

IsFloat-IsWeighted : (cfgs : QueueConfigs) → All IsFloat cfgs → All IsWeighted cfgs
IsFloat-IsWeighted [] h = tt
IsFloat-IsWeighted (cfg ∷ cfgs) h = ((h.0.0, omega (arith, h.0.1)), IsFloat-IsWeighted cfgs h.1)

pub extend-config :
    (least : ℕ) (cfgs : QueueConfigs)
    → map (λ (cfg : ExtendedQueueConfig). cfg.config) (map (extend least) cfgs) ≡ cfgs
unfolding extend
extend-config least [] = refl
extend-config least (cfg ∷ cfgs) = λ i. cfg ∷ extend-config least cfgs i

extend-HasMinimum :
    (least : ℕ) (cfgs : QueueConfigs)
    → 0 < least
    → All (λ (c : QueueConfig). least ≤ c.queue.weight) cfgs
    → All IsFloat cfgs
    → All HasMinimum (map (extend least) cfgs)
unfolding extend
extend-HasMinimum least [] pos h floats = tt
extend-HasMinimum least (cfg ∷ cfgs) pos h floats = (
  max_bindings-atleast cfg.queue.weight least pos h.0 (floats.0.1),
  extend-HasMinimum least cfgs pos h.1 floats.1,
)

get_elem?-map :
    (least : ℕ) (cfgs : QueueConfigs) (i : ℕ) (m : QueueConfig)
    → get_elem? cfgs i ≡ some m
    → get_elem? (map (extend least) cfgs) i ≡ some (extend least m)
get_elem?-map least [] i m e = absurd (cc)
get_elem?-map least (cfg ∷ cfgs) zero m e =
    let same : cfg ≡ m = cc in ap (λ c. some (extend least c)) same
get_elem?-map least (cfg ∷ cfgs) (suc i) m e = get_elem?-map least cfgs i m e

extend-least :
    (m : QueueConfig)
    → 0 < m.queue.weight
    → m.queue.weight < 2 ^ 53
    → (extend m.queue.weight m).maximum_bindings ≡ minimum_bindings
unfolding extend
extend-least m pos small = max_bindings_least m.queue.weight pos small

-- NewRoundRobinReader on at least one config, whose weights are over 0 and below 2 ^ 53: it returns a
-- reader over the same configs in which every queue may have at least MinimumBindings bindings read,
-- and one queue exactly as many.
pub new_round_robin_reader-Granted :
    (cfg : QueueConfig) (cfgs : QueueConfigs)
    → All IsFloat (cfg ∷ cfgs)
    → Yields (Granted (cfg ∷ cfgs)) (new_round_robin_reader (cfg ∷ cfgs))
new_round_robin_reader-Granted cfg cfgs floats =
    Yields-map (new_round_robin_reader-Lightest cfg cfgs (IsFloat-IsWeighted (cfg ∷ cfgs) floats))
      λ r (m, l, e).
        let all = cfg ∷ cfgs in
        let least = m.queue.weight in
        let (pos, small) = All-at IsFloat all l.index l.listed floats in
        record {
          same = ap (map (λ (c : ExtendedQueueConfig). c.config)) e ∙ extend-config least all;
          minimum = subst (All HasMinimum) (sym e) (extend-HasMinimum least all pos l.least floats);
          index = l.index;
          lightest = extend least m;
          listed = ap (λ cs. get_elem? cs l.index) e ∙ get_elem?-map least all l.index m l.listed;
          no_more = extend-least m pos small;
        }

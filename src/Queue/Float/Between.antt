-- ===== src/Queue/Float/Between.antt =====
-- A quotient between two whole floats is rounded to a number between them.
use kombiner.Prelude.{
  ℕ, ◌+◌, ◌-◌, ◌*◌, ◌/◌, ◌^◌, ◌≤◌, ◌<◌, ◌≡◌, ◌∙◌, sym, ap, subst, arith, leb, inl, inr, Bool-cases,
  ltb, ltb→lt, nat_eq,
}
use native.Mathlib.Nat.{
  pow-le-pow_right, mul-le-mul_right, mul-le-mul_left, mul_comm, mul_assoc, le_trans, mul_left_comm,
  one-le-pow, le-div_iff_mul-le, div-lt_iff_lt-mul,
}
use kombiner.Queue.Float.{excess, rounds_up, nearest, round}
use kombiner.Queue.Float.Bounds.{
  excess_loop-keeps, excess_loop-below, round-cut, nearest_exact, pow_split,
}

-- A whole number is a multiple of the last place of a float below 2 ^ 53.
whole : (e k : ℕ) → e ≤ 52 → k * 2 ^ 52 ≡ 2 ^ e * (k * 2 ^ (52 - e))
whole e k h =
    let all : e + (52 - e) ≡ 52 = omega arith in
    let split : 2 ^ 52 ≡ 2 ^ e * 2 ^ (52 - e) = ap (λ j. 2 ^ j) (sym all) ∙ pow_split e (52 - e) in
    ap (λ x. k * x) split ∙ mul_left_comm k (2 ^ e) (2 ^ (52 - e))

-- The quotient cut off at its 53 bits.
cut-above : (q k : ℕ) → k * 2 ^ 52 ≤ q → k < 2 ^ 53 → k * 2 ^ 52 ≤ 2 ^ excess q * (q / 2 ^ excess q)
unfolding excess
cut-above q k h small =
    let e = excess q in
    let u = 2 ^ e in
    elim (Bool-cases (leb e 52)) [
      | inl low ↦
          let places : e ≤ 52 = ground arith in
          let c = k * 2 ^ (52 - e) in
          let same = whole e k places in
          let fits : c * u ≤ q = omega (arith, h, same, mul_comm u c) in
          let below =
            mul-le-mul_left u ((le-div_iff_mul-le (one-le-pow e 2 (omega arith))).1 fits) in
          omega (arith, below, same)
      | inr high ↦
          let far : 53 ≤ e = ground arith in
          elim (excess_loop-keeps q q) [
            | inl near ↦ absurd (omega (arith, far, near))
            | inr (over, keeps) ↦
                let wide = pow-le-pow_right {n = 2} (omega arith) {i = 53} {j = e} far in
                let up = mul-le-mul_right (2 ^ 52) wide in
                let on = mul-le-mul_left u keeps in omega (arith, up, on, small)
          ]
    ]

pub round-above : (n d k : ℕ) → k * 2 ^ 52 ≤ n / d → k < 2 ^ 53 → k * 2 ^ 52 ≤ round n d
round-above n d k h small = le_trans (cut-above (n / d) k h small) (round-cut n d)

nearest-below : (n d m : ℕ) → 0 < d → n ≤ m * d → nearest n d ≤ m
unfolding nearest
nearest-below n d m pos h = elim (Bool-cases (ltb n (m * d))) [
  | inl less ↦
      let under = (div-lt_iff_lt-mul pos).1 (ltb→lt n (m * d) less) in
      elim (Bool-cases (rounds_up n d)) [
        | inl up ↦ rw up (omega arith)
        | inr down ↦ rw down (omega arith)
      ]
  | inr more ↦
      let same : n ≡ d * m = ground (arith, mul_comm d m) in
      let exact = nearest_exact d m pos in
      subst (λ x. nearest x d ≤ m) (sym same) (omega (arith, exact))
]

pub round-below : (n d k : ℕ) → 0 < d → n ≤ k * 2 ^ 52 * d → k < 2 ^ 53 → round n d ≤ k * 2 ^ 52
unfolding round excess
round-below n d k pos h small =
    let q = n / d in
    let e = excess q in
    let u = 2 ^ e in
    let c = k * 2 ^ (52 - e) in
    let bound : n < (k * 2 ^ 52 + 1) * d = omega (arith, h, pos) in
    let under = (div-lt_iff_lt-mul pos).1 bound in
    let places : e ≤ 52 = excess_loop-below 52 q q (omega (arith, under, small)) in
    let same = whole e k places in
    let unit : 0 < u = one-le-pow e 2 (omega arith) in
    let wide : 0 < d * u = omega (arith, pos, mul-le-mul_left d unit) in
    let turned =
      ap (λ x. x * d) same
      ∙ mul_assoc u c d
      ∙ mul_left_comm u c d
      ∙ ap (λ x. c * x) (mul_comm u d) in
    let fits = subst (λ x. n ≤ x) turned h in
    omega (arith, mul-le-mul_left u (nearest-below n (d * u) c wide fits), same)

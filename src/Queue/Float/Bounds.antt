-- ===== src/Queue/Float/Bounds.antt =====
-- How rounding to 53 bits changes a number.
use kombiner.Prelude.{
  ℕ, zero, suc, ◌+◌, ◌-◌, ◌*◌, ◌/◌, ◌%◌, ◌^◌, ◌≤◌, ◌<◌, ◌≡◌, ◌∙◌, refl, sym, ap, subst, true, false,
  inl, inr, ◌⊎◌, arith, ltb, ◌==◌, nat_eq, Bool-cases,
}
use native.Mathlib.Nat.{
  pow-le-pow_right, pow-suc, mul-le-mul_right, mul-le-mul_left, mul_comm, mul_assoc, le_trans,
  div-div-eq-div-mul, add-zero, add-suc, mul-one, mul_left_comm, mul-mod_right, mul-div_right,
  one-mul, div-one, one-le-pow,
}
use kombiner.Queue.Float.{excess_loop, excess, rounds_up, nearest, round, from_uint}

-- A number that reaches beyond 53 bits keeps 53 of them.
pub excess_loop-keeps :
    (fuel n : ℕ)
    → (excess_loop fuel n ≡ 0) ⊎ ((0 < excess_loop fuel n) × (2 ^ 52 ≤ n / 2 ^ excess_loop fuel n))
unfolding excess_loop
excess_loop-keeps zero n = inl refl
excess_loop-keeps (suc fuel) n = elim (Bool-cases (ltb n (2 ^ 53))) [
  | inl low ↦ rw low (inl refl)
  | inr high ↦
      let e = excess_loop fuel (n / 2) in
      let halved : n / 2 ^ suc e ≡ (n / 2) / 2 ^ e =
        ap (λ u. n / u) (pow-suc 2 e ∙ mul_comm (2 ^ e) 2) ∙ sym (div-div-eq-div-mul n 2 (2 ^ e)) in
      let halves : 2 ^ 52 ≤ n / 2 / 2 ^ e = elim (excess_loop-keeps fuel (n / 2)) [
        | inl none ↦
            let m : 2 ^ 52 ≤ n / 2 / 1 = ground arith in
            subst (λ x. 2 ^ 52 ≤ n / 2 / 2 ^ x) (sym none) m
        | inr (over, keeps) ↦ keeps
      ] in
      rw high (inr (omega arith, subst (λ x. 2 ^ 52 ≤ x) (sym halved) halves))
]

pub excess_loop-below : (k fuel n : ℕ) → n < 2 ^ (53 + k) → excess_loop fuel n ≤ k
unfolding excess_loop
excess_loop-below k zero n h = omega arith
excess_loop-below zero (suc fuel) n h =
    let low : ltb n (2 ^ 53) ≡ true = ground arith in rw low (omega arith)
excess_loop-below (suc k) (suc fuel) n h = elim (Bool-cases (ltb n (2 ^ 53))) [
  | inl low ↦ rw low (omega arith)
  | inr high ↦
      let next : 53 + suc k ≡ suc (53 + k) = omega arith in
      let twice : 2 ^ (53 + suc k) ≡ 2 ^ (53 + k) * 2 = ap (λ j. 2 ^ j) next ∙ pow-suc 2 (53 + k) in
      rw high (omega (arith, excess_loop-below k fuel (n / 2) (omega (arith, twice))))
]

-- The number cut off at its 53 bits.
pub round-cut : (n d : ℕ) → 2 ^ excess (n / d) * (n / d / 2 ^ excess (n / d)) ≤ round n d
unfolding round nearest
round-cut n d =
    let u = 2 ^ excess (n / d) in
    let cut : n / (d * u) ≤ nearest n (d * u) = elim (Bool-cases (rounds_up n (d * u))) [
      | inl up ↦ rw up (omega arith)
      | inr down ↦ rw down (omega arith)
    ] in
    mul-le-mul_left u (subst (λ x. x ≤ nearest n (d * u)) (sym (div-div-eq-div-mul n d u)) cut)

-- A number that is 16 or more units of the last of 53 bits, or a multiple of 8 of them, is not lost.
cut_lem :
    (c u q : ℕ)
    → c ≤ q
    → c ≤ 2 ^ 56
    → (c % 8 ≡ 0)
    → (e : ℕ) → u ≡ 2 ^ e
    → (e ≡ 0) ⊎ ((0 < e) × (2 ^ 52 ≤ q / u))
    → c ≤ u * (q / u)
cut_lem c u q h small even zero e k = rw e (omega arith)
cut_lem c u q h small even (suc zero) e k = rw e (omega arith)
cut_lem c u q h small even (suc (suc zero)) e k = rw e (omega arith)
cut_lem c u q h small even (suc (suc (suc zero))) e k = rw e (omega arith)
cut_lem c u q h small even (suc (suc (suc (suc e)))) at (inl k) = absurd (omega arith)
cut_lem c u q h small even (suc (suc (suc (suc e)))) at (inr (over, k)) =
    let wide : 16 ≤ u = rw at (
      pow-le-pow_right {n = 2} (omega arith) {i = 4} {j = suc (suc (suc (suc e)))} (omega arith)) in
    let high = mul-le-mul_left u k in
    let low = mul-le-mul_right (2 ^ 52) wide in omega (arith, high, low)

-- Rounding does not go below such a number.
pub round-atleast : (n d c : ℕ) → c ≤ n / d → c ≤ 2 ^ 56 → c % 8 ≡ 0 → c ≤ round n d
unfolding excess
round-atleast n d c h small even =
    let q = n / d in
    le_trans (cut_lem c (2 ^ excess q) q h small even (excess q) refl (excess_loop-keeps q q))
      (round-cut n d)

-- A quotient without a remainder.
pub nearest_exact : (d m : ℕ) → 0 < d → nearest (d * m) d ≡ m
unfolding nearest rounds_up
nearest_exact d m pos =
    let rest = mul-mod_right d m in
    let quotient = mul-div_right m pos in
    let above : ltb d 0 ≡ false = ground arith in
    let half : (0 == d) ≡ false = ground arith in rw rest (rw above (rw half quotient))

-- Rounding keeps a multiple of the unit of its last place.
round_exact : (n m : ℕ) → n ≡ 2 ^ excess n * m → round n 1 ≡ n
unfolding round
round_exact n m e =
    let u = 2 ^ excess n in
    let exact : nearest n u ≡ m =
      subst (λ x. nearest x u ≡ m) (sym e)
        (nearest_exact u m (one-le-pow (excess n) 2 (omega arith))) in
    rw (div-one n) (rw (one-mul u) (rw exact (sym e)))

pub pow_split : (e j : ℕ) → 2 ^ (e + j) ≡ 2 ^ e * 2 ^ j
pow_split e zero = rw (add-zero e) (sym (mul-one (2 ^ e)))
pow_split e (suc j) =
    rw (add-suc e j)
      (rw (pow-suc 2 (e + j)) (rw (pow_split e j) (rw (pow-suc 2 j) (mul_assoc (2 ^ e) (2 ^ j) 2))))

-- A number of 53 bits is a float.
pub from_uint_exact : (w : ℕ) → w < 2 ^ 53 → from_uint w ≡ w * 2 ^ 52
unfolding from_uint excess
from_uint_exact w h =
    let n = w * 2 ^ 52 in
    let k = excess n in
    let low : k ≤ 52 = excess_loop-below 52 n n (omega arith) in
    let all : k + (52 - k) ≡ 52 = omega arith in
    let split : 2 ^ 52 ≡ 2 ^ k * 2 ^ (52 - k) = ap (λ j. 2 ^ j) (sym all) ∙ pow_split k (52 - k) in
    round_exact n (w * 2 ^ (52 - k))
      (ap (λ x. w * x) split ∙ mul_left_comm w (2 ^ k) (2 ^ (52 - k)))

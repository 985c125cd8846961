-- ===== src/Queue/Float.antt =====
-- The float64 arithmetic of NewRoundRobinReader (IEEE 754, rounding to nearest, ties to even).
-- Every value there is 1 or more, so its last place is at least 2 ^ -52: a float is the number of
-- its units of 2 ^ -52, a natural number of 53 significant bits.
pub mod Bounds
pub mod Between
use kombiner.Prelude.{
  ℕ, zero, suc, ◌+◌, ◌-◌, ◌*◌, ◌/◌, ◌%◌, ◌^◌, Bool, ◌&&◌, ◌||◌, ltb, ◌==◌, nat_eq, if◌then◌else◌,
}

-- How far a number reaches beyond 53 bits. The number itself is fuel enough.
unfoldable pub excess_loop : ℕ → ℕ → ℕ
excess_loop zero n = 0
excess_loop (suc fuel) n =
    let more = suc (excess_loop fuel (n / 2)) in if ltb n (2 ^ 53) then 0 else more

unfoldable pub excess : ℕ → ℕ
unfolding excess_loop
excess n = excess_loop n n

-- The remainder asks for the next number up: it is over half, or half and the quotient is odd.
unfoldable pub rounds_up : ℕ → ℕ → Bool
rounds_up n d = ltb d (2 * (n % d)) || (2 * (n % d) == d && (n / d) % 2 == 1)

-- The quotient to the nearest whole number.
unfoldable pub nearest : ℕ → ℕ → ℕ
unfolding rounds_up
nearest n d = if rounds_up n d then n / d + 1 else n / d

-- The float nearest to n / d units.
unfoldable pub round : ℕ → ℕ → ℕ
unfolding excess nearest
round n d = let u = 2 ^ excess (n / d) in u * nearest n (d * u)

unfoldable pub from_uint : ℕ → ℕ
unfolding round
from_uint w = round (w * 2 ^ 52) 1

unfoldable pub div : ℕ → ℕ → ℕ
unfolding round
div a b = round (a * 2 ^ 52) b

unfoldable pub mul : ℕ → ℕ → ℕ
unfolding round
mul a b = round (a * b) (2 ^ 52)

-- math.Ceil and the conversion to int.
unfoldable pub ceil : ℕ → ℕ
ceil a = (a + (2 ^ 52 - 1)) / 2 ^ 52

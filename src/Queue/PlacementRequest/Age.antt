-- ===== src/Queue/PlacementRequest/Age.antt =====
-- The priority of a request is its age.
use kombiner.Prelude.{ℕ, ◌+◌, ◌*◌, ◌^◌, ◌<◌, ◌≡◌, ◌↔◌, ◌⊎◌, inl, inr, arith}
use native.Mathlib.Decide.{dec_lt}
use kombiner.Api.Placement.{Time}
use kombiner.Queue.Prioritized.{rank}
use kombiner.Queue.PlacementRequest.{unix_nano}

-- A time from 1970 on that UnixNano can give: up to the year 2262.
abbrev pub IsRepresentable : Time → Type 0
IsRepresentable t = (t.seconds < 9223372036) × (t.nanoseconds < 10 ^ 9)

abbrev pub IsBefore : Time → Time → Type 0
IsBefore t u = (t.seconds < u.seconds) ⊎ ((t.seconds ≡ u.seconds) × (t.nanoseconds < u.nanoseconds))

rank-unix_nano :
    (t : Time)
    → IsRepresentable t
    → rank (unix_nano t) ≡ t.seconds * 1000000000 + t.nanoseconds + 2 ^ 63
unfolding unix_nano
rank-unix_nano t r = omega (arith, r)

-- Seconds first, then nanoseconds.
lexicographic :
    (a b c d : ℕ)
    → c < 10 ^ 9
    → d < 10 ^ 9
    → a * 1000000000 + c < b * 1000000000 + d
    → (a < b) ⊎ ((a ≡ b) × (c < d))
lexicographic a b c d hc hd h = elim (dec_lt a b) [
  | yes less ↦ inl less
  | no other ↦ inr (omega arith, omega arith)
]

-- Of two representable times the earlier one, and only that one, has the lower priority value.
pub unix_nano_order :
    (t u : Time)
    → IsRepresentable t
    → IsRepresentable u
    → (rank (unix_nano t) < rank (unix_nano u)) ↔ IsBefore t u
unix_nano_order t u rt ru =
    let et = rank-unix_nano t rt in
    let eu = rank-unix_nano u ru in
    (
      (λ h. lexicographic t.seconds u.seconds t.nanoseconds u.nanoseconds rt.1 ru.1 (omega arith)),
      (λ h. omega arith),
    )

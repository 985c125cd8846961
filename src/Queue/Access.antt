-- ===== src/Queue/Access.antt =====
-- pkg/queue/reader.go: a reader beside the other goroutines. Each access of a reader to a queue holds
-- that queue's mutex, and between two of them requests may be pushed. So a call of Read is a tree:
-- an access, and what follows for each answer.
pub mod Covers
use kombiner.Prelude.{
  ℕ, zero, suc, ◌<◌, ◌≡◌, List, [], ◌∷◌, ◌⊎◌, Option, none, some, All, Outcome, value, panic,
  exhausted, ◌>>=◌,
}
use kombiner.Api.Placement.{PlacementRequest}
use kombiner.Queue.Store.{Store, QueueRef, queue_len, queue_pop}
use kombiner.Queue.Config.{QueueConfigs}
use kombiner.Queue.Uniform.{Rand}

-- `draw n` is rand.Intn; `fail` is a panic.
pub data Access (A : Type 0) : Type 0 where
  done : A → Access A
  ask_len : QueueRef → (ℕ → Access A) → Access A
  ask_pop : QueueRef → (Option PlacementRequest → Access A) → Access A
  draw : ℕ → (ℕ → Access A) → Access A
  fail : Access A

-- How a call of Read ends: with its result, or in a call of itself.
pub data Round (R : Type 0) : Type 0 where
  served : Option PlacementRequest → R → Round R
  again : R → Round R

-- The calls of a reader with nothing between its accesses.
module _ {S G : Type 0} (rand : Rand G) where
  unfoldable pub run : {A : Type 0} → Store S → G → Access A → Outcome (A × Store S × G)
  run st g (done a) = value (a, st, g)
  run st g (ask_len ref k) = do n ← queue_len st ref; run st g (k n)
  run st g (ask_pop ref k) = do (found, st1) ← queue_pop st ref; run st1 g (k found)
  run st g (draw n k) = let (j, g1) = rand.intn n g in run st g1 (k j)
  run st g fail = panic

-- The interface Reader, with the factory of its readers.
pub record Reader : Type 1 where
  pub State : Type 0
  pub make : QueueConfigs → Outcome State
  pub round : State → Access (Round State)

-- Read as its calls one after the other; `fuel` bounds their number.
module _ {S G : Type 0} (rand : Rand G) (reader : Reader) where
  unfoldable pub read_rounds :
      ℕ → reader.State → Store S → G → Outcome (Option PlacementRequest × reader.State × Store S)
  unfolding run
  read_rounds zero r st g = exhausted
  read_rounds (suc fuel) r st g = do
    (result, st1, g1) ← run rand st g (reader.round r)
    elim result [ served found r1 ↦ value (found, r1, st1) | again r1 ↦ read_rounds fuel r1 st1 g1 ]

abbrev pub Among : {A : Type 0} → A → List A → Type 0
Among x [] = ⊥
Among x (y ∷ ys) = (x ≡ y) ⊎ Among x ys

-- The call accesses no other queues than `refs` and does not panic. It returns nil only after every one
-- of them has been found empty, and a request only after a Pop that gave it, at once. It leaves a
-- reader in a state that is `Good`. `seen` holds the queues that were found empty before.
module _ {R : Type 0} (Good : R → Type 0) (refs : List QueueRef) where
  abbrev pub Checks : List QueueRef → Access (Round R) → Type 0
  Checks seen (done (served none r)) = All (λ ref. Among ref seen) refs
  Checks seen (done (served (some pr) r)) = ⊥
  Checks seen (done (again r)) = Good r
  Checks seen (ask_len ref k) =
      Among ref refs × Checks (ref ∷ seen) (k zero) × ((n : ℕ) → Checks seen (k (suc n)))
  Checks seen (ask_pop ref k) =
      Among ref refs
      × Checks (ref ∷ seen) (k none)
      × ((pr : PlacementRequest) → (r : R) × (k (some pr) ≡ done (served (some pr) r)) × Good r)
  Checks seen (draw n k) = (0 < n) × ((j : ℕ) → j < n → Checks seen (k j))
  Checks seen fail = ⊥

-- ===== src/Prelude/Arrays.antt =====
-- Lists as slices: reads and writes at an index, and which entries a write moves.
use mathlib.Core.Path.{◌≡◌, refl, subst}
use mathlib.Core.List.{List, [], ◌∷◌, ◌++◌, Perm, map, perm_middle, append-nil}
use mathlib.Core.List.Perm
use mathlib.Core.Option.{some}
use Prim.Native.Nat.{ℕ, zero, suc, ◌<◌}
use native.Mathlib.Omega.{arith}
use kombiner.Prelude.Tests.{nat_beq, if◌then◌else◌}
use kombiner.Prelude.Lists.{length, get_elem?, set, take, All}

module _ {ℓ} {A : Type ℓ} where
  pub get_elem?_lt : (xs : List A) (i : ℕ) → i < length xs → (x : A) × (get_elem? xs i ≡ some x)
  get_elem?_lt [] i h = absurd (omega arith)
  get_elem?_lt (x ∷ xs) zero h = (x, refl)
  get_elem?_lt (x ∷ xs) (suc i) h = get_elem?_lt xs i (omega arith)

  pub get_elem?-set :
      (xs : List A) (i j : ℕ) (v : A)
      → i < length xs
      → get_elem? (set xs i v) j ≡ (if nat_beq i j then some v else get_elem? xs j)
  get_elem?-set [] i j v h = absurd (omega arith)
  get_elem?-set (x ∷ xs) zero zero v h = refl
  get_elem?-set (x ∷ xs) (suc i) (suc j) v h = ground (arith, get_elem?-set xs i j v)
  get_elem?-set (x ∷ xs) i j v h = ground arith

  pub get_elem?-append :
      (xs ys : List A) (i : ℕ) → i < length xs → get_elem? (xs ++ ys) i ≡ get_elem? xs i
  get_elem?-append [] ys i h = absurd (omega arith)
  get_elem?-append (x ∷ xs) ys zero h = refl
  get_elem?-append (x ∷ xs) ys (suc i) h = get_elem?-append xs ys i (omega arith)

  pub get_elem?-take :
      (n : ℕ) (xs : List A) (i : ℕ) → i < n → get_elem? (take n xs) i ≡ get_elem? xs i
  get_elem?-take zero xs i h = absurd (omega arith)
  get_elem?-take (suc n) [] i h = refl
  get_elem?-take (suc n) (x ∷ xs) zero h = refl
  get_elem?-take (suc n) (x ∷ xs) (suc i) h = get_elem?-take n xs i (omega arith)

  -- The last entry of a slice, split off.
  pub take-append_last :
      (n : ℕ) (xs : List A) {x : A}
      → length xs ≡ suc n
      → get_elem? xs n ≡ some x
      → take n xs ++ x ∷ [] ≡ xs
  take-append_last zero (y ∷ []) h e = ground arith
  take-append_last (suc n) (y ∷ ys) h e = λ i. y ∷ take-append_last n ys (omega arith) e i
  take-append_last n xs h e = absurd (omega arith)

  -- A write trades the entry that it covers for the new one.
  pub set-perm :
      (xs : List A) (i : ℕ) (v : A) {x : A}
      → get_elem? xs i ≡ some x
      → Perm (x ∷ set xs i v) (v ∷ xs)
  set-perm [] i v e = absurd (cc)
  set-perm (y ∷ ys) zero v {x} e = let same : y ≡ x = cc in rw (← same) (Perm.swap v y ys)
  set-perm (y ∷ ys) (suc i) v e =
      Perm.trans (Perm.swap y _ _) (Perm.trans (Perm.cons y (set-perm ys i v e)) (Perm.swap v y ys))

  pub append_last-perm : (xs : List A) (x : A) → Perm (xs ++ x ∷ []) (x ∷ xs)
  append_last-perm xs x = rw (append-nil xs) at (perm_middle {a = x} xs [])

  -- A predicate of every index in range holds of every entry.
  pub All-of_indices {κ} :
      (P : A → Type κ) (xs : List A) → ((i : ℕ) (x : A) → get_elem? xs i ≡ some x → P x) → All P xs
  All-of_indices P [] h = tt
  All-of_indices P (x ∷ xs) h = (h zero x refl, All-of_indices P xs (λ i y e. h (suc i) y e))

  pub get_elem?-inside : (xs : List A) (i : ℕ) {x : A} → get_elem? xs i ≡ some x → i < length xs
  get_elem?-inside [] i e = absurd (cc)
  get_elem?-inside (x ∷ xs) zero e = omega arith
  get_elem?-inside (x ∷ xs) (suc i) e = omega (arith, get_elem?-inside xs i e)

  pub set_self : (xs : List A) (i : ℕ) {x : A} → get_elem? xs i ≡ some x → set xs i x ≡ xs
  set_self [] i e = refl
  set_self (y ∷ ys) zero e = ground arith
  set_self (y ∷ ys) (suc i) e = λ k. y ∷ set_self ys i e k

  pub get_elem?-set_at :
      (xs : List A) (i : ℕ) (v : A) → i < length xs → get_elem? (set xs i v) i ≡ some v
  get_elem?-set_at xs i v h = ground (arith, get_elem?-set xs i i v h)

  -- Writing an entry that a function does not tell apart changes no image.
  pub map-set {κ} :
      {B : Type κ} (f : A → B) (xs : List A) (i : ℕ) {x : A} (v : A)
      → get_elem? xs i ≡ some x
      → f v ≡ f x
      → map f (set xs i v) ≡ map f xs
  map-set f [] i v e h = refl
  map-set f (y ∷ ys) zero {x} v e h = let same : y ≡ x = cc in rw (same, h) refl
  map-set f (y ∷ ys) (suc i) v e h = λ k. f y ∷ map-set f ys i v e h k

  pub All-set {κ} :
      (P : A → Type κ) (xs : List A) (i : ℕ) (v : A) → All P xs → P v → All P (set xs i v)
  All-set P [] i v h pv = tt
  All-set P (x ∷ xs) zero v h pv = (pv, h.1)
  All-set P (x ∷ xs) (suc i) v h pv = (h.0, All-set P xs i v h.1 pv)

  pub All-at {κ} :
      (P : A → Type κ) (xs : List A) (i : ℕ) {x : A} → get_elem? xs i ≡ some x → All P xs → P x
  All-at P [] i e h = absurd (cc)
  All-at P (y ∷ ys) zero {x} e h = let same : y ≡ x = cc in subst P same h.0
  All-at P (y ∷ ys) (suc i) e h = All-at P ys i e h.1

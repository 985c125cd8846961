-- ===== src/Prelude/Search.antt =====
-- The first index of a list at which a test holds.
use mathlib.Core.Path.{◌≡◌, refl}
use mathlib.Core.Bool.{Bool, true, false}
use mathlib.Core.Path.{◌∙◌, ap}
use mathlib.Core.Logic.{∥∥₁_elim}
use mathlib.Core.List.{List, [], ◌∷◌, Perm, Permᴰ}
use native.Mathlib.Nat.{ℕ_set}
use mathlib.Core.Option
use mathlib.Core.Option.{Option, none, some}
use Prim.Native.Nat.{ℕ, zero, suc, ◌≤◌}
use native.Mathlib.Omega.{arith}
use kombiner.Prelude.Tests.{if◌then◌else◌, Bool-cases}
use mathlib.Core.Logic.{inl, inr}
use kombiner.Prelude.Lists.{length, get_elem?, set}

map-some : (o : Option ℕ) (i : ℕ) → Option.map suc o ≡ some (suc i) → o ≡ some i
map-some none i e = absurd (cc)
map-some (some k) i e = ground arith

map-ne-zero : (o : Option ℕ) → Option.map suc o ≡ some 0 → ⊥
map-ne-zero none e = cc
map-ne-zero (some k) e = ground arith

-- What the first index says of the head and the tail.
module _ {ℓ} {A : Type ℓ} where
  unfoldable pub find_index : (A → Bool) → List A → Option ℕ
  find_index test [] = none
  find_index test (x ∷ xs) = if test x then some 0 else Option.map suc (find_index test xs)

  -- The number of entries at which the test holds.
  unfoldable pub count_of : (A → Bool) → List A → ℕ
  count_of test [] = 0
  count_of test (x ∷ xs) = if test x then suc (count_of test xs) else count_of test xs

  pub find_index-holds :
      (test : A → Bool) (xs : List A) (i : ℕ)
      → find_index test xs ≡ some i
      → (x : A) × (get_elem? xs i ≡ some x) × (test x ≡ true)
  unfolding find_index
  find_index-holds test [] i e = absurd (cc)
  find_index-holds test (x ∷ xs) zero e = elim (Bool-cases (test x)) [
    | inl holds ↦ (x, refl, holds)
    | inr fails ↦ absurd (map-ne-zero (find_index test xs) (rw fails at e))
  ]
  find_index-holds test (x ∷ xs) (suc i) e = elim (Bool-cases (test x)) [
    | inl holds ↦ absurd (ground arith)
    | inr fails ↦ find_index-holds test xs i (map-some (find_index test xs) i (rw fails at e))
  ]

  -- Writing an entry that fares the same in the test changes no result.
  pub find_index-set :
      (test : A → Bool) (xs : List A) (i : ℕ) {x : A} (v : A)
      → get_elem? xs i ≡ some x
      → test v ≡ test x
      → find_index test (set xs i v) ≡ find_index test xs
  unfolding find_index
  find_index-set test [] i v e h = absurd (cc)
  find_index-set test (y ∷ ys) zero v e h = ground arith
  find_index-set test (y ∷ ys) (suc i) v e h = ground (arith, find_index-set test ys i v e h)

  -- A sharper test that holds at the first index of the weaker one has the same first index.
  pub find_index-sharper :
      (weak sharp : A → Bool) (xs : List A) (i : ℕ) (x : A)
      → ((y : A) → sharp y ≡ true → weak y ≡ true)
      → find_index weak xs ≡ some i
      → get_elem? xs i ≡ some x
      → sharp x ≡ true
      → find_index sharp xs ≡ some i
  unfolding find_index
  find_index-sharper weak sharp [] i x imp e at h = absurd (cc)
  find_index-sharper weak sharp (y ∷ ys) zero x imp e at h = ground arith
  find_index-sharper weak sharp (y ∷ ys) (suc i) x imp e at h = elim (Bool-cases (weak y)) [
    | inl holds ↦ absurd (ground arith)
    | inr fails ↦
        let below = map-some (find_index weak ys) i (rw fails at e) in
        ground (arith, imp y, find_index-sharper weak sharp ys i x imp below at h)
  ]

  pub find_index-none_of_sharper :
      (weak sharp : A → Bool) (xs : List A)
      → ((y : A) → sharp y ≡ true → weak y ≡ true)
      → find_index weak xs ≡ none
      → find_index sharp xs ≡ none
  unfolding find_index
  find_index-none_of_sharper weak sharp [] imp e = refl
  find_index-none_of_sharper weak sharp (y ∷ ys) imp e =
      ground (arith, imp y, find_index-none_of_sharper weak sharp ys imp)

  pub count_of-set :
      (test : A → Bool) (xs : List A) (i : ℕ) {x : A} (v : A)
      → get_elem? xs i ≡ some x
      → test x ≡ true
      → test v ≡ false
      → count_of test xs ≡ suc (count_of test (set xs i v))
  unfolding count_of
  count_of-set test [] i v e h k = absurd (cc)
  count_of-set test (y ∷ ys) zero v e h k = ground arith
  count_of-set test (y ∷ ys) (suc i) v e h k = ground (arith, count_of-set test ys i v e h k)

  pub count_of-le : (test : A → Bool) (xs : List A) → count_of test xs ≤ length xs
  unfolding count_of
  count_of-le test [] = omega arith
  count_of-le test (x ∷ xs) = ground (arith, count_of-le test xs)

  pub count_of-zero :
      (test : A → Bool) (xs : List A) → find_index test xs ≡ none → count_of test xs ≡ 0
  unfolding count_of find_index
  count_of-zero test [] e = refl
  count_of-zero test (x ∷ xs) e = ground (arith, count_of-zero test xs)

module _ {ℓ} {A : Type ℓ} (test : A → Bool) where
  count_of-permᴰ : {xs ys : List A} → Permᴰ xs ys → count_of test xs ≡ count_of test ys
  unfolding count_of
  count_of-permᴰ Permᴰ.nil = refl
  count_of-permᴰ (Permᴰ.cons e p) = ground (arith, count_of-permᴰ p, ap test e)
  count_of-permᴰ (Permᴰ.swap e f) = ground (arith, ap test e, ap test f)
  count_of-permᴰ (Permᴰ.trans p q) = count_of-permᴰ p ∙ count_of-permᴰ q

  -- The order of a list does not matter to the count.
  pub count_of-perm : {xs ys : List A} → Perm xs ys → count_of test xs ≡ count_of test ys
  count_of-perm {xs} {ys} same =
      ∥∥₁_elim same (ℕ_set (count_of test xs) (count_of test ys)) count_of-permᴰ

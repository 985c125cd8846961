-- ===== src/Prelude/Calls.antt =====
-- How a Go call ends: it returns a value, it panics, or the model's fuel has run out.
use mathlib.Core.Path.{◌≡◌, refl}
use mathlib.Core.Bool.{Bool, true, false}
use mathlib.Core.Option.{Option, none, some}
use kombiner.Prelude.Tests.{if◌then◌else◌}

pub data Outcome {ℓ} (A : Type ℓ) : Type ℓ where
  value : A → Outcome A
  panic : Outcome A
  exhausted : Outcome A

infixl 5 ◌>>=◌
abbrev pub ◌>>=◌ {ℓ κ} : {A : Type ℓ} {B : Type κ} → Outcome A → (A → Outcome B) → Outcome B
value a >>= f = f a
panic >>= f = panic
exhausted >>= f = exhausted

-- A missing value is a panic: an index out of range, a nil pointer.
abbrev pub or_panic {ℓ} : {A : Type ℓ} → Option A → Outcome A
or_panic (some a) = value a
or_panic none = panic

-- The call returns, with a value that satisfies `P`.
pub data Yields {ℓ κ} {A : Type ℓ} (P : A → Type κ) : Outcome A → Type (ℓ ⊔ κ) where
  yields : {a : A} → P a → Yields P (value a)

module _ {ℓ κ} {A : Type ℓ} {P : A → Type κ} where
  pub Yields-bind {ℓ' κ'} :
      {B : Type ℓ'} {Q : B → Type κ'} {m : Outcome A} {f : A → Outcome B}
      → Yields P m
      → ((a : A) → P a → Yields Q (f a))
      → Yields Q (m >>= f)
  Yields-bind (yields p) k = k _ p

  pub Yields-map {κ'} :
      {Q : A → Type κ'} {m : Outcome A} → Yields P m → ((a : A) → P a → Q a) → Yields Q m
  Yields-map (yields p) k = yields (k _ p)

  pub Yields-if :
      {m n : Outcome A} (b : Bool)
      → (b ≡ true → Yields P m)
      → (b ≡ false → Yields P n)
      → Yields P (if b then m else n)
  Yields-if true p q = p refl
  Yields-if false p q = q refl

  -- What two theorems say of one call.
  pub Yields-both {κ'} :
      {Q : A → Type κ'} {m : Outcome A} → Yields P m → Yields Q m → Yields (λ a. P a × Q a) m
  Yields-both (yields p) (yields q) = yields (p, q)

  pub Yields-inv : {m : Outcome A} → Yields P m → (a : A) × (m ≡ value a) × P a
  Yields-inv (yields p) = (_, refl, p)

pub >>=_assoc {ℓ κ μ} :
    {A : Type ℓ} {B : Type κ} {C : Type μ} (m : Outcome A) (f : A → Outcome B) (g : B → Outcome C)
    → ((m >>= f) >>= g) ≡ (m >>= λ a. f a >>= g)
>>=_assoc (value a) f g = refl
>>=_assoc panic f g = refl
>>=_assoc exhausted f g = refl

pub >>=_cong {ℓ κ} :
    {A : Type ℓ} {B : Type κ} (m : Outcome A) (f g : A → Outcome B)
    → ((a : A) → f a ≡ g a)
    → (m >>= f) ≡ (m >>= g)
>>=_cong (value a) f g h = h a
>>=_cong panic f g h = refl
>>=_cong exhausted f g h = refl

-- A chain that returns has returned at each of its links.
pub >>=_value {ℓ κ} :
    {A : Type ℓ} {B : Type κ} (m : Outcome A) (f : A → Outcome B) {b : B}
    → (m >>= f) ≡ value b
    → (a : A) × (m ≡ value a) × (f a ≡ value b)
>>=_value (value a) f e = (a, refl, e)
>>=_value panic f e = absurd (cc)
>>=_value exhausted f e = absurd (cc)

pub or_panic-value {ℓ} : {A : Type ℓ} (o : Option A) {a : A} → or_panic o ≡ value a → o ≡ some a
or_panic-value (some x) e = cc
or_panic-value none e = absurd (cc)

pub value-injective {ℓ} : {A : Type ℓ} {a b : A} → value a ≡ value b → a ≡ b
value-injective e = cc

-- ===== src/Api/DeepCopy/Configuration/Grows.antt =====
-- Slices in a memory that only grows.
use kombiner.Prelude.{
  ℕ, ◌≤◌, ◌≡◌, ◌∙◌, List, [], ◌∷◌, ◌++◌, Option, none, some, arith, length, length-append,
  get_elem?, get_elem?-append, get_elem?-inside, Yields, yields,
}
use kombiner.Api.DeepCopy.{copy_slice}
use kombiner.Api.DeepCopy.Fresh.{entries, get_elem?-last}

module _ {A : Type 0} where
  -- The arrays of before are there unchanged.
  pub record Grows (xs ys : List (List A)) : Type 0 where
    pub kept : (k : ℕ) (x : List A) → get_elem? xs k ≡ some x → get_elem? ys k ≡ some x
    pub longer : length xs ≤ length ys

  -- The slice is nil or an array that was not there.
  abbrev pub IsNew : List (List A) → Option ℕ → Type 0
  IsNew xs s = (k : ℕ) → s ≡ some k → length xs ≤ k

  pub Grows-refl : (xs : List (List A)) → Grows xs xs
  Grows-refl xs = record { kept = λ k x e. e; longer = omega arith }

  pub Grows-trans : {xs ys zs : List (List A)} → Grows xs ys → Grows ys zs → Grows xs zs
  Grows-trans g h = record {
    kept = λ k x e. h.kept k x (g.kept k x e);
    longer = omega (arith, g.longer, h.longer);
  }

  pub Grows-last : (xs : List (List A)) (x : List A) → Grows xs (xs ++ x ∷ [])
  Grows-last xs x = record {
    kept = λ k y e. get_elem?-append xs (x ∷ []) k (get_elem?-inside xs k e) ∙ e;
    longer = omega (arith, length-append xs (x ∷ []));
  }

  pub entries-Grows :
      {xs ys : List (List A)} (s : Option ℕ) (v : List A)
      → Grows xs ys
      → entries xs s ≡ some v
      → entries ys s ≡ some v
  entries-Grows none v g e = e
  entries-Grows (some k) v g e = g.kept k v e

  pub IsNew-Grows : {xs ys : List (List A)} (s : Option ℕ) → Grows xs ys → IsNew ys s → IsNew xs s
  IsNew-Grows s g new k e = omega (arith, g.longer, new k e)

  pub copy_slice-IsNew :
      (xs : List (List A)) (s : Option ℕ) (v : List A)
      → entries xs s ≡ some v
      → Yields (λ r. Grows xs r.1 × (entries r.1 r.0 ≡ some v) × IsNew xs r.0) (copy_slice xs s)
  unfolding copy_slice
  copy_slice-IsNew xs none v e = yields (Grows-refl xs, e, (λ k h. absurd (cc)))
  copy_slice-IsNew xs (some k) v e =
      rw e (yields (Grows-last xs v, get_elem?-last xs v, (λ j h. ground arith)))

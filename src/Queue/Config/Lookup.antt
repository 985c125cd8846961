-- ===== src/Queue/Config/Lookup.antt =====
-- The maps of pkg/queue/config.go, read.
use kombiner.Prelude.{
  arith, ◌≡◌, ◌≢◌, ap, subst, String, List, [], ◌∷◌, none, some, inl, inr, ◌==◌, string_eq, eq_iff,
  All, Bool-cases,
}
use kombiner.Queue.Config.{lookup}

module _ {V : Type 0} where
  pub lookup-miss :
      (k j : String) (v : V) (m : List (String × V)) → j ≢ k → lookup k ((j, v) ∷ m) ≡ lookup k m
  unfolding lookup
  lookup-miss k j v m h = ground (arith, eq_iff j k)

  pub lookup-hit : (k : String) (v : V) (m : List (String × V)) → lookup k ((k, v) ∷ m) ≡ some v
  unfolding lookup
  lookup-hit k v m = ground (arith, eq_iff k k)

  pub lookup-none :
      (k j : String) (v : V) (m : List (String × V))
      → lookup k ((j, v) ∷ m) ≡ none
      → (j ≢ k) × (lookup k m ≡ none)
  unfolding lookup
  lookup-none k j v m h = (ground (arith, eq_iff j k), ground (arith, eq_iff j k))

  -- What holds of every entry holds of the one found.
  pub All-lookup {κ} :
      (P : String × V → Type κ) (k : String) (v : V) (m : List (String × V))
      → All P m
      → lookup k m ≡ some v
      → P (k, v)
  unfolding lookup
  All-lookup P k v [] h found = absurd (cc)
  All-lookup P k v ((j, w) ∷ m) h found = elim (Bool-cases (j == k)) [
    | inl same ↦
        let key : j ≡ k = (eq_iff j k).0 same in
        let value : w ≡ v = ground (arith) in
        subst P (ap (λ (x : String). (x, v)) key) (subst P (ap (λ (x : V). (j, x)) value) h.0)
    | inr other ↦ All-lookup P k v m h.1 (ground (arith))
  ]

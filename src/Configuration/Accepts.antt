-- ===== src/Configuration/Accepts.antt =====
-- Which configurations Load accepts.
use kombiner.Prelude.{
  ℕ, suc, ◌<◌, ◌≡◌, ◌≢◌, ◌↔◌, refl, String, List, [], ◌∷◌, ◌++◌, false, Option, none, some, arith,
  ◌==◌, nat_eq, string_eq, eq_iff, if◌then◌else◌, length, All, iff_trans,
}
use kombiner.Api.Config.{Queue, Configuration}
use kombiner.Configuration.{
  Field, validate_queue, validate_queues_from, validate_queues, validate, load,
}

abbrev pub IsComplete : Queue → Type 0
IsComplete q = (q.scheduler_name ≢ "") × (0 < q.weight) × (0 < q.max_size)

-- There is a queue, and every queue has a name, a weight and a size over 0.
abbrev pub IsWellFormed : Configuration → Type 0
IsWellFormed c = (c.queues ≢ []) × All IsComplete c.queues

append_nil_iff {ℓ} : {A : Type ℓ} (xs ys : List A) → (xs ++ ys ≡ []) ↔ ((xs ≡ []) × (ys ≡ []))
append_nil_iff [] ys = ((λ h. (refl, h)), (λ h. h.1))
append_nil_iff (x ∷ xs) ys = ((λ h. absurd (cc)), (λ (h, k). absurd (cc)))

module _ (field : Field) where
  validate_queue_iff : (idx : ℕ) (q : Queue) → (validate_queue field idx q ≡ []) ↔ IsComplete q
  unfolding validate_queue
  validate_queue_iff idx q = (
    (λ h. (ground (arith, h, eq_iff q.scheduler_name ""), ground (arith, h), ground (arith, h))),
    (λ h. ground (arith, h, eq_iff q.scheduler_name "")),
  )

  validate_queues_from_iff :
      (idx : ℕ) (qs : List Queue) → (validate_queues_from field idx qs ≡ []) ↔ All IsComplete qs
  unfolding validate_queues_from
  validate_queues_from_iff idx [] = ((λ h. tt), (λ h. refl))
  validate_queues_from_iff idx (q ∷ qs) =
      let (split, join) =
        append_nil_iff (validate_queue field idx q) (validate_queues_from field (suc idx) qs) in
      let (here, there) = validate_queue_iff idx q in
      let (rest, back) = validate_queues_from_iff (suc idx) qs in
      ((λ h. (here (split h).0, rest (split h).1)), (λ h. join (there h.0, back h.1)))

  -- The validation gives no field error exactly for a configuration with at least one queue, all of
  -- whose queues have a name, a weight and a size over 0.
  validate-IsWellFormed : (c : Configuration) → (validate field c ≡ []) ↔ IsWellFormed c
  unfolding validate validate_queues
  validate-IsWellFormed c = go (c.queues)
    where
      go :
          (qs : List Queue)
          → ((if length qs == 0
                then field.required (field.new_path "queues") "must be non-empty" ∷ []
                else validate_queues_from field 0 qs)
              ≡ [])
            ↔ ((qs ≢ []) × All IsComplete qs)
      go [] = ((λ h. absurd (cc)), (λ h. absurd (h.0 refl)))
      go (q ∷ qs) =
          let (there, back) = validate_queues_from_iff 0 (q ∷ qs) in
          let filled : (length (q ∷ qs) == 0) ≡ false = ground arith in
          rw filled ((λ h. ((λ e. cc), there h)), (λ h. back h.1))

  -- If ToAggregate gives no error for exactly the empty list of field errors, then Load returns no
  -- error exactly when the file is read and decoded without one, to a configuration with at least one
  -- queue, all of whose queues have a name, a weight and a size over 0.
  pub load_lem :
      ((errs : List (field.Error)) → (field.to_aggregate errs ≡ none) ↔ (errs ≡ []))
      → (decoded : Option String × Configuration)
      → ((load field decoded).1 ≡ none) ↔ ((decoded.0 ≡ none) × IsWellFormed decoded.1)
  unfolding load
  load_lem aggregate (some err, cfg) = ((λ h. absurd (cc)), (λ h. absurd (let e = h.0 in cc)))
  load_lem aggregate (none, cfg) =
      let (there, back) = iff_trans (aggregate (validate field cfg)) (validate-IsWellFormed cfg) in
      ((λ h. (refl, there h)), (λ h. back h.1))

-- ===== src/Api/DeepCopy/Fresh.antt =====
-- A copy shows the same request and shares no slice with it.
use kombiner.Prelude.{
  ℕ, zero, suc, ◌<◌, ◌≡◌, ◌≢◌, ◌∙◌, refl, ap, List, [], ◌∷◌, ◌++◌, Option, none, some, arith,
  length, get_elem?, get_elem?-append, Yields, yields, Yields-bind,
}
use kombiner.Api.Placement.{ObjectMeta, PlacementRequest, Binding, PlacementRequestBindingResult}
use kombiner.Api.DeepCopy.{
  Memory, SpecStruct, StatusStruct, RequestStruct, copy_slice, copy_spec, copy_status,
  deep_copy_into,
}

module _ {ℓ} {A : Type ℓ} where
  -- The entries of a slice.
  abbrev pub entries : List (List A) → Option ℕ → Option (List A)
  entries arrays none = some []
  entries arrays (some k) = get_elem? arrays k

  in_bounds : (xs : List A) (i : ℕ) {x : A} → get_elem? xs i ≡ some x → i < length xs
  in_bounds [] i e = absurd (cc)
  in_bounds (y ∷ ys) zero e = omega arith
  in_bounds (y ∷ ys) (suc i) e = omega (arith, in_bounds ys i e)

  pub get_elem?-last : (xs : List A) (x : A) → get_elem? (xs ++ x ∷ []) (length xs) ≡ some x
  get_elem?-last [] x = refl
  get_elem?-last (y ∷ ys) x = get_elem?-last ys x

-- Two slices share an array only if they are the same index.
abbrev pub AreApart : Option ℕ → Option ℕ → Type 0
AreApart s s' = (k : ℕ) → s ≡ some k → s' ≢ some k

module _ {ℓ} {A : Type ℓ} where
  pub copy_slice-AreApart :
      (arrays : List (List A)) (s : Option ℕ) (xs : List A)
      → entries arrays s ≡ some xs
      → Yields
          (λ r. (entries r.1 r.0 ≡ some xs) × (entries r.1 s ≡ some xs) × AreApart s r.0)
          (copy_slice arrays s)
  unfolding copy_slice
  copy_slice-AreApart arrays none xs e = yields (e, e, (λ k h. absurd (cc)))
  copy_slice-AreApart arrays (some k) xs e =
      let low = in_bounds arrays k e in
      let kept = get_elem?-append arrays (xs ∷ []) k low ∙ e in
      rw e (yields (get_elem?-last arrays xs, kept, (λ j h h'. ground (arith, low))))

-- The memory shows the struct as the request.
pub record Shows (mem : Memory) (r : RequestStruct) (pr : PlacementRequest) : Type 0 where
  pub meta : r.meta ≡ pr.meta
  pub policy : r.spec.policy ≡ pr.spec.policy
  pub priority : r.spec.priority ≡ pr.spec.priority
  pub scheduler_name : r.spec.scheduler_name ≡ pr.spec.scheduler_name
  pub bindings : entries mem.bindings r.spec.bindings ≡ some pr.spec.bindings
  pub result : r.status.result ≡ pr.status.result
  pub reason : r.status.reason ≡ pr.status.reason
  pub message : r.status.message ≡ pr.status.message
  pub results : entries mem.results r.status.bindings ≡ some pr.status.bindings

-- What a copy gives.
pub record Copied (r : RequestStruct) (pr : PlacementRequest) (c : RequestStruct × Memory)
    : Type 0 where
  pub same : Shows c.1 c.0 pr
  pub kept : Shows c.1 r pr
  pub bindings_apart : AreApart r.spec.bindings c.0.spec.bindings
  pub results_apart : AreApart r.status.bindings c.0.status.bindings

pub record SpecCopied (spec : SpecStruct) (mem : Memory) (xs : List Binding)
    (c : SpecStruct × Memory) : Type 0 where
  pub same : entries c.1.bindings c.0.bindings ≡ some xs
  pub kept : entries c.1.bindings spec.bindings ≡ some xs
  pub apart : AreApart spec.bindings c.0.bindings
  pub fields : c.0 ≡ record spec { bindings = c.0.bindings }
  pub untouched : c.1.results ≡ mem.results

copy_spec-SpecCopied :
    (spec : SpecStruct) (mem : Memory) (xs : List Binding)
    → entries mem.bindings spec.bindings ≡ some xs
    → Yields (SpecCopied spec mem xs) (copy_spec spec mem)
unfolding copy_spec
copy_spec-SpecCopied spec mem xs e =
    Yields-bind (copy_slice-AreApart mem.bindings spec.bindings xs e) λ c (same, kept, apart).
      yields (record { same = same; kept = kept; apart = apart; fields = refl; untouched = refl })

pub record StatusCopied (status : StatusStruct) (mem : Memory)
    (xs : List PlacementRequestBindingResult) (c : StatusStruct × Memory) : Type 0 where
  pub same : entries c.1.results c.0.bindings ≡ some xs
  pub kept : entries c.1.results status.bindings ≡ some xs
  pub apart : AreApart status.bindings c.0.bindings
  pub fields : c.0 ≡ record status { bindings = c.0.bindings }
  pub untouched : c.1.bindings ≡ mem.bindings

copy_status-StatusCopied :
    (status : StatusStruct) (mem : Memory) (xs : List PlacementRequestBindingResult)
    → entries mem.results status.bindings ≡ some xs
    → Yields (StatusCopied status mem xs) (copy_status status mem)
unfolding copy_status
copy_status-StatusCopied status mem xs e =
    Yields-bind (copy_slice-AreApart mem.results status.bindings xs e) λ c (same, kept, apart).
      yields (record { same = same; kept = kept; apart = apart; fields = refl; untouched = refl })

-- If the library's copy of the metadata equals it, the deep copy of a request in memory returns: the
-- copy shows the same request, the original still does, and they share neither slice.
pub deep_copy_into-Copied :
    (copy_meta : ObjectMeta → ObjectMeta) (mem : Memory) (r : RequestStruct) (pr : PlacementRequest)
    → ((m : ObjectMeta) → copy_meta m ≡ m)
    → Shows mem r pr
    → Yields (Copied r pr) (deep_copy_into copy_meta r mem)
unfolding deep_copy_into
deep_copy_into-Copied copy_meta mem r pr law s =
    Yields-bind (copy_spec-SpecCopied r.spec mem pr.spec.bindings s.bindings) λ (spec, mem1) c.
      let results : entries mem1.results r.status.bindings ≡ some pr.status.bindings =
        rw (c.untouched) (s.results) in
      Yields-bind (copy_status-StatusCopied r.status mem1 pr.status.bindings results)
        λ (status, mem2) d. yields (record {
          same = record {
            meta = law r.meta ∙ s.meta;
            policy = ap (λ (x : SpecStruct). x.policy) c.fields ∙ s.policy;
            priority = ap (λ (x : SpecStruct). x.priority) c.fields ∙ s.priority;
            scheduler_name = ap (λ (x : SpecStruct). x.scheduler_name) c.fields ∙ s.scheduler_name;
            bindings = rw (d.untouched) (c.same);
            result = ap (λ (x : StatusStruct). x.result) d.fields ∙ s.result;
            reason = ap (λ (x : StatusStruct). x.reason) d.fields ∙ s.reason;
            message = ap (λ (x : StatusStruct). x.message) d.fields ∙ s.message;
            results = d.same;
          };
          kept = record {
            meta = s.meta;
            policy = s.policy;
            priority = s.priority;
            scheduler_name = s.scheduler_name;
            bindings = rw (d.untouched) (c.kept);
            result = s.result;
            reason = s.reason;
            message = s.message;
            results = d.kept;
          };
          bindings_apart = c.apart;
          results_apart = d.apart;
        })

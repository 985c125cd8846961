-- ===== src/Api/DeepCopy/RequestList/Requests.antt =====
-- Copies of requests, one after the other, stand in arrays of their own.
use kombiner.Prelude.{
  ◌≡◌, ◌∙◌, refl, sym, subst, ap, List, [], ◌∷◌, some, All, Yields, yields, Yields-bind,
}
use kombiner.Api.Placement.{ObjectMeta, PlacementRequest}
use kombiner.Api.DeepCopy.{
  Memory, SpecStruct, StatusStruct, RequestStruct, copy_spec, copy_status, deep_copy_into,
}
use kombiner.Api.DeepCopy.Fresh.{entries, Shows}
use kombiner.Api.DeepCopy.Configuration.Grows.{
  Grows, IsNew, Grows-refl, Grows-trans, entries-Grows, IsNew-Grows, copy_slice-IsNew,
}
use kombiner.Api.DeepCopy.RequestList.{copy_requests}

-- The arrays of before are there unchanged.
pub record MemoryGrows (mem mem' : Memory) : Type 0 where
  pub bindings : Grows mem.bindings mem'.bindings
  pub results : Grows mem.results mem'.results

-- Both slices of the request are nil or new.
abbrev pub IsNewRequest : Memory → RequestStruct → Type 0
IsNewRequest mem r = IsNew mem.bindings r.spec.bindings × IsNew mem.results r.status.bindings

pub Shows-MemoryGrows :
    {mem mem' : Memory} (r : RequestStruct) (pr : PlacementRequest)
    → MemoryGrows mem mem'
    → Shows mem r pr
    → Shows mem' r pr
Shows-MemoryGrows r pr g s = record {
  meta = s.meta;
  policy = s.policy;
  priority = s.priority;
  scheduler_name = s.scheduler_name;
  bindings = entries-Grows r.spec.bindings pr.spec.bindings g.bindings s.bindings;
  result = s.result;
  reason = s.reason;
  message = s.message;
  results = entries-Grows r.status.bindings pr.status.bindings g.results s.results;
}

abbrev pub ShowsAll : Memory → List RequestStruct → List PlacementRequest → Type 0
ShowsAll mem [] [] = Unit
ShowsAll mem (r ∷ rs) (pr ∷ prs) = Shows mem r pr × ShowsAll mem rs prs
ShowsAll mem [] (pr ∷ prs) = ⊥
ShowsAll mem (r ∷ rs) [] = ⊥

pub ShowsAll-MemoryGrows :
    {mem mem' : Memory} (rs : List RequestStruct) (prs : List PlacementRequest)
    → MemoryGrows mem mem'
    → ShowsAll mem rs prs
    → ShowsAll mem' rs prs
ShowsAll-MemoryGrows [] [] g h = tt
ShowsAll-MemoryGrows (r ∷ rs) (pr ∷ prs) g h =
    (Shows-MemoryGrows r pr g h.0, ShowsAll-MemoryGrows rs prs g h.1)
ShowsAll-MemoryGrows [] (pr ∷ prs) g h = absurd h
ShowsAll-MemoryGrows (r ∷ rs) [] g h = absurd h

All-IsNewRequest :
    {mem mem' : Memory} (rs : List RequestStruct)
    → MemoryGrows mem mem'
    → All (IsNewRequest mem') rs
    → All (IsNewRequest mem) rs
All-IsNewRequest [] g h = tt
All-IsNewRequest (r ∷ rs) g h = (
  (IsNew-Grows r.spec.bindings g.bindings h.0.0, IsNew-Grows r.status.bindings g.results h.0.1),
  All-IsNewRequest rs g h.1,
)

-- What the copy of a specification and of a status give.
record NewSpec (spec : SpecStruct) (mem : Memory) (pr : PlacementRequest) (c : SpecStruct × Memory)
    : Type 0 where
  grows : Grows mem.bindings c.1.bindings
  untouched : c.1.results ≡ mem.results
  fields : c.0 ≡ record spec { bindings = c.0.bindings }
  same : entries c.1.bindings c.0.bindings ≡ some pr.spec.bindings
  new : IsNew mem.bindings c.0.bindings

copy_spec-NewSpec :
    (spec : SpecStruct) (mem : Memory) (pr : PlacementRequest)
    → entries mem.bindings spec.bindings ≡ some pr.spec.bindings
    → Yields (NewSpec spec mem pr) (copy_spec spec mem)
unfolding copy_spec
copy_spec-NewSpec spec mem pr e =
    Yields-bind (copy_slice-IsNew mem.bindings spec.bindings pr.spec.bindings e) λ c (g, same, new).
      yields (record { grows = g; untouched = refl; fields = refl; same = same; new = new })

record NewStatus (status : StatusStruct) (mem : Memory) (pr : PlacementRequest)
    (c : StatusStruct × Memory) : Type 0 where
  grows : Grows mem.results c.1.results
  untouched : c.1.bindings ≡ mem.bindings
  fields : c.0 ≡ record status { bindings = c.0.bindings }
  same : entries c.1.results c.0.bindings ≡ some pr.status.bindings
  new : IsNew mem.results c.0.bindings

copy_status-NewStatus :
    (status : StatusStruct) (mem : Memory) (pr : PlacementRequest)
    → entries mem.results status.bindings ≡ some pr.status.bindings
    → Yields (NewStatus status mem pr) (copy_status status mem)
unfolding copy_status
copy_status-NewStatus status mem pr e =
    Yields-bind (copy_slice-IsNew mem.results status.bindings pr.status.bindings e)
      λ c (g, same, new).
        yields (record { grows = g; untouched = refl; fields = refl; same = same; new = new })

module _ (copy_meta : ObjectMeta → ObjectMeta) (law : (m : ObjectMeta) → copy_meta m ≡ m) where
  deep_copy_into-IsNewRequest :
      (mem : Memory) (r : RequestStruct) (pr : PlacementRequest)
      → Shows mem r pr
      → Yields
          (λ c. MemoryGrows mem c.1 × Shows c.1 c.0 pr × IsNewRequest mem c.0)
          (deep_copy_into copy_meta r mem)
  unfolding deep_copy_into
  deep_copy_into-IsNewRequest mem r pr s =
      Yields-bind (copy_spec-NewSpec r.spec mem pr s.bindings) λ (spec, mem1) c.
        let results : entries mem1.results r.status.bindings ≡ some pr.status.bindings =
          rw (c.untouched) (s.results) in
        Yields-bind (copy_status-NewStatus r.status mem1 pr results) λ (status, mem2) d. yields (
          record {
            bindings = subst (Grows mem.bindings) (sym d.untouched) c.grows;
            results = subst (λ xs. Grows xs mem2.results) c.untouched d.grows;
          },
          record {
            meta = law r.meta ∙ s.meta;
            policy = ap (λ (x : SpecStruct). x.policy) c.fields ∙ s.policy;
            priority = ap (λ (x : SpecStruct). x.priority) c.fields ∙ s.priority;
            scheduler_name = ap (λ (x : SpecStruct). x.scheduler_name) c.fields ∙ s.scheduler_name;
            bindings = rw (d.untouched) (c.same);
            result = ap (λ (x : StatusStruct). x.result) d.fields ∙ s.result;
            reason = ap (λ (x : StatusStruct). x.reason) d.fields ∙ s.reason;
            message = ap (λ (x : StatusStruct). x.message) d.fields ∙ s.message;
            results = d.same;
          },
          (c.new, subst (λ xs. IsNew xs status.bindings) c.untouched d.new),
        )

  pub copy_requests-IsNewRequest :
      (mem : Memory) (rs : List RequestStruct) (prs : List PlacementRequest)
      → ShowsAll mem rs prs
      → Yields
          (λ c. MemoryGrows mem c.1 × ShowsAll c.1 c.0 prs × All (IsNewRequest mem) c.0)
          (copy_requests copy_meta rs mem)
  unfolding copy_requests
  copy_requests-IsNewRequest mem [] [] h =
      yields
        (record { bindings = Grows-refl mem.bindings; results = Grows-refl mem.results }, tt, tt)
  copy_requests-IsNewRequest mem (r ∷ rs) (pr ∷ prs) h =
      Yields-bind (deep_copy_into-IsNewRequest mem r pr h.0) λ (c, mem1) (g, same, new).
        Yields-bind (copy_requests-IsNewRequest mem1 rs prs (ShowsAll-MemoryGrows rs prs g h.1))
          λ (cs, mem2) (k, sames, news). yields (
            record {
              bindings = Grows-trans g.bindings k.bindings;
              results = Grows-trans g.results k.results;
            },
            (Shows-MemoryGrows c pr k same, sames),
            (new, All-IsNewRequest cs g news),
          )
  copy_requests-IsNewRequest mem [] (pr ∷ prs) h = absurd h
  copy_requests-IsNewRequest mem (r ∷ rs) [] h = absurd h

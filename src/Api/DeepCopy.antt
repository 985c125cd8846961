-- ===== src/Api/DeepCopy.antt =====
-- pkg/apis/kombiner/v1alpha1/zz_generated.deepcopy.go: the copies of a request. A slice is an index
-- into the memory's arrays, or `none` for nil. The copy of the metadata is the library's.
pub mod Fresh
pub mod Configuration
pub mod RequestList
pub mod Arguments
use kombiner.Prelude.{
  ℕ, List, [], ◌∷◌, ◌++◌, Option, none, some, String, length, get_elem?, Outcome, value, ◌>>=◌,
  or_panic,
}
use kombiner.Api.Placement.{
  ObjectMeta, Binding, PlacementRequestBindingResult, PlacementRequestPolicy,
  PlacementRequestResult,
}

-- The arrays behind the slices of the two element types.
pub record Memory : Type 0 where
  pub bindings : List (List Binding)
  pub results : List (List PlacementRequestBindingResult)

pub record SpecStruct : Type 0 where
  pub policy : PlacementRequestPolicy
  pub priority : ℕ
  pub scheduler_name : String
  pub bindings : Option ℕ

pub record StatusStruct : Type 0 where
  pub result : PlacementRequestResult
  pub reason : String
  pub message : String
  pub bindings : Option ℕ

pub record RequestStruct : Type 0 where
  pub meta : ObjectMeta
  pub spec : SpecStruct
  pub status : StatusStruct

-- `make` and the copy of every element, unless the slice is nil.
unfoldable pub copy_slice {ℓ} :
    {A : Type ℓ} → List (List A) → Option ℕ → Outcome (Option ℕ × List (List A))
copy_slice arrays none = value (none, arrays)
copy_slice arrays (some k) = do
  xs ← or_panic (get_elem? arrays k)
  value (some (length arrays), arrays ++ xs ∷ [])

-- DeepCopyInto of a PlacementRequestSpec.
unfoldable pub copy_spec : SpecStruct → Memory → Outcome (SpecStruct × Memory)
unfolding copy_slice
copy_spec spec mem = do
  (slice, arrays) ← copy_slice mem.bindings spec.bindings
  value (record spec { bindings = slice }, record mem { bindings = arrays })

-- DeepCopyInto of a PlacementRequestStatus.
unfoldable pub copy_status : StatusStruct → Memory → Outcome (StatusStruct × Memory)
unfolding copy_slice
copy_status status mem = do
  (slice, arrays) ← copy_slice mem.results status.bindings
  value (record status { bindings = slice }, record mem { results = arrays })

module _ (copy_meta : ObjectMeta → ObjectMeta) where
  unfoldable pub deep_copy_into : RequestStruct → Memory → Outcome (RequestStruct × Memory)
  unfolding copy_spec copy_status
  deep_copy_into r mem = do
    (spec, mem1) ← copy_spec r.spec mem
    (status, mem2) ← copy_status r.status mem1
    value (record { meta = copy_meta r.meta; spec = spec; status = status }, mem2)

  -- A nil pointer gives nil.
  unfoldable pub deep_copy : Option RequestStruct → Memory → Outcome (Option RequestStruct × Memory)
  unfolding deep_copy_into
  deep_copy none mem = value (none, mem)
  deep_copy (some r) mem = do (copy, mem') ← deep_copy_into r mem; value (some copy, mem')

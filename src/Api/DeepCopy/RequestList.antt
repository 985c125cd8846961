-- ===== src/Api/DeepCopy/RequestList.antt =====
-- pkg/apis/kombiner/v1alpha1/zz_generated.deepcopy.go: the copies of a list of requests and of the
-- parts of a request. The copy of the list's metadata is the library's.
pub mod Requests
pub mod Fresh
use kombiner.Prelude.{
  ℕ, List, [], ◌∷◌, ◌++◌, Option, none, some, length, get_elem?, Outcome, value, ◌>>=◌, or_panic,
}
use kombiner.Api.Placement.{ObjectMeta, Binding, PlacementRequestBindingResult}
use kombiner.Api.DeepCopy.{
  Memory, SpecStruct, StatusStruct, RequestStruct, copy_spec, copy_status, deep_copy_into,
  deep_copy,
}
use kombiner.Api.DeepCopy.Configuration.{copy_pointer}

-- `M` is the list's metadata.
pub record RequestListStruct (M : Type 0) : Type 0 where
  pub meta : M
  pub items : Option ℕ

-- The memory of requests, and the arrays of requests.
pub record ListMemory : Type 0 where
  pub memory : Memory
  pub requests : List (List RequestStruct)

module _ (copy_meta : ObjectMeta → ObjectMeta) where
  -- The loop over the items.
  unfoldable pub copy_requests : List RequestStruct → Memory → Outcome (List RequestStruct × Memory)
  unfolding deep_copy_into
  copy_requests [] mem = value ([], mem)
  copy_requests (r ∷ rs) mem = do
    (copy, mem1) ← deep_copy_into copy_meta r mem
    (copies, mem2) ← copy_requests rs mem1
    value (copy ∷ copies, mem2)

  -- A nil slice stays nil.
  unfoldable pub copy_items : Option ℕ → ListMemory → Outcome (Option ℕ × ListMemory)
  unfolding copy_requests
  copy_items none mem = value (none, mem)
  copy_items (some k) mem = do
    requests ← or_panic (get_elem? mem.requests k)
    (copies, memory) ← copy_requests requests mem.memory
    value (
      some (length mem.requests),
      record { memory = memory; requests = mem.requests ++ copies ∷ [] },
    )

  module _ {M : Type 0} (copy_list_meta : M → M) where
    unfoldable pub copy_request_list :
        RequestListStruct M → ListMemory → Outcome (RequestListStruct M × ListMemory)
    unfolding copy_items
    copy_request_list l mem = do
      (items, mem') ← copy_items l.items mem
      value (record { meta = copy_list_meta l.meta; items = items }, mem')

    unfoldable pub deep_copy_request_list :
        Option (RequestListStruct M)
        → ListMemory
        → Outcome (Option (RequestListStruct M) × ListMemory)
    unfolding copy_pointer copy_request_list
    deep_copy_request_list l mem = copy_pointer copy_request_list l mem

    -- A nil copy gives a nil object.
    unfoldable pub deep_copy_list_object :
        Option (RequestListStruct M)
        → ListMemory
        → Outcome (Option (RequestListStruct M) × ListMemory)
    unfolding deep_copy_request_list
    deep_copy_list_object l mem = do
      (copy, mem') ← deep_copy_request_list l mem
      elim copy [ some c ↦ value (some c, mem') | none ↦ value (none, mem') ]

  unfoldable pub deep_copy_request_object :
      Option RequestStruct → Memory → Outcome (Option RequestStruct × Memory)
  unfolding deep_copy
  deep_copy_request_object r mem = do
    (copy, mem') ← deep_copy copy_meta r mem
    elim copy [ some c ↦ value (some c, mem') | none ↦ value (none, mem') ]

unfoldable pub deep_copy_spec : Option SpecStruct → Memory → Outcome (Option SpecStruct × Memory)
unfolding copy_pointer copy_spec
deep_copy_spec s mem = copy_pointer copy_spec s mem

unfoldable pub deep_copy_status :
    Option StatusStruct → Memory → Outcome (Option StatusStruct × Memory)
unfolding copy_pointer copy_status
deep_copy_status s mem = copy_pointer copy_status s mem

-- The parts without slices are copied by the assignment.
unfoldable pub copy_binding : Binding → Binding
copy_binding b = b

unfoldable pub deep_copy_binding : Option Binding → Option Binding
unfolding copy_binding
deep_copy_binding none = none
deep_copy_binding (some b) = some (copy_binding b)

unfoldable pub copy_binding_result : PlacementRequestBindingResult → PlacementRequestBindingResult
copy_binding_result r = r

unfoldable pub deep_copy_binding_result :
    Option PlacementRequestBindingResult → Option PlacementRequestBindingResult
unfolding copy_binding_result
deep_copy_binding_result none = none
deep_copy_binding_result (some r) = some (copy_binding_result r)

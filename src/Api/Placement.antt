-- ===== src/Api/Placement.antt =====
-- pkg/apis/kombiner/v1alpha1/types.go: PlacementRequest and what it is made of.
-- Of the Kubernetes ObjectMeta only the fields that the program reads or writes are kept.
-- The string types of the API (policy, result) stay texts: nothing in Go closes them.
use kombiner.Prelude.{ℕ, String, List, Option}

abbrev pub PlacementRequestPolicy : Type 0
PlacementRequestPolicy = String

abbrev pub PlacementRequestResult : Type 0
PlacementRequestResult = String

abbrev pub policy_all_or_nothing : PlacementRequestPolicy
policy_all_or_nothing = "AllOrNothing"

abbrev pub policy_lenient : PlacementRequestPolicy
policy_lenient = "Lenient"

abbrev pub result_unknown : PlacementRequestResult
result_unknown = ""

abbrev pub result_success : PlacementRequestResult
result_success = "Success"

abbrev pub result_partial_success : PlacementRequestResult
result_partial_success = "PartialSuccess"

abbrev pub result_failure : PlacementRequestResult
result_failure = "Failure"

abbrev pub result_rejected : PlacementRequestResult
result_rejected = "Rejected"

-- A point in time: Unix seconds, an int64 given by its 64 bits, and nanoseconds within the second.
pub record Time : Type 0 where
  pub seconds : ℕ
  pub nanoseconds : ℕ

pub record OwnerReference : Type 0 where
  pub api_version : String
  pub kind : String
  pub name : String
  pub uid : String

pub record ObjectMeta : Type 0 where
  pub name : String
  pub namespace : String
  pub creation_timestamp : Time
  pub deletion_timestamp : Option Time
  pub owner_references : List OwnerReference

pub record Binding : Type 0 where
  pub pod_name : String
  pub pod_uid : String
  pub node_name : String

-- `priority` is a Go int, given by its 64 bits.
pub record PlacementRequestSpec : Type 0 where
  pub policy : PlacementRequestPolicy
  pub priority : ℕ
  pub scheduler_name : String
  pub bindings : List Binding

pub record PlacementRequestBindingResult : Type 0 where
  pub binding : Binding
  pub result : PlacementRequestResult
  pub reason : String
  pub message : String

pub record PlacementRequestStatus : Type 0 where
  pub result : PlacementRequestResult
  pub reason : String
  pub message : String
  pub bindings : List PlacementRequestBindingResult

pub record PlacementRequest : Type 0 where
  pub meta : ObjectMeta
  pub spec : PlacementRequestSpec
  pub status : PlacementRequestStatus

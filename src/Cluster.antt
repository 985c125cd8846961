-- ===== src/Cluster.antt =====
-- The Kubernetes API as the program sees it: calls and their answers. An answer is a parameter that
-- may depend on all calls made before it, so the cluster may change at any time and in any way. The
-- log of calls stands newest first. `error` is Option of its text.
use kombiner.Prelude.{String, List, Option}
use kombiner.Api.Placement.{PlacementRequest}

-- Of a pod only `spec.nodeName` is read.
pub record Pod : Type 0 where
  pub node_name : String

-- v1.Binding, with its target reference.
pub record BindRequest : Type 0 where
  pub namespace : String
  pub name : String
  pub uid : String
  pub target_kind : String
  pub target_name : String

pub data Answer (A : Type 0) : Type 0 where
  found : A → Answer A
  failed : String → Answer A

pub data Call : Type 0 where
  get_pod : String → String → Call
  bind_pod : BindRequest → Call
  update_status : PlacementRequest → Call
  get_request : String → String → Call
  create_request : PlacementRequest → Call
  delete_request : String → String → Call

abbrev pub Log : Type 0
Log = List Call

pub record Cluster : Type 0 where
  pub pod_of : Log → String → String → Answer Pod
  pub bind_error : Log → BindRequest → Option String
  pub update_error : Log → PlacementRequest → Option String
  pub request_of : Log → String → String → Answer PlacementRequest
  pub create_error : Log → PlacementRequest → Option String
  pub delete_error : Log → String → String → Option String

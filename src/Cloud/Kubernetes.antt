-- ===== src/Cloud/Kubernetes.antt =====
-- The Kubernetes objects that the provider reads or writes, with the fields that it uses, and the
-- calls of client-go, which are a parameter.
use exoscale_cloud_controlle.Base.{String, Option, List, ℤ, Error, Result, Action}

pub record ServicePort : Type 0 where
  pub port : ℤ
  pub node_port : ℤ
  pub protocol : String

-- `v1.Service`; an absent annotation map is the empty one.
pub record Service : Type 0 where
  pub namespace : String
  pub name : String
  pub uid : String
  pub annotations : List (String × String)
  pub ports : List ServicePort
  pub external_traffic_policy : String
  pub health_check_node_port : ℤ

-- `v1.Node`
pub record Node : Type 0 where
  pub name : String
  pub annotations : List (String × String)
  pub provider_id : String
  pub system_uuid : String

pub record NodeAddress : Type 0 where
  pub type : String
  pub address : String

-- A Go call that answers with a pointer and an error, of which a caller may ignore either.
pub record Answer (A : Type 0) : Type 0 where
  pub value : Option A
  pub error : Option Error

pub record Kube (W : Type 0) : Type 0 where
  pub get_node : String → W → Answer Node × W
  -- `json.Marshal`
  pub marshal : Service → Result String
  -- `strategicpatch.CreateTwoWayMergePatch`
  pub two_way_merge_patch : String → String → Result String
  -- namespace, name, patch
  pub patch_service : String → String → String → Action W (Unit {0})

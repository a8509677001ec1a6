-- ===== src/Cloud/Exoscale.antt =====
-- The data of the Exoscale API (egoscale v3) that the provider reads or writes, and the interface
-- `exoscaleClient` of exoscale/client.go. The API itself is a parameter: `W` stands for all that it
-- knows, and each operation answers and leaves a new `W`. Addresses are the texts that `String`
-- gives, with `none` for a nil address.
use exoscale_cloud_controlle.Base.{String, Option, List, ℤ, Result, Action}

pub record InstancePool : Type 0 where
  pub id : String
  -- the other fields of the API's object, by name
  pub others : List (String × String)

pub record Healthcheck : Type 0 where
  pub mode : String
  pub port : ℤ
  pub uri : String
  pub interval : ℤ
  pub timeout : ℤ
  pub retries : ℤ
  pub tls_sni : String

pub record LoadBalancerService : Type 0 where
  pub id : String
  pub name : String
  pub description : String
  pub instance_pool : Option InstancePool
  pub healthcheck : Option Healthcheck
  pub healthcheck_status : List (String × String)
  pub port : ℤ
  pub target_port : ℤ
  pub protocol : String
  pub strategy : String
  pub state : String

pub record LoadBalancer : Type 0 where
  pub id : String
  pub name : String
  pub description : String
  pub ip : String
  pub labels : List (String × String)
  pub services : List LoadBalancerService
  pub state : String

-- `CreateLoadBalancerRequest` and `UpdateLoadBalancerRequest`, which have the same fields.
pub record LoadBalancerRequest : Type 0 where
  pub name : String
  pub description : String
  pub labels : List (String × String)

-- `AddServiceToLoadBalancerRequest`; the same without a pool is `UpdateLoadBalancerServiceRequest`.
pub record ServiceRequest : Type 0 where
  pub name : String
  pub description : String
  pub port : ℤ
  pub target_port : ℤ
  pub protocol : String
  pub strategy : String
  pub healthcheck : Option Healthcheck
  pub instance_pool : Option InstancePool

pub record Operation : Type 0 where
  pub id : String
  pub state : String
  -- the ID under `Reference`
  pub reference : Option String

pub record Manager : Type 0 where
  pub id : String
  pub type : String

pub record Instance : Type 0 where
  pub id : String
  pub name : String
  -- the ID under `InstanceType`
  pub instance_type : Option String
  pub public_ip : Option String
  pub ipv6_address : String
  pub private_networks : List String
  pub manager : Option Manager
  pub state : String

pub record InstanceType : Type 0 where
  pub family : String
  pub size : String

pub record SksNodepool : Type 0 where
  pub name : String
  -- the ID under `InstancePool`
  pub instance_pool : Option String

pub record SksCluster : Type 0 where
  pub id : String
  pub name : String
  pub nodepools : List SksNodepool

-- `exoscaleClient`
pub record Client (W : Type 0) : Type 0 where
  pub create_load_balancer : LoadBalancerRequest → Action W Operation
  pub add_service_to_load_balancer : String → ServiceRequest → Action W Operation
  pub delete_load_balancer : String → Action W Operation
  pub delete_load_balancer_service : String → String → Action W Operation
  pub get_instance : String → Action W Instance
  pub get_instance_type : String → Action W InstanceType
  pub get_load_balancer : String → Action W LoadBalancer
  pub list_instances : Action W (List Instance)
  pub list_load_balancers : Action W (List LoadBalancer)
  pub list_sks_clusters : Action W (List SksCluster)
  pub update_load_balancer : String → LoadBalancerRequest → Action W Operation
  pub update_load_balancer_service : String → String → ServiceRequest → Action W Operation
  pub wait : Operation → String → Action W Operation

-- The look-ups by name or ID that egoscale defines on its list answers.
pub record Finders : Type 0 where
  pub find_load_balancer : List LoadBalancer → String → Result LoadBalancer
  pub find_sks_cluster : List SksCluster → String → Result SksCluster

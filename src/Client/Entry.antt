-- ===== src/Client/Entry.antt =====
-- The provider as the Kubernetes libraries see it (exoscale/exoscale.go, lines 25-94 and 133-177).
use exoscale_cloud_controlle.Base.{String, Bool, true, false, not, Option, none, Result, ok, err}
use exoscale_cloud_controlle.Client.Config.{CloudConfig, Env, read_exoscale_config}
use exoscale_cloud_controlle.Client.Setup.{provider_zone}
use exoscale_cloud_controlle.Instances.Config.{InstancesConfig}
use exoscale_cloud_controlle.Instances.Zones.{ZoneMetadata}

abbrev pub provider_name : String
provider_name = "exoscale"

-- The controllers that a provider has, each with the part of the configuration that it is given.
pub data Controller : Type 0 where
  instances_controller : InstancesConfig → Controller
  instances_v2_controller : InstancesConfig → Controller
  load_balancer_controller : (disabled : Bool) → Controller
  zones_controller : Controller

-- `cloudProvider` before `Initialize`.
pub record CloudProvider : Type 0 where
  pub cfg : CloudConfig
  pub zone : String
  pub instances : Controller
  pub instances_v2 : Controller
  pub load_balancer : Controller
  pub zones : Controller

-- `newExoscaleCloud`
unfoldable pub new_exoscale_cloud : Env → ZoneMetadata → CloudConfig → Result CloudProvider
new_exoscale_cloud env metadata config = elim (provider_zone env metadata) [
  | err e ↦ err e
  | ok zone ↦ ok (record {
    cfg = config;
    zone = zone;
    instances = instances_controller config.instances;
    instances_v2 = instances_v2_controller config.instances;
    load_balancer = load_balancer_controller config.load_balancer_disabled;
    zones = zones_controller;
  })
]

-- What `init` registers under the provider's name.
unfoldable pub registered :
    Env → ZoneMetadata → CloudConfig → Option (Result CloudConfig) → Result CloudProvider
registered env metadata empty decoder = elim (read_exoscale_config env empty decoder) [
  | err e ↦ err e
  | ok cfg ↦ new_exoscale_cloud env metadata cfg
]

-- `LoadBalancer`, `Instances`, `InstancesV2`, `Zones`, `Clusters` and `Routes`: the interface, and
-- whether it is supported.
abbrev pub load_balancer_interface : CloudProvider → Controller × Bool
load_balancer_interface p = (p.load_balancer, not p.cfg.load_balancer_disabled)

abbrev pub instances_interface : CloudProvider → Controller × Bool
instances_interface p = (p.instances, not p.cfg.instances.disabled)

abbrev pub instances_v2_interface : CloudProvider → Controller × Bool
instances_v2_interface p = (p.instances_v2, not p.cfg.instances.disabled)

abbrev pub zones_interface : CloudProvider → Controller × Bool
zones_interface p = (p.zones, true)

abbrev pub clusters_interface : CloudProvider → Option Controller × Bool
clusters_interface p = (none, false)

abbrev pub routes_interface : CloudProvider → Option Controller × Bool
routes_interface p = (none, false)

-- `HasClusterID`
abbrev pub has_cluster_id : CloudProvider → Bool
has_cluster_id p = false

-- ===== src/Instances/Disabled.antt =====
-- The node controllers where the API is disabled (`externalOnly` in the cloud-config file).
use exoscale_cloud_controlle.Base.{String, ◌≡◌, true, arith, Action}
use exoscale_cloud_controlle.Cloud.Kubernetes.{Node}
use exoscale_cloud_controlle.Instances.Provider.{Provider}
use exoscale_cloud_controlle.Instances.Legacy.{
  instance_id, node_addresses, node_addresses_by_provider_id, instance_type,
  instance_type_by_provider_id, instance_exists_by_provider_id, instance_shutdown_by_provider_id,
}
use exoscale_cloud_controlle.Instances.V2.{instance_exists, instance_shutdown, instance_metadata}
use exoscale_cloud_controlle.Instances.Zones.{get_zone_by_node_name, get_zone_by_provider_id}

module _ {W : Type 0} (p : Provider W) where
  -- The call leaves the world alone, so it has asked neither API for anything.
  abbrev pub Untouched : {A : Type 0} → Action W A → Type 0
  Untouched m = (w : W) → (m w).1 ≡ w

  -- The methods of the newer interface do so, and those of the older one and of the zones.
  abbrev pub NodeUntouched : Node → Type 0
  NodeUntouched node =
      Untouched (instance_exists p node)
      × Untouched (instance_shutdown p node)
      × Untouched (instance_metadata p node)

  abbrev pub NameUntouched : String → Type 0
  NameUntouched name =
      Untouched (instance_id p name)
      × Untouched (node_addresses p name)
      × Untouched (node_addresses_by_provider_id p name)
      × Untouched (instance_type p name)
      × Untouched (instance_type_by_provider_id p name)
      × Untouched (instance_exists_by_provider_id p name)
      × Untouched (instance_shutdown_by_provider_id p name)
      × Untouched (get_zone_by_provider_id p name)
      × Untouched (get_zone_by_node_name p name)

  v2-Untouched : (node : Node) → p.instances.external_only ≡ true → NodeUntouched node
  unfolding instance_exists instance_shutdown instance_metadata
  v2-Untouched node h = (λ w. ground arith, λ w. ground arith, λ w. ground arith)

  legacy-Untouched : (name : String) → p.instances.external_only ≡ true → NameUntouched name
  unfolding instance_id node_addresses node_addresses_by_provider_id instance_type
      instance_type_by_provider_id instance_exists_by_provider_id instance_shutdown_by_provider_id
      get_zone_by_provider_id get_zone_by_node_name
  legacy-Untouched name h = (
    λ w. ground arith,
    λ w. ground arith,
    λ w. ground arith,
    λ w. ground arith,
    λ w. ground arith,
    λ w. ground arith,
    λ w. ground arith,
    λ w. ground arith,
    λ w. ground arith,
  )

  -- With the API disabled, the methods of the newer instance interface, and those of the older one and
  -- of the zones interface that look for a node, leave the world as it is.
  pub disabled-Untouched :
      (node : Node) (name : String)
      → p.instances.external_only ≡ true
      → NodeUntouched node × NameUntouched name
  disabled-Untouched node name h = (v2-Untouched node h, legacy-Untouched name h)

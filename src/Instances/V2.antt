-- ===== src/Instances/V2.antt =====
-- The `InstancesV2` interface (exoscale/instances_v2.go).
use exoscale_cloud_controlle.Base.{
  String, ◌<>◌, Bool, true, false, not, Option, none, some, List, [], ◌∷◌, ◌==◌, string_eq,
  if◌then◌else◌, ok, err, Action, not_implemented, is_not_found, ◌>>=◌, pure, fail, deref, attempt,
}
use exoscale_cloud_controlle.Cloud.Exoscale.{Instance}
use exoscale_cloud_controlle.Cloud.Kubernetes.{NodeAddress, Node}
use exoscale_cloud_controlle.Instances.Addresses.{node_addresses_from_instance}
use exoscale_cloud_controlle.Instances.Config.{
  Override, get_instance_override, get_instance_override_by_provider_id, default_external_id,
  provider_prefix,
}
use exoscale_cloud_controlle.Instances.Labels.{remove_invalid, get_instance_type_name}
use exoscale_cloud_controlle.Instances.Legacy.{is_stopped}
use exoscale_cloud_controlle.Instances.Provider.{
  Provider, compute_instance_by_provider_id, api_disabled,
}

-- `cloudprovider.InstanceMetadata`
pub record InstanceMetadata : Type 0 where
  pub provider_id : String
  pub instance_type : String
  pub node_addresses : List NodeAddress
  pub zone : String
  pub region : String

module _ {W : Type 0} (p : Provider W) where
  -- `nodeInstanceOverride`
  unfoldable pub node_instance_override : Node → Option Override
  node_instance_override node =
      let by_name = get_instance_override p.matching p.instances node.name in
      if not (node.provider_id == "")
      then elim (get_instance_override_by_provider_id p.matching p.instances node.provider_id) [
        | some c ↦ some c
        | none ↦ by_name
      ]
      else by_name

  -- `computeInstanceByNode`
  unfoldable pub compute_instance_by_node : Node → Action W Instance
  compute_instance_by_node node =
      compute_instance_by_provider_id p
        (if node.provider_id == "" then node.system_uuid else node.provider_id)

  abbrev is_external : Option Override → Bool
  is_external o = elim o [ none ↦ false | some c ↦ c.external ]

  -- `InstanceExists`
  unfoldable pub instance_exists : Node → Action W Bool
  instance_exists node =
      if is_external (node_instance_override node)
      then pure true
      else if p.instances.external_only
      then pure false
      else (attempt (compute_instance_by_node node) >>= λ found. elim found [
        | ok _ ↦ pure true
        | err e ↦ if is_not_found e then pure false else fail e
      ])

  -- `InstanceShutdown`
  unfoldable pub instance_shutdown : Node → Action W Bool
  instance_shutdown node =
      if is_external (node_instance_override node)
      then fail not_implemented
      else if p.instances.external_only
      then fail api_disabled
      else (compute_instance_by_node node >>= λ instance. pure (is_stopped instance.state))

  abbrev pub empty_metadata : InstanceMetadata
  empty_metadata = record {
    provider_id = "";
    instance_type = "";
    node_addresses = [];
    zone = "";
    region = "";
  }

  -- What an override sets, whether or not its node is external.
  unfoldable pub with_override : Override → InstanceMetadata
  unfolding string_eq
  with_override o = record empty_metadata {
    instance_type = if not (o.type == "") then o.type else if o.external then "external" else "";
    node_addresses = o.addresses;
  }

  -- The answer for an external node.
  unfoldable pub external_metadata : Override → InstanceMetadata
  unfolding with_override default_external_id
  external_metadata o =
      let id =
        if o.external_id == "" then default_external_id p.matching o.name else o.external_id in
      let region = if o.region == "" then "external" else o.region in
      record (with_override o) {
        provider_id = provider_prefix <> id;
        zone = region;
        region = region;
      }

  -- The type that the API knows, unless an override has set one.
  unfoldable pub type_of_instance : String → Instance → Action W String
  type_of_instance known instance =
      if not (known == "")
      then pure known
      else (deref instance.instance_type >>= λ type_id.
          p.client.get_instance_type type_id >>= λ type.
          pure (remove_invalid (get_instance_type_name type.family type.size)))

  unfoldable pub api_metadata : Node → InstanceMetadata → Action W InstanceMetadata
  unfolding type_of_instance
  api_metadata node meta = do
    instance ← compute_instance_by_node node
    type ← type_of_instance meta.instance_type instance
    pure (record {
      provider_id = provider_prefix <> instance.id;
      instance_type = type;
      node_addresses = elim meta.node_addresses [
        | [] ↦ node_addresses_from_instance node instance
        | a ∷ more ↦ a ∷ more
      ];
      zone = p.zone;
      region = p.zone;
    })

  -- `InstanceMetadata`
  unfoldable pub instance_metadata : Node → Action W InstanceMetadata
  unfolding external_metadata api_metadata
  instance_metadata node = elim (node_instance_override node) [
    | none ↦
        if p.instances.external_only then fail api_disabled else api_metadata node empty_metadata
    | some o ↦
        if o.external
        then pure (external_metadata o)
        else if p.instances.external_only
        then fail api_disabled
        else api_metadata node (with_override o)
  ]

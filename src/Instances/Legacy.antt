-- ===== src/Instances/Legacy.antt =====
-- The `Instances` interface (exoscale/instances.go).
use exoscale_cloud_controlle.Base.{
  String, Bool, true, false, not, ◌||◌, Option, none, some, List, [], ◌∷◌, ◌==◌, string_eq,
  if◌then◌else◌, ok, err, Action, not_implemented, is_not_found, ◌>>=◌, pure, fail, deref, attempt,
}
use exoscale_cloud_controlle.Cloud.Kubernetes.{NodeAddress}
use exoscale_cloud_controlle.Instances.Addresses.{addresses_of, provided_ip, has_private_network}
use exoscale_cloud_controlle.Instances.Config.{
  Override, get_instance_override, get_instance_override_by_provider_id, default_external_id,
}
use exoscale_cloud_controlle.Instances.Labels.{remove_invalid, get_instance_type_name}
use exoscale_cloud_controlle.Instances.Provider.{
  Provider, compute_instance_by_provider_id, api_disabled, get_node, node_of_instance,
}

-- `instance.State == "stopping" || instance.State == "stopped"`
unfoldable pub is_stopped : String → Bool
unfolding string_eq
is_stopped state = state == "stopping" || state == "stopped"

module _ {W : Type 0} (p : Provider W) where
  -- The addresses of an override: its own, or none for an external node, or no answer.
  abbrev pub override_addresses : Override → Option (List NodeAddress)
  override_addresses o = elim o.addresses [
    | a ∷ more ↦ some (a ∷ more)
    | [] ↦ if o.external then some [] else none
  ]

  -- The type of an override, or that of an external node, or no answer.
  unfoldable pub override_type : Override → Option String
  unfolding string_eq
  override_type o =
      if not (o.type == "") then some o.type else if o.external then some "external" else none

  -- The ID of an override for an external node.
  unfoldable pub override_id : Override → Option String
  unfolding string_eq default_external_id
  override_id o =
      if o.external
      then some (
          if not (o.external_id == "")
          then o.external_id
          else default_external_id p.matching o.name)
      else none

  -- What the override found says goes before the API, which may be disabled.
  abbrev pub from_override :
      {A : Type 0} → (Override → Option A) → Option Override → Action W A → Action W A
  from_override answer o api = elim o [
    | none ↦ if p.instances.external_only then fail api_disabled else api
    | some c ↦ elim (answer c) [
      | some a ↦ pure a
      | none ↦ if p.instances.external_only then fail api_disabled else api
    ]
  ]

  abbrev by_name : String → Option Override
  by_name = get_instance_override p.matching p.instances

  abbrev by_provider_id : String → Option Override
  by_provider_id = get_instance_override_by_provider_id p.matching p.instances

  -- `InstanceID`
  unfoldable pub instance_id : String → Action W String
  unfolding override_id
  instance_id node_name =
      from_override override_id (by_name node_name)
        (get_node p node_name >>= λ node. pure node.system_uuid)

  -- The address that the instance's node provides, looked for on a private network only.
  unfoldable pub provided_address : (name : String) → Bool → Action W (Option String)
  unfolding provided_ip
  provided_address name false = pure none
  provided_address name true = do
    node ← node_of_instance p name
    elim node [ none ↦ pure none | some n ↦ pure (provided_ip n) ]

  -- `NodeAddressesByProviderID`
  unfoldable pub node_addresses_by_provider_id : String → Action W (List NodeAddress)
  unfolding provided_address
  node_addresses_by_provider_id provider_id =
      from_override override_addresses (by_provider_id provider_id) do
        instance ← compute_instance_by_provider_id p provider_id
        provided ← provided_address instance.name (has_private_network instance)
        pure (addresses_of instance provided)

  -- `NodeAddresses`
  unfoldable pub node_addresses : String → Action W (List NodeAddress)
  unfolding instance_id node_addresses_by_provider_id
  node_addresses node_name =
      from_override override_addresses (by_name node_name)
        (instance_id node_name >>= λ id. node_addresses_by_provider_id id)

  -- `InstanceTypeByProviderID`
  unfoldable pub instance_type_by_provider_id : String → Action W String
  unfolding override_type
  instance_type_by_provider_id provider_id =
      from_override override_type (by_provider_id provider_id) do
        instance ← compute_instance_by_provider_id p provider_id
        type_id ← deref instance.instance_type
        type ← p.client.get_instance_type type_id
        pure (remove_invalid (get_instance_type_name type.family type.size))

  -- `InstanceType`
  unfoldable pub instance_type : String → Action W String
  unfolding instance_id instance_type_by_provider_id
  instance_type node_name =
      from_override override_type (by_name node_name)
        (instance_id node_name >>= λ id. instance_type_by_provider_id id)

  abbrev is_external : Option Override → Bool
  is_external o = elim o [ none ↦ false | some c ↦ c.external ]

  -- `InstanceExistsByProviderID`
  unfoldable pub instance_exists_by_provider_id : String → Action W Bool
  instance_exists_by_provider_id provider_id =
      if is_external (by_provider_id provider_id)
      then pure true
      else if p.instances.external_only
      then pure false
      else (attempt (compute_instance_by_provider_id p provider_id) >>= λ found. elim found [
        | ok _ ↦ pure true
        | err e ↦ if is_not_found e then pure false else fail e
      ])

  -- `InstanceShutdownByProviderID`
  unfoldable pub instance_shutdown_by_provider_id : String → Action W Bool
  instance_shutdown_by_provider_id provider_id =
      if is_external (by_provider_id provider_id)
      then fail not_implemented
      else if p.instances.external_only
      then fail api_disabled
      else (compute_instance_by_provider_id p provider_id >>= λ instance.
          pure (is_stopped instance.state))

  -- `AddSSHKeyToAllInstances`
  pub add_ssh_key_to_all_instances : Action W (Unit {0})
  add_ssh_key_to_all_instances = fail not_implemented

  -- `CurrentNodeName`
  pub current_node_name : String → Action W String
  current_node_name hostname = pure hostname

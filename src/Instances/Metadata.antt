-- ===== src/Instances/Metadata.antt =====
-- Where the two interfaces for instances report the same (exoscale/instances.go, lines 67-154 and
-- 215-243, and exoscale/instances_v2.go, lines 70-152 and 178-230).
use exoscale_cloud_controlle.Base.{
  String, ◌<>◌, ◌≡◌, refl, ◌∙◌, ap, ◌≢◌, Bool, true, false, Option, none, some, ◌==◌, string_eq,
  if◌then◌else◌, ok, arith, bind-eq, deref, Action, fail,
}
use exoscale_cloud_controlle.Cloud.Exoscale.{Instance, InstanceType}
use exoscale_cloud_controlle.Cloud.Kubernetes.{Node}
use exoscale_cloud_controlle.Instances.Addresses.{
  has_private_network, provided_ip, node_addresses_from_instance,
}
use exoscale_cloud_controlle.Instances.Config.{
  Override, get_instance_override, get_instance_override_by_provider_id, provider_prefix,
}
use exoscale_cloud_controlle.Instances.Labels.{remove_invalid, get_instance_type_name}
use exoscale_cloud_controlle.Instances.Legacy.{
  from_override, override_addresses, override_type, provided_address, node_addresses_by_provider_id,
  instance_type_by_provider_id,
}
use exoscale_cloud_controlle.Instances.Provider.{
  api_disabled, Provider, compute_instance_by_provider_id, node_of_instance, node_or_nil,
}
use exoscale_cloud_controlle.Instances.V2.{
  InstanceMetadata, empty_metadata, node_instance_override, compute_instance_by_node,
  type_of_instance, api_metadata, instance_metadata,
}

module _ {W : Type 0} (p : Provider W) where
  instance_of-node :
      (node : Node) (instance : Instance) (w : W)
      → node.provider_id ≢ ""
      → compute_instance_by_provider_id p node.provider_id w ≡ (ok instance, w)
      → compute_instance_by_node p node w ≡ (ok instance, w)
  unfolding compute_instance_by_node
  instance_of-node node instance w given h = ground arith

  unnamed :
      (node : Node)
      → get_instance_override_by_provider_id p.matching p.instances node.provider_id ≡ none
      → get_instance_override p.matching p.instances node.name ≡ none
      → node_instance_override p node ≡ none
  unfolding node_instance_override
  unnamed node by_id by_name = ground arith

  type-known :
      (instance : Instance) (t : String) (type : InstanceType) (w : W)
      → instance.instance_type ≡ some t
      → p.client.get_instance_type t w ≡ (ok type, w)
      → type_of_instance p "" instance w
        ≡ (ok (remove_invalid (get_instance_type_name type.family type.size)), w)
  unfolding type_of_instance
  type-known instance t type w typed told =
      let empty : ◌==◌ {A = String} "" "" ≡ true = ground arith in
      rw empty (
        bind-eq (deref instance.instance_type) _ w t w (rw typed refl)
        ∙ bind-eq (p.client.get_instance_type t) _ w type w told)

  node_of_instance-known :
      (name : String) (node : Node) (w : W)
      → p.kube.get_node name w ≡ (record { value = some node; error = none }, w)
      → node_of_instance p name w ≡ (ok (some node), w)
  unfolding node_of_instance
  node_of_instance-known name node w known =
      bind-eq (node_or_nil p name) _ w (some node) w (rw known refl)

  provided_address-known :
      (name : String) (private : Bool) (node : Node) (w : W)
      → p.kube.get_node name w ≡ (record { value = some node; error = none }, w)
      → provided_address p name private w ≡ (ok (if private then provided_ip node else none), w)
  unfolding provided_address
  provided_address-known name false node w known = refl
  provided_address-known name true node w known =
      bind-eq (node_of_instance p name) _ w (some node) w (node_of_instance-known name node w known)

  -- Without an override, and with the API enabled, the API answers.
  from_override-none :
      {A : Type 0} (answer : Override → Option A) (o : Option Override) (api : Action W A) (w : W)
      → o ≡ none
      → p.instances.external_only ≡ false
      → from_override p answer o api w ≡ api w
  from_override-none {A} answer o api w e enabled =
      ap (λ x. from_override p answer x api w) e
      ∙ ap (λ b. (if◌then◌else◌ {A = Action W A} b (fail api_disabled) api) w) enabled

  instance_metadata-none :
      (node : Node) (w : W)
      → node_instance_override p node ≡ none
      → p.instances.external_only ≡ false
      → instance_metadata p node w ≡ api_metadata p node (empty_metadata p) w
  unfolding instance_metadata
  instance_metadata-none node w e enabled =
      rw (instance_metadata, e)
        (ap
          (λ b.
            (if◌then◌else◌ {A = Action W InstanceMetadata} b (fail api_disabled)
                (api_metadata p node (empty_metadata p)))
              w)
          enabled)

  api_metadata-known :
      (node : Node) (instance : Instance) (type : String) (w : W)
      → compute_instance_by_node p node w ≡ (ok instance, w)
      → type_of_instance p "" instance w ≡ (ok type, w)
      → api_metadata p node (empty_metadata p) w ≡ (
        ok (record {
          provider_id = provider_prefix <> instance.id;
          instance_type = type;
          node_addresses = node_addresses_from_instance node instance;
          zone = p.zone;
          region = p.zone;
        }),
        w,
      )
  unfolding api_metadata
  api_metadata-known node instance type w found known =
      bind-eq (compute_instance_by_node p node) _ w instance w found
      ∙ bind-eq (type_of_instance p "" instance) _ w type w known

  -- Where no override is for the node and the API knows its instance, the type of it and the node, and
  -- answers without a change, `InstanceMetadata` succeeds, and the older interface reports the same
  -- addresses and the same type for the node's provider ID.
  pub metadata_agrees :
      (node : Node) (instance : Instance) (t : String) (type : InstanceType) (w : W)
      → node.provider_id ≢ ""
      → get_instance_override_by_provider_id p.matching p.instances node.provider_id ≡ none
      → get_instance_override p.matching p.instances node.name ≡ none
      → p.instances.external_only ≡ false
      → compute_instance_by_provider_id p node.provider_id w ≡ (ok instance, w)
      → instance.instance_type ≡ some t
      → p.client.get_instance_type t w ≡ (ok type, w)
      → p.kube.get_node instance.name w ≡ (record { value = some node; error = none }, w)
      → (meta : InstanceMetadata) × (instance_metadata p node w ≡ (ok meta, w))
        × (node_addresses_by_provider_id p node.provider_id w ≡ (ok meta.node_addresses, w))
        × (instance_type_by_provider_id p node.provider_id w ≡ (ok meta.instance_type, w))
  unfolding node_addresses_by_provider_id instance_type_by_provider_id node_addresses_from_instance
  metadata_agrees node instance t type w given by_id by_name enabled found typed told known =
      let named = remove_invalid (get_instance_type_name type.family type.size) in
      (
        record {
          provider_id = provider_prefix <> instance.id;
          instance_type = named;
          node_addresses = node_addresses_from_instance node instance;
          zone = p.zone;
          region = p.zone;
        },
        instance_metadata-none node w (unnamed node by_id by_name) enabled
            ∙ api_metadata-known node instance named w
                (instance_of-node node instance w given found)
                (type-known instance t type w typed told),
        from_override-none (override_addresses p) _ _ w by_id enabled
            ∙ bind-eq (compute_instance_by_provider_id p node.provider_id) _ w instance w found
            ∙ bind-eq (provided_address p instance.name (has_private_network instance)) _ w _ w
                (provided_address-known instance.name (has_private_network instance) node w known),
        from_override-none (override_type p) _ _ w by_id enabled
            ∙ bind-eq (compute_instance_by_provider_id p node.provider_id) _ w instance w found
            ∙ bind-eq (deref instance.instance_type) _ w t w (rw typed refl)
            ∙ bind-eq (p.client.get_instance_type t) _ w type w told,
      )

-- ===== src/Instances/Agreement.antt =====
-- The two interfaces for a node's instance (exoscale/instances.go and exoscale/instances_v2.go) side by
-- side, and the provider ID of an instance.
use exoscale_cloud_controlle.Base.{
  String, ◌<>◌, ◌≡◌, refl, sym, ◌≢◌, ap, false, none, some, ok, arith, ◌==◌, string_eq, ◌∙◌,
}
use exoscale_cloud_controlle.Base.Text.{trim_prefix-append, strip_prefix, strip_prefix-append}
use exoscale_cloud_controlle.Cloud.Kubernetes.{Node}
use exoscale_cloud_controlle.Instances.Config.{
  get_instance_override, get_instance_override_by_provider_id, provider_prefix,
}
use exoscale_cloud_controlle.Instances.Provider.{
  Provider, format_provider_id, compute_instance_by_provider_id,
}
use exoscale_cloud_controlle.Instances.Legacy.{
  instance_exists_by_provider_id, instance_shutdown_by_provider_id,
}
use exoscale_cloud_controlle.Instances.V2.{
  node_instance_override, compute_instance_by_node, instance_exists, instance_shutdown,
}

prefixed_differs : (id : String) → provider_prefix <> id ≢ ""
unfolding strip_prefix
prefixed_differs id e =
    let f : none ≡ some id =
      ap (strip_prefix provider_prefix) (sym e) ∙ strip_prefix-append provider_prefix id in
    cc

prefixed-nonempty : (id : String) → (provider_prefix <> id == "") ≡ false
prefixed-nonempty id = let filled = prefixed_differs id in ground arith

-- The ID of an instance with the provider's prefix is read back as the ID.
format_provider_id-prefix : (id : String) → format_provider_id (provider_prefix <> id) ≡ ok id
unfolding format_provider_id
format_provider_id-prefix id = rw (prefixed-nonempty id, trim_prefix-append provider_prefix id) refl

module _ {W : Type 0} (p : Provider W) where
  override_of :
      (node : Node)
      → node.provider_id ≢ ""
      → get_instance_override p.matching p.instances node.name ≡ none
      → node_instance_override p node
        ≡ get_instance_override_by_provider_id p.matching p.instances node.provider_id
  unfolding node_instance_override
  override_of node given unnamed = ground arith

  instance_of :
      (node : Node)
      → node.provider_id ≢ ""
      → compute_instance_by_node p node ≡ compute_instance_by_provider_id p node.provider_id
  unfolding compute_instance_by_node
  instance_of node given = ground arith

  -- For a node with a provider ID, whose name no override has, the two interfaces agree on whether its
  -- instance exists and on whether it is shut down, errors included.
  pub v2_agrees :
      (node : Node)
      → node.provider_id ≢ ""
      → get_instance_override p.matching p.instances node.name ≡ none
      → (instance_exists p node ≡ instance_exists_by_provider_id p node.provider_id)
        × (instance_shutdown p node ≡ instance_shutdown_by_provider_id p node.provider_id)
  unfolding instance_exists instance_shutdown instance_exists_by_provider_id
      instance_shutdown_by_provider_id
  v2_agrees node given unnamed =
      rw (override_of node given unnamed, instance_of node given) (refl, refl)

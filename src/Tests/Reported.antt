-- ===== src/Tests/Reported.antt =====
-- A node that both interfaces for instances report.
use exoscale_cloud_controlle.Base.{
  ◌≡◌, ◌≢◌, refl, ap, true, false, [], string_eq, ok, ◌>>=◌, some, none,
}
use exoscale_cloud_controlle.Base.Text.{is_empty, strip_prefix, trim_prefix}
use exoscale_cloud_controlle.Cloud.Exoscale.{LoadBalancer}
use exoscale_cloud_controlle.Cloud.Kubernetes.{Node}
use exoscale_cloud_controlle.Instances.Addresses.{addresses_of}
use exoscale_cloud_controlle.Instances.Config.{
  get_instance_override, get_instance_override_by_provider_id,
}
use exoscale_cloud_controlle.Instances.Provider.{
  Provider, format_provider_id, compute_instance_by_provider_id,
}
use exoscale_cloud_controlle.Instances.Legacy.{
  node_addresses_by_provider_id, instance_type_by_provider_id,
}
use exoscale_cloud_controlle.Instances.Metadata.{metadata_agrees}
use exoscale_cloud_controlle.Instances.Reported.{Reports, addresses_of-Reports}
use exoscale_cloud_controlle.Instances.V2.{InstanceMetadata, instance_metadata}
use exoscale_cloud_controlle.Tests.Nodes.{provider}
use exoscale_cloud_controlle.Tests.World.{account, account_nlb, account_instance, node_object, kube}

abbrev known_node : Node
known_node = record node_object { provider_id = "exoscale://vm-1" }

-- No overrides, and a cluster that knows the node.
abbrev plain : Provider LoadBalancer
plain = record provider {
  instances = record { disabled = false; overrides = []; external_only = false };
  kube = record kube { get_node = λ name w. (record { value = some known_node; error = none }, w) };
}

known_given : known_node.provider_id ≢ ""
known_given e = let f : false ≡ true = ap is_empty e in cc

known_found :
    compute_instance_by_provider_id plain "exoscale://vm-1" account_nlb
    ≡ (ok account_instance, account_nlb)
unfolding compute_instance_by_provider_id format_provider_id ◌>>=◌ string_eq account trim_prefix
    strip_prefix
known_found = refl

plain-by_id :
    get_instance_override_by_provider_id plain.matching plain.instances "exoscale://vm-1" ≡ none
unfolding get_instance_override_by_provider_id
plain-by_id = refl

plain-by_name : get_instance_override plain.matching plain.instances known_node.name ≡ none
unfolding get_instance_override
plain-by_name = refl

plain-told :
    plain.client.get_instance_type "t-1" account_nlb
    ≡ (ok (record { family = "standard"; size = "tiny" }), account_nlb)
unfolding account
plain-told = refl

metadata_agrees_example :
    (meta : InstanceMetadata) × (instance_metadata plain known_node account_nlb
      ≡ (ok meta, account_nlb))
    × (node_addresses_by_provider_id plain known_node.provider_id account_nlb
        ≡ (ok meta.node_addresses, account_nlb))
    × (instance_type_by_provider_id plain known_node.provider_id account_nlb
        ≡ (ok meta.instance_type, account_nlb))
metadata_agrees_example =
    metadata_agrees plain known_node account_instance "t-1"
      (record { family = "standard"; size = "tiny" }) account_nlb known_given plain-by_id
      plain-by_name refl known_found refl plain-told refl

addresses_of-Reports_example :
    Reports account_instance (some "10.0.0.1") (addresses_of account_instance (some "10.0.0.1"))
addresses_of-Reports_example = addresses_of-Reports account_instance (some "10.0.0.1")

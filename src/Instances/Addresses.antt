-- ===== src/Instances/Addresses.antt =====
-- The addresses of a node (exoscale/instances.go, lines 100-153, and exoscale/instances_v2.go,
-- lines 178-230, which build the same list from a node that is found in different ways).
use exoscale_cloud_controlle.Base.{
  String, Bool, true, false, not, Option, none, some, List, [], ◌∷◌, ◌++◌, ◌==◌, string_eq,
  if◌then◌else◌,
}
use exoscale_cloud_controlle.Base.Dict.{lookup}
use exoscale_cloud_controlle.Cloud.Exoscale.{Instance}
use exoscale_cloud_controlle.Cloud.Kubernetes.{Node, NodeAddress}

-- `cloudproviderapi.AnnotationAlphaProvidedIPAddr`
abbrev pub annotation_provided_ip : String
annotation_provided_ip = "alpha.kubernetes.io/provided-node-ip"

abbrev pub host_name : String → NodeAddress
host_name a = record { type = "Hostname"; address = a }

abbrev pub internal_ip : String → NodeAddress
internal_ip a = record { type = "InternalIP"; address = a }

abbrev pub external_ip : String → NodeAddress
external_ip a = record { type = "ExternalIP"; address = a }

-- The kubelet's address in a node's annotations.
unfoldable pub provided_ip : Node → Option String
unfolding lookup
provided_ip node = lookup annotation_provided_ip node.annotations

-- A public address, which is the internal one too where no internal one was found.
abbrev pub append_public : Bool → String → List NodeAddress → List NodeAddress
append_public found_internal a addresses =
    let with_external = addresses ++ (external_ip a ∷ []) in
    if not found_internal then with_external ++ (internal_ip a ∷ []) else with_external

-- The list from the instance and the address that the node provides, if it was looked for and found.
unfoldable pub addresses_of : Instance → Option String → List NodeAddress
addresses_of instance provided =
    let found_internal : Bool = elim provided [ none ↦ false | some _ ↦ true ] in
    let named : List NodeAddress = host_name instance.name ∷ [] in
    let internal : List NodeAddress = elim provided [
      | none ↦ named
      | some a ↦ named ++ (internal_ip a ∷ [])
    ] in
    let v4 : List NodeAddress = elim instance.public_ip [
      | none ↦ internal
      | some a ↦ append_public found_internal a internal
    ] in
    if not (instance.ipv6_address == "")
    then append_public found_internal instance.ipv6_address v4
    else v4

-- `len(instance.PrivateNetworks) > 0`
abbrev pub has_private_network : Instance → Bool
has_private_network instance = elim instance.private_networks [ [] ↦ false | _ ∷ _ ↦ true ]

-- `nodeAddressesFromInstance`
unfoldable pub node_addresses_from_instance : Node → Instance → List NodeAddress
unfolding addresses_of provided_ip
node_addresses_from_instance node instance =
    addresses_of instance (if has_private_network instance then provided_ip node else none)

-- ===== src/Instances/Provider.antt =====
-- The `cloudProvider` that the controllers share, and the look-up of an instance (exoscale/common.go).
use exoscale_cloud_controlle.Base.{
  String, Option, none, some, [], ◌∷◌, ◌==◌, string_eq, if◌then◌else◌, Result, ok, err, Action,
  Error, errorf, hidef, nil_dereference, ◌>>=◌, lift, pure,
}
use exoscale_cloud_controlle.Base.Text.{trim_prefix, to_lower}
use exoscale_cloud_controlle.Cloud.Exoscale.{Client, Instance}
use exoscale_cloud_controlle.Cloud.Kubernetes.{Kube, Node}
use exoscale_cloud_controlle.Instances.Config.{InstancesConfig, Matching, provider_prefix}

-- `cloudProvider`, after `Initialize`.
pub record Provider (W : Type 0) : Type 0 where
  pub client : Client W
  pub kube : Kube W
  pub matching : Matching
  pub instances : InstancesConfig
  pub zone : String

-- `formatProviderID`
unfoldable pub format_provider_id : String → Result String
format_provider_id provider_id =
    if provider_id == ""
    then err (errorf "provider ID cannot be empty" [])
    else ok (trim_prefix provider_id provider_prefix)

abbrev pub api_disabled : Error
api_disabled = errorf "no override found (Exoscale API disabled)" []

module _ {W : Type 0} (p : Provider W) where
  -- `computeInstanceByProviderID`
  unfoldable pub compute_instance_by_provider_id : String → Action W Instance
  unfolding format_provider_id
  compute_instance_by_provider_id provider_id = do
    id ← lift (format_provider_id provider_id)
    p.client.get_instance id

  -- A node that the caller needs: the error goes before the value.
  unfoldable pub get_node : String → Action W Node
  get_node name w =
      let (answer, w') = p.kube.get_node name w in
      elim answer.error [
        | some e ↦
            (err (hidef "failed to retrieve node %s from the apiserver: %s" (name ∷ []) e), w')
        | none ↦ elim answer.value [ none ↦ (err nil_dereference, w') | some n ↦ (ok n, w') ]
      ]

  -- `node, _ := …Get(…)`
  abbrev pub node_or_nil : String → Action W (Option Node)
  node_or_nil name w = let (answer, w') = p.kube.get_node name w in (ok answer.value, w')

  -- The look-up of an instance's node: by its name, and in lower case if that gave a nil pointer.
  unfoldable pub node_of_instance : String → Action W (Option Node)
  unfolding to_lower
  node_of_instance name = do
    node ← node_or_nil name
    elim node [ some n ↦ pure (some n) | none ↦ node_or_nil (to_lower name) ]

-- ===== src/Instances/Config.antt =====
-- The static overrides of the cloud-config file (exoscale/instances_config.go). Regular expressions
-- and SHA-256 are a parameter.
use exoscale_cloud_controlle.Base.{
  String, ◌<>◌, Bool, false, not, ◌&&◌, Option, none, some, List, ◌==◌, string_eq, if◌then◌else◌,
  find,
}
use exoscale_cloud_controlle.Base.Text.{has_prefix, has_suffix, trim, trim_prefix}
use exoscale_cloud_controlle.Cloud.Kubernetes.{NodeAddress}

-- `instancesOverrideConfig`; an address of the file has the fields of a node's address.
pub record Override : Type 0 where
  pub name : String
  pub external : Bool
  pub external_id : String
  pub type : String
  pub addresses : List NodeAddress
  pub region : String

-- `instancesConfig`
pub record InstancesConfig : Type 0 where
  pub disabled : Bool
  pub overrides : List Override
  pub external_only : Bool

pub record Matching : Type 0 where
  -- `regexp.Match` of a pattern and a text; `none` is a pattern that does not compile
  pub regexp_match : String → String → Option Bool
  -- `%x` of `sha256.Sum256`
  pub sha256_hex : String → String

abbrev pub provider_prefix : String
provider_prefix = "exoscale://"

module _ (m : Matching) where
  -- `defaultInstanceOverrideExternalID`
  unfoldable pub default_external_id : String → String
  default_external_id name = "external-" <> m.sha256_hex name

  -- The tests of the four loops.
  abbrev pub is_named : String → Override → Bool
  is_named node_name c = not (c.name == "") && node_name == c.name

  unfoldable pub is_pattern : Override → Bool
  unfolding has_prefix has_suffix
  is_pattern c = has_prefix c.name "/" && has_suffix c.name "/"

  unfoldable pub matches_pattern : String → Override → Bool
  unfolding is_pattern trim
  matches_pattern node_name c =
      if is_pattern c
      then elim (m.regexp_match (trim c.name b'/') node_name) [ none ↦ false | some r ↦ r ]
      else false

  abbrev pub has_external_id : String → Override → Bool
  has_external_id id c = not (c.external_id == "") && id == c.external_id

  unfoldable pub has_default_id : String → Override → Bool
  has_default_id id c = c.external_id == "" && id == default_external_id c.name

  -- `getInstanceOverride`: an exact name goes before a pattern.
  unfoldable pub get_instance_override : InstancesConfig → String → Option Override
  unfolding matches_pattern
  get_instance_override cfg node_name = elim (find (is_named node_name) cfg.overrides) [
    | some c ↦ some c
    | none ↦ find (matches_pattern node_name) cfg.overrides
  ]

  -- `getInstanceOverrideByProviderID`: an ID of the file goes before one made from a name.
  unfoldable pub get_instance_override_by_provider_id : InstancesConfig → String → Option Override
  get_instance_override_by_provider_id cfg provider_id =
      let id = trim_prefix provider_id provider_prefix in
      elim (find (has_external_id id) cfg.overrides) [
        | some c ↦ some c
        | none ↦ find (has_default_id id) cfg.overrides
      ]

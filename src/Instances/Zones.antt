-- ===== src/Instances/Zones.antt =====
-- The `Zones` interface (exoscale/zones.go). The instance's own metadata, from the CD-ROM and from the
-- metadata server, is a parameter.
use exoscale_cloud_controlle.Base.{
  String, not, Option, none, some, [], ◌==◌, string_eq, if◌then◌else◌, Result, ok, err, Action,
  Error, errorf, wrapf, ◌>>=◌, pure, fail,
}
use exoscale_cloud_controlle.Instances.Config.{
  Override, get_instance_override, get_instance_override_by_provider_id,
}
use exoscale_cloud_controlle.Instances.Provider.{Provider, get_node}

-- `metadata.FromCdRom` and `metadata.Get` of the availability zone.
pub record ZoneMetadata : Type 0 where
  pub from_cdrom : Result String
  pub from_server : Result String

-- `GetZone`; a `cloudprovider.Zone` of this program is its region.
unfoldable pub get_zone : ZoneMetadata → Result String
get_zone m = elim m.from_cdrom [
  | ok zone ↦ ok zone
  | err _ ↦ elim m.from_server [ ok zone ↦ ok zone | err e ↦ err (wrapf "get metadata: %w" e) ]
]

abbrev pub zones_disabled : Error
zones_disabled = errorf "no instance override found (Exoscale API disabled)" []

-- The region of an override for an external node.
unfoldable pub override_region : Override → Option String
unfolding string_eq
override_region o =
    if o.external then some (if not (o.region == "") then o.region else "external") else none

module _ {W : Type 0} (p : Provider W) where
  -- `GetZoneByProviderID`
  unfoldable pub get_zone_by_provider_id : String → Action W String
  unfolding override_region
  get_zone_by_provider_id provider_id =
      let rest : Action W String =
        if p.instances.external_only then fail zones_disabled else pure p.zone in
      elim (get_instance_override_by_provider_id p.matching p.instances provider_id) [
        | none ↦ rest
        | some o ↦ elim (override_region o) [ some r ↦ pure r | none ↦ rest ]
      ]

  -- `GetZoneByNodeName`
  unfoldable pub get_zone_by_node_name : String → Action W String
  unfolding override_region get_zone_by_provider_id
  get_zone_by_node_name node_name =
      let rest : Action W String =
        if p.instances.external_only
        then fail zones_disabled
        else (get_node p node_name >>= λ node. get_zone_by_provider_id node.system_uuid) in
      elim (get_instance_override p.matching p.instances node_name) [
        | none ↦ rest
        | some o ↦ elim (override_region o) [ some r ↦ pure r | none ↦ rest ]
      ]

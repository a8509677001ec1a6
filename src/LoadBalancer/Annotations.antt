-- ===== src/LoadBalancer/Annotations.antt =====
-- The annotations of a Service (exoscale/loadbalancer.go, lines 19-59 and 601-615 and 759-770), and the
-- patch that makes a new annotation last (exoscale/patcher.go).
pub mod Patch
use exoscale_cloud_controlle.Base.{
  String, ◌<>◌, ◌≡◌, refl, Bool, true, false, ◌&&◌, ◌||◌, Option, none, some, List, [], ◌∷◌, ◌==◌,
  string_eq, if◌then◌else◌, Result, ok, err, Action, Error, errorf, wrapf, hidef, ◌>>=◌, ◌>>◌, gets,
  lift, done, map_error, when, not, Eq,
}
use exoscale_cloud_controlle.Base.Dict.{lookup, insert}
use exoscale_cloud_controlle.Base.Text.{to_lower}
use exoscale_cloud_controlle.Cloud.Kubernetes.{Service, Kube}
use exoscale_cloud_controlle.LoadBalancer.Session.{Session, call, send, patch_service}

abbrev pub annotation_prefix : String
annotation_prefix = "service.beta.kubernetes.io/exoscale-loadbalancer-"

abbrev pub annotation_id : String
annotation_id = annotation_prefix <> "id"

abbrev pub annotation_name : String
annotation_name = annotation_prefix <> "name"

abbrev pub annotation_description : String
annotation_description = annotation_prefix <> "description"

abbrev pub annotation_external : String
annotation_external = annotation_prefix <> "external"

abbrev pub annotation_service_strategy : String
annotation_service_strategy = annotation_prefix <> "service-strategy"

abbrev pub annotation_service_name : String
annotation_service_name = annotation_prefix <> "service-name"

abbrev pub annotation_service_description : String
annotation_service_description = annotation_prefix <> "service-description"

abbrev pub annotation_service_instance_pool_id : String
annotation_service_instance_pool_id = annotation_prefix <> "service-instancepool-id"

abbrev pub annotation_sks_cluster_name : String
annotation_sks_cluster_name = annotation_prefix <> "sks-cluster-name"

abbrev pub annotation_service_sks_node_pool_name : String
annotation_service_sks_node_pool_name = annotation_prefix <> "service-sks-nodepool-name"

abbrev pub annotation_health_check_mode : String
annotation_health_check_mode = annotation_prefix <> "service-healthcheck-mode"

abbrev pub annotation_health_check_port : String
annotation_health_check_port = annotation_prefix <> "service-healthcheck-port"

abbrev pub annotation_health_check_uri : String
annotation_health_check_uri = annotation_prefix <> "service-healthcheck-uri"

abbrev pub annotation_health_check_interval : String
annotation_health_check_interval = annotation_prefix <> "service-healthcheck-interval"

abbrev pub annotation_health_check_timeout : String
annotation_health_check_timeout = annotation_prefix <> "service-healthcheck-timeout"

abbrev pub annotation_health_check_retries : String
annotation_health_check_retries = annotation_prefix <> "service-healthcheck-retries"

-- `getAnnotation`. An empty default is the empty text, as the source's last two returns say.
unfoldable pub get_annotation : Service → String → String → String
unfolding lookup
get_annotation service annotation default_value = elim (lookup annotation service.annotations) [
  | some v ↦ v
  | none ↦ if not (default_value == "") then default_value else ""
]

-- `isExternal`
unfoldable pub is_external : Service → Bool
unfolding get_annotation to_lower
is_external service = to_lower (get_annotation service annotation_external "false") == "true"

-- `GetLoadBalancerName`
unfoldable pub get_load_balancer_name : Service → String
unfolding get_annotation
get_load_balancer_name service = get_annotation service annotation_name ("k8s-" <> service.uid)

-- `service.Annotations[k] = v`
unfoldable pub set_annotation : {W : Type 0} → String → String → Action (Session W) (Unit {0})
unfolding insert
set_annotation k v s = (
  ok tt,
  record s { service = record (s.service) { annotations = insert k v s.service.annotations } },
)

-- `cur, ok := service.Annotations[k]; ok && cur == v`
unfoldable pub has_annotation : String → String → Service → Bool
unfolding lookup
has_annotation k v service = elim (lookup k service.annotations) [
  | some cur ↦ cur == v
  | none ↦ false
]

module _ {W : Type 0} (kube : Kube W) where
  -- `kubeServicePatcher.Patch`: `current` is the copy that `newServicePatcher` took; the modified
  -- object is the one that the session holds by now.
  unfoldable pub patch : Service → Action (Session W) (Unit {0})
  patch current = do
    current_json ←
        map_error (hidef "failed to serialize current original object: %s" [])
          (lift (kube.marshal current))
    modified ← gets (λ s. s.service)
    modified_json ←
        map_error (hidef "failed to serialize modified updated object: %s" [])
          (lift (kube.marshal modified))
    p ←
        map_error (hidef "failed to create 2-way merge patch: %s" [])
          (lift (kube.two_way_merge_patch current_json modified_json))
    when (not (p == "" || p == "{}")) (
        map_error
          (hidef "failed to patch service object %s/%s: %s" (current.namespace ∷ current.name ∷ []))
          (send (patch_service current.namespace current.name p)
            (kube.patch_service current.namespace current.name p)))

  -- `patchAnnotation`
  unfoldable pub patch_annotation : String → String → Action (Session W) (Unit {0})
  patch_annotation k v = do
    current ← gets (λ s. s.service)
    when (not (has_annotation k v current)) (set_annotation k v >> patch current)

-- ===== src/LoadBalancer/Build.antt =====
-- `buildLoadBalancerFromAnnotations` and the two tests for changes
-- (exoscale/loadbalancer.go, lines 39-45 and 772-911).
pub mod Keys
pub mod Names
pub mod Checks
pub mod Adopted
use exoscale_cloud_controlle.Base.{
  ℕ, String, ◌<>◌, ◌≡◌, refl, Bool, true, false, not, ◌&&◌, ◌||◌, Option, none, some, List, [], ◌∷◌,
  ◌++◌, ◌==◌, string_eq, Eq, if◌then◌else◌, Result, ok, err, Error, errorf, hidef, ℤ, pos, is_pos,
  uint16, int_eq, ite, String-discrete, ℤ-discrete, length, nat_eq,
}
use exoscale_cloud_controlle.Base.Text.{to_lower}
use exoscale_cloud_controlle.Base.Decimal.{atoi, show_int}
use exoscale_cloud_controlle.Base.Duration.{parse_duration, whole_seconds}
use exoscale_cloud_controlle.Cloud.Exoscale.{
  InstancePool, Healthcheck, LoadBalancerService, LoadBalancer,
}
use exoscale_cloud_controlle.Cloud.Kubernetes.{Service, ServicePort}
use exoscale_cloud_controlle.LoadBalancer.Annotations.{
  get_annotation, annotation_id, annotation_name, annotation_description,
  annotation_service_strategy, annotation_service_name, annotation_service_description,
  annotation_service_instance_pool_id, annotation_health_check_mode, annotation_health_check_port,
  annotation_health_check_uri, annotation_health_check_interval, annotation_health_check_timeout,
  annotation_health_check_retries,
}

abbrev pub default_timeout : String
default_timeout = "5s"

abbrev pub default_interval : String
default_interval = "10s"

abbrev pub default_mode : String
default_mode = "tcp"

abbrev pub default_retries : ℤ
default_retries = pos 1

abbrev pub default_strategy : String
default_strategy = "round-robin"

-- The healthcheck settings that all ports of a Service share.
pub record HealthcheckDefaults : Type 0 where
  pub interval : ℤ
  pub timeout : ℤ
  pub retries : ℤ

infixl 5 ◌>>=◌
abbrev pub ◌>>=◌ : {A B : Type 0} → Result A → (A → Result B) → Result B
ok a >>= f = f a
err e >>= f = err e

abbrev pub or_err {ℓ} : {A : Type 0} {B : Type ℓ} → (B → A) → Option B → Error → Result A
or_err f none e = err e
or_err f (some b) e = ok (f b)

unfoldable duration_annotation : Service → String → String → Result ℤ
unfolding get_annotation parse_duration whole_seconds
duration_annotation service annotation default_value =
    let text = get_annotation service annotation default_value in
    or_err whole_seconds (parse_duration text) (errorf "time: invalid duration %q" (text ∷ []))

unfoldable retries_annotation : Service → Result ℤ
unfolding get_annotation atoi show_int
retries_annotation service =
    let text = get_annotation service annotation_health_check_retries (show_int default_retries) in
    or_err (λ n. n) (atoi text) (errorf "strconv.Atoi: parsing %q" (text ∷ []))

unfoldable healthcheck_defaults : Service → Result HealthcheckDefaults
unfolding duration_annotation retries_annotation
healthcheck_defaults service = do
  interval ← duration_annotation service annotation_health_check_interval default_interval
  timeout ← duration_annotation service annotation_health_check_timeout default_timeout
  retries ← retries_annotation service
  ok (record { interval = interval; timeout = timeout; retries = retries })

-- The healthcheck port where no annotation sets it: the `Local` traffic policy has its own.
unfoldable default_healthcheck_port : Service → ServicePort → ℕ
default_healthcheck_port service service_port =
    if service.external_traffic_policy == "Local" && is_pos service.health_check_node_port
    then uint16 service.health_check_node_port
    else uint16 service_port.node_port

unfoldable healthcheck_port : Service → ServicePort → Result ℕ
unfolding get_annotation atoi default_healthcheck_port
healthcheck_port service service_port =
    let text = get_annotation service annotation_health_check_port "" in
    if not (text == "")
    then or_err uint16 (atoi text) (
        hidef "invalid healthcheck port annotation: %s" []
          (errorf "strconv.Atoi: parsing %q" (text ∷ [])))
    else ok (default_healthcheck_port service service_port)

-- `svcName` of the source.
unfoldable pub service_name : String → ServicePort → String
service_name uid service_port =
    let name = uid <> ("-" <> show_int service_port.port) in
    if not (service_port.protocol == "TCP")
    then name <> ("-" <> to_lower service_port.protocol)
    else name

-- The round of the loop for one port, once the port's guards have passed.
unfoldable service_of_port : Service → HealthcheckDefaults → ServicePort → ℕ → LoadBalancerService
unfolding service_name show_int get_annotation nat_eq to_lower
service_of_port service defaults service_port hc_port =
    let name = service_name service.uid service_port in
    let is_single = length service.ports == 1 in
    record {
      id = "";
      name = if is_single then get_annotation service annotation_service_name name else name;
      description =
          if is_single then get_annotation service annotation_service_description "" else "";
      instance_pool = some (record {
        id = get_annotation service annotation_service_instance_pool_id "";
        others = [];
      });
      healthcheck = some (record {
        mode = get_annotation service annotation_health_check_mode default_mode;
        port = pos hc_port;
        uri = get_annotation service annotation_health_check_uri "";
        interval = defaults.interval;
        timeout = defaults.timeout;
        retries = defaults.retries;
        tls_sni = "";
      });
      healthcheck_status = [];
      port = service_port.port;
      target_port = service_port.node_port;
      protocol = to_lower service_port.protocol;
      strategy = get_annotation service annotation_service_strategy default_strategy;
      state = "";
    }

abbrev pub unsupported_protocol : Error
unsupported_protocol = errorf "only TCP and UDP are supported as service port protocols" []

unfoldable pub is_supported : ServicePort → Bool
is_supported service_port = service_port.protocol == "TCP" || service_port.protocol == "UDP"

unfoldable build_service : Service → HealthcheckDefaults → ServicePort → Result LoadBalancerService
unfolding healthcheck_port is_supported service_of_port
build_service service defaults service_port = do
  hc_port ← healthcheck_port service service_port
  if not (is_supported service_port)
      then err unsupported_protocol
      else ok (service_of_port service defaults service_port hc_port)

unfoldable build_services :
    Service → HealthcheckDefaults → List ServicePort → Result (List LoadBalancerService)
unfolding build_service
build_services service defaults [] = ok []
build_services service defaults (p ∷ ports) = do
  svc ← build_service service defaults p
  rest ← build_services service defaults ports
  ok (svc ∷ rest)

-- `buildLoadBalancerFromAnnotations`
unfoldable pub build_load_balancer : Service → Result LoadBalancer
unfolding healthcheck_defaults build_services get_annotation
build_load_balancer service = do
  defaults ← healthcheck_defaults service
  services ← build_services service defaults service.ports
  ok (record {
    id = get_annotation service annotation_id "";
    name = get_annotation service annotation_name ("k8s-" <> service.uid);
    description = get_annotation service annotation_description "";
    ip = "<nil>";
    labels = [];
    services = services;
    state = "";
  })

-- `isLoadBalancerUpdated`
unfoldable pub is_load_balancer_updated : LoadBalancer → LoadBalancer → Bool
unfolding string_eq
is_load_balancer_updated current update =
    if not (current.name == update.name)
    then true
    else not (current.description == update.description)

unfoldable pub LoadBalancerService-discrete : Discrete LoadBalancerService
unfolding String-discrete ℤ-discrete
LoadBalancerService-discrete = hlevel (String-discrete, ℤ-discrete)

instance unfoldable pub service_eq : Eq LoadBalancerService
unfolding LoadBalancerService-discrete
service_eq = record { dec = LoadBalancerService-discrete }

-- What `cmp.Equal` is told to ignore.
abbrev pub without_status : LoadBalancerService → LoadBalancerService
without_status s = record s { state = ""; healthcheck_status = [] }

-- `isLoadBalancerServiceUpdated`
unfoldable pub is_load_balancer_service_updated : LoadBalancerService → LoadBalancerService → Bool
is_load_balancer_service_updated current update =
    not (without_status current == without_status update)

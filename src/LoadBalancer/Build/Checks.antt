-- ===== src/LoadBalancer/Build/Checks.antt =====
-- The healthcheck ports that `buildLoadBalancerFromAnnotations` asks for
-- (exoscale/loadbalancer.go, lines 807-837 and 856-866).
use exoscale_cloud_controlle.Base.{
  ℕ, String, ◌<◌, ◌%◌, ◌≡◌, refl, ap, subst, ◌≢◌, ◌↔◌, some, List, [], ◌∷◌, ◌==◌, string_eq, ok,
  Bool-cases, Option-cases, inl, inr, All, ℤ, pos, negsuc, uint16, arith, is_pos, ◌&&◌,
}
use exoscale_cloud_controlle.Base.Decimal.{atoi}
use exoscale_cloud_controlle.Cloud.Exoscale.{Healthcheck, LoadBalancerService, LoadBalancer}
use exoscale_cloud_controlle.Cloud.Kubernetes.{Service, ServicePort}
use exoscale_cloud_controlle.LoadBalancer.Annotations.{get_annotation, annotation_health_check_port}
use exoscale_cloud_controlle.LoadBalancer.Build.{
  HealthcheckDefaults, healthcheck_defaults, healthcheck_port, default_healthcheck_port,
  is_supported, service_of_port, build_service, build_services, build_load_balancer,
}
use exoscale_cloud_controlle.LoadBalancer.Build.Keys.{bind-ok, ok_inj, err_ok}

-- A number that sixteen bits hold.
abbrev pub IsPort : ℤ → Type 0
IsPort (pos n) = n < 65536
IsPort (negsuc n) = ⊥

uint16-bound : (z : ℤ) → uint16 z < 65536
uint16-bound (pos n) = omega arith
uint16-bound (negsuc n) = omega arith

uint16-IsPort : (z : ℤ) → (pos (uint16 z) ≡ z) ↔ IsPort z
uint16-IsPort (pos n) = (
  λ e. let f : n % 65536 ≡ n = cc in omega arith,
  λ h. let f : n % 65536 ≡ n = omega arith in ap pos f,
)
uint16-IsPort (negsuc n) = (λ e. cc, λ h. absurd h)

-- The text of the annotation for the healthcheck port.
abbrev pub port_text : Service → String
port_text service = get_annotation service annotation_health_check_port ""

-- What is asked of a port's number: sixteen bits hold it; and where the annotation has a number, it is
-- that number exactly if sixteen bits hold the annotation's.
abbrev pub ChecksAt : Service → ℕ → Type 0
ChecksAt service n =
    (n < 65536)
    × ((z : ℤ)
        → port_text service ≢ ""
        → atoi (port_text service) ≡ some z
        → (pos n ≡ z) ↔ IsPort z)

-- The service is checked at such a port.
abbrev pub IsChecked : Service → LoadBalancerService → Type 0
IsChecked service s =
    (h : Healthcheck) × (n : ℕ) × (s.healthcheck ≡ some h) × (h.port ≡ pos n) × ChecksAt service n

default_healthcheck_port-bound :
    (service : Service) (p : ServicePort) → default_healthcheck_port service p < 65536
unfolding default_healthcheck_port
default_healthcheck_port-bound service p =
    elim (Bool-cases
      (service.external_traffic_policy == "Local" && is_pos service.health_check_node_port)) [
        | inl e ↦ rw e (uint16-bound service.health_check_node_port)
        | inr e ↦ rw e (uint16-bound p.node_port)
      ]

healthcheck_port-ChecksAt :
    (service : Service) (p : ServicePort) (n : ℕ)
    → healthcheck_port service p ≡ ok n
    → ChecksAt service n
unfolding healthcheck_port
healthcheck_port-ChecksAt service p n h = elim (Bool-cases (port_text service == "")) [
  | inl e ↦
      let g : default_healthcheck_port service p ≡ n = ok_inj (rw e at h) in
      let empty : port_text service ≡ "" = ground arith in
      (
        subst (λ m. m < 65536) g (default_healthcheck_port-bound service p),
        λ z given _. absurd (given empty),
      )
  | inr e ↦ elim (Option-cases (atoi (port_text service))) [
    | inl f ↦ absurd (err_ok (rw (e, f) at h))
    | inr (z, f) ↦
        let g : uint16 z ≡ n = ok_inj (rw (e, f) at h) in
        (
          subst (λ m. m < 65536) g (uint16-bound z),
          λ z' _ f'.
              let same : z ≡ z' = cc in
              subst (λ m. (pos m ≡ z') ↔ IsPort z') g
                (subst (λ k. (pos (uint16 z) ≡ k) ↔ IsPort k) same (uint16-IsPort z)),
        )
  ]
]

build_service-IsChecked :
    (service : Service) (d : HealthcheckDefaults) (p : ServicePort) (s : LoadBalancerService)
    → build_service service d p ≡ ok s
    → IsChecked service s
unfolding build_service service_of_port
build_service-IsChecked service d p s h =
    let (port, e, k) = bind-ok (healthcheck_port service p) _ s h in
    elim (Bool-cases (is_supported p)) [
      | inl f ↦
          subst (IsChecked service) (ok_inj (rw f at k))
            (_, port, refl, refl, healthcheck_port-ChecksAt service p port e)
      | inr f ↦ absurd (err_ok (rw f at k))
    ]

build_services-IsChecked :
    (service : Service) (d : HealthcheckDefaults) (ports : List ServicePort)
    (services : List LoadBalancerService)
    → build_services service d ports ≡ ok services
    → All (IsChecked service) services
unfolding build_services
build_services-IsChecked service d [] services h = subst (All (IsChecked service)) (ok_inj h) tt
build_services-IsChecked service d (p ∷ ports) services h =
    let (s, e, k) = bind-ok (build_service service d p) _ services h in
    let (rest, f, l) = bind-ok (build_services service d ports) _ services k in
    subst (All (IsChecked service)) (ok_inj l)
      (build_service-IsChecked service d p s e, build_services-IsChecked service d ports rest f)

-- Every NLB service that is built for a Service has a healthcheck at a port below 65536; where the
-- annotation for the healthcheck port holds a number, it is that number exactly if the number is not
-- negative and below 65536.
pub build_load_balancer-IsChecked :
    (service : Service) (nlb : LoadBalancer)
    → build_load_balancer service ≡ ok nlb
    → All (IsChecked service) nlb.services
unfolding build_load_balancer
build_load_balancer-IsChecked service nlb h =
    let (d, e, k) = bind-ok (healthcheck_defaults service) _ nlb h in
    let (services, f, l) = bind-ok (build_services service d service.ports) _ nlb k in
    subst (λ t. All (IsChecked service) t.services) (ok_inj l)
      (build_services-IsChecked service d service.ports services f)

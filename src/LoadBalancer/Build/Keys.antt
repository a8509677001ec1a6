-- ===== src/LoadBalancer/Build/Keys.antt =====
-- The services that `buildLoadBalancerFromAnnotations` asks for, next to the ports of the Service
-- (exoscale/loadbalancer.go, lines 805-894).
use exoscale_cloud_controlle.Base.{
  ℕ, ◌≡◌, refl, sym, ap, subst, ◌≢◌, true, List, [], ◌∷◌, string_eq, Result, ok, err, Error,
  Bool-cases, inl, inr,
}
use exoscale_cloud_controlle.Base.Text.{to_lower}
use exoscale_cloud_controlle.Cloud.Exoscale.{LoadBalancerService, LoadBalancer}
use exoscale_cloud_controlle.Cloud.Kubernetes.{Service, ServicePort}
use exoscale_cloud_controlle.LoadBalancer.Annotations.{get_annotation, annotation_id}
use exoscale_cloud_controlle.LoadBalancer.Build.{
  ◌>>=◌, HealthcheckDefaults, healthcheck_defaults, healthcheck_port, is_supported, service_of_port,
  build_service, build_services, build_load_balancer,
}

-- What a service has of a port.
abbrev pub Serves : LoadBalancerService → ServicePort → Type 0
Serves s p =
    (s.port ≡ p.port)
    × (s.target_port ≡ p.node_port)
    × (s.protocol ≡ to_lower p.protocol)
    × (is_supported p ≡ true)

-- One for one, in the same order.
abbrev pub Zip : List LoadBalancerService → List ServicePort → Type 0
Zip [] [] = Unit {0}
Zip (s ∷ services) (p ∷ ports) = Serves s p × Zip services ports
Zip _ _ = ⊥

pub bind-ok :
    {A B : Type 0} (r : Result A) (f : A → Result B) (b : B)
    → r >>= f ≡ ok b
    → (a : A) × (r ≡ ok a) × (f a ≡ ok b)
bind-ok (ok a) f b h = (a, refl, h)
bind-ok (err e) f b h = cc

pub ok_inj : {A : Type 0} {a b : A} → ok a ≡ ok b → a ≡ b
ok_inj h = cc

pub err_ok : {A : Type 0} {e : Error} {a : A} → err e ≢ ok a
err_ok h = cc

served :
    (service : Service) (d : HealthcheckDefaults) (p : ServicePort) (n : ℕ)
    → is_supported p ≡ true
    → Serves (service_of_port service d p n) p
unfolding service_of_port
served service d p n h = (refl, refl, refl, h)

build_service-Serves :
    (service : Service) (d : HealthcheckDefaults) (p : ServicePort) (s : LoadBalancerService)
    → build_service service d p ≡ ok s
    → Serves s p
unfolding build_service
build_service-Serves service d p s h =
    let (port, e, k) = bind-ok (healthcheck_port service p) _ s h in
    elim (Bool-cases (is_supported p)) [
      | inl f ↦ subst (λ t. Serves t p) (ok_inj (rw f at k)) (served service d p port f)
      | inr f ↦ absurd (err_ok (rw f at k))
    ]

build_services-Zip :
    (service : Service) (d : HealthcheckDefaults) (ports : List ServicePort)
    (services : List LoadBalancerService)
    → build_services service d ports ≡ ok services
    → Zip services ports
unfolding build_services
build_services-Zip service d [] services h = subst (λ t. Zip t []) (ok_inj h) tt
build_services-Zip service d (p ∷ ports) services h =
    let (s, e, k) = bind-ok (build_service service d p) _ services h in
    let (rest, f, l) = bind-ok (build_services service d ports) _ services k in
    subst (λ t. Zip t (p ∷ ports)) (ok_inj l)
      (build_service-Serves service d p s e, build_services-Zip service d ports rest f)

-- What is built for a Service has exactly one NLB service for each of its ports, in their order, with
-- the port, its node port and its protocol in lower case; and all the ports' protocols are supported.
pub build_load_balancer-Zip :
    (service : Service) (nlb : LoadBalancer)
    → build_load_balancer service ≡ ok nlb
    → Zip nlb.services service.ports
unfolding build_load_balancer
build_load_balancer-Zip service nlb h =
    let (d, e, k) = bind-ok (healthcheck_defaults service) _ nlb h in
    let (services, f, l) = bind-ok (build_services service d service.ports) _ nlb k in
    subst (λ t. Zip t.services service.ports) (ok_inj l)
      (build_services-Zip service d service.ports services f)

pub build_load_balancer-id :
    (service : Service) (nlb : LoadBalancer)
    → build_load_balancer service ≡ ok nlb
    → nlb.id ≡ get_annotation service annotation_id ""
unfolding build_load_balancer
build_load_balancer-id service nlb h =
    let (d, e, k) = bind-ok (healthcheck_defaults service) _ nlb h in
    let (services, f, l) = bind-ok (build_services service d service.ports) _ nlb k in
    ap (λ n. n.id) (sym (ok_inj l))

-- ===== src/LoadBalancer/Build/Adopted.antt =====
-- What `buildLoadBalancerFromAnnotations` builds once the Service names an NLB.
use exoscale_cloud_controlle.Base.{
  ℕ, String, ◌≡◌, refl, ◌∙◌, ap, false, List, [], ◌∷◌, ◌==◌, nat_eq, int_eq, string_eq,
  if◌then◌else◌, Result, ok, err, errorf, hidef, pos, arith, length, some, not, uint16, ◌<>◌,
}
use exoscale_cloud_controlle.Base.Decimal.{atoi, show_int}
use exoscale_cloud_controlle.Base.Dict.{insert, lookup-insert}
use exoscale_cloud_controlle.Base.Duration.{parse_duration, whole_seconds}
use exoscale_cloud_controlle.Base.Text.{to_lower}
use exoscale_cloud_controlle.Cloud.Exoscale.{LoadBalancer}
use exoscale_cloud_controlle.Cloud.Kubernetes.{Service, ServicePort}
use exoscale_cloud_controlle.LoadBalancer.Annotations.{
  get_annotation, annotation_id, annotation_name, annotation_description,
  annotation_service_strategy, annotation_service_name, annotation_service_description,
  annotation_service_instance_pool_id, annotation_health_check_mode, annotation_health_check_port,
  annotation_health_check_uri, annotation_health_check_interval, annotation_health_check_timeout,
  annotation_health_check_retries,
}
use exoscale_cloud_controlle.LoadBalancer.Build.{
  ◌>>=◌, or_err, HealthcheckDefaults, default_mode, default_strategy, default_interval,
  default_timeout, default_retries, healthcheck_defaults, healthcheck_port, is_supported,
  service_name, unsupported_protocol, default_healthcheck_port, service_of_port, build_service,
  build_services, build_load_balancer,
}
use exoscale_cloud_controlle.LoadBalancer.Build.Keys.{bind-ok, ok_inj}

then_eq : {A B : Type 0} (r : Result A) (f : A → Result B) (a : A) → r ≡ ok a → r >>= f ≡ f a
then_eq r f a e = rw e refl

-- The Service once the annotation for the NLB's ID is set.
abbrev pub adopted : Service → String → Service
adopted v id = record v { annotations = insert annotation_id id v.annotations }

module _ (v : Service) (id : String) where
  kept :
      (a d : String)
      → (a == annotation_id) ≡ false
      → get_annotation (adopted v id) a d ≡ get_annotation v a d
  unfolding get_annotation
  kept a d differ = ground (arith, lookup-insert a annotation_id id v.annotations)

  own : get_annotation (adopted v id) annotation_id "" ≡ id
  unfolding get_annotation
  own = ground (arith, lookup-insert annotation_id annotation_id id v.annotations)

  healthcheck_defaults-adopted : healthcheck_defaults (adopted v id) ≡ healthcheck_defaults v
  unfolding healthcheck_defaults string_eq
  healthcheck_defaults-adopted =
      let interval = kept annotation_health_check_interval default_interval refl in
      let timeout = kept annotation_health_check_timeout default_timeout refl in
      let retries = kept annotation_health_check_retries (show_int default_retries) refl in
      λ i. do
        interval ←
            or_err whole_seconds (parse_duration (interval i))
              (errorf "time: invalid duration %q" ((interval i) ∷ []))
        timeout ←
            or_err whole_seconds (parse_duration (timeout i))
              (errorf "time: invalid duration %q" ((timeout i) ∷ []))
        retries ←
            or_err (λ n. n) (atoi (retries i))
              (errorf "strconv.Atoi: parsing %q" ((retries i) ∷ []))
        ok (record { interval = interval; timeout = timeout; retries = retries })

  healthcheck_port-adopted :
      (p : ServicePort) → healthcheck_port (adopted v id) p ≡ healthcheck_port v p
  unfolding healthcheck_port string_eq
  healthcheck_port-adopted p =
      ap
        (λ text.
          if not (text == "")
          then or_err uint16 (atoi text) (
              hidef "invalid healthcheck port annotation: %s" []
                (errorf "strconv.Atoi: parsing %q" (text ∷ [])))
          else ok (default_healthcheck_port v p))
        (kept annotation_health_check_port "" refl)

  service_of_port-adopted :
      (d : HealthcheckDefaults) (p : ServicePort) (n : ℕ)
      → service_of_port (adopted v id) d p n ≡ service_of_port v d p n
  unfolding service_of_port string_eq
  service_of_port-adopted d p n =
      let name = service_name v.uid p in
      let is_single = length v.ports == 1 in
      let named = kept annotation_service_name name refl in
      let description = kept annotation_service_description "" refl in
      let pool = kept annotation_service_instance_pool_id "" refl in
      let mode = kept annotation_health_check_mode default_mode refl in
      let uri = kept annotation_health_check_uri "" refl in
      let strategy = kept annotation_service_strategy default_strategy refl in
      λ i. record {
        id = "";
        name = if is_single then named i else name;
        description = if is_single then description i else "";
        instance_pool = some (record { id = pool i; others = [] });
        healthcheck = some (record {
          mode = mode i;
          port = pos n;
          uri = uri i;
          interval = d.interval;
          timeout = d.timeout;
          retries = d.retries;
          tls_sni = "";
        });
        healthcheck_status = [];
        port = p.port;
        target_port = p.node_port;
        protocol = to_lower p.protocol;
        strategy = strategy i;
        state = "";
      }

  build_service-adopted :
      (d : HealthcheckDefaults) (p : ServicePort)
      → build_service (adopted v id) d p ≡ build_service v d p
  unfolding build_service
  build_service-adopted d p = λ i. do
    n ← healthcheck_port-adopted p i
    if not (is_supported p) then err unsupported_protocol else ok (service_of_port-adopted d p n i)

  build_services-adopted :
      (d : HealthcheckDefaults) (ports : List ServicePort)
      → build_services (adopted v id) d ports ≡ build_services v d ports
  unfolding build_services
  build_services-adopted d [] = refl
  build_services-adopted d (p ∷ ports) = λ i. do
    svc ← build_service-adopted d p i
    rest ← build_services-adopted d ports i
    ok (svc ∷ rest)

  -- The ID is all that changes.
  pub build_load_balancer-adopted :
      (spec : LoadBalancer)
      → build_load_balancer v ≡ ok spec
      → build_load_balancer (adopted v id) ≡ ok (record spec { id = id })
  unfolding build_load_balancer string_eq
  build_load_balancer-adopted spec h =
      let name = kept annotation_name ("k8s-" <> v.uid) refl in
      let description = kept annotation_description "" refl in
      let (d, e, k) = bind-ok (healthcheck_defaults v) _ spec h in
      let (services, f, l) = bind-ok (build_services v d v.ports) _ spec k in
      let defaults = healthcheck_defaults-adopted ∙ e in
      let built = build_services-adopted d v.ports ∙ f in
      then_eq (healthcheck_defaults (adopted v id)) _ d defaults
      ∙ then_eq (build_services (adopted v id) d v.ports) _ services built
      ∙ (λ i. ok (record {
        id = own i;
        name = name i;
        description = description i;
        ip = "<nil>";
        labels = [];
        services = services;
        state = "";
      }))
      ∙ ap {A = LoadBalancer} (λ n. ok (record n { id = id })) (ok_inj l)

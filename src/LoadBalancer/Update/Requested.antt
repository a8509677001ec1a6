-- ===== src/LoadBalancer/Update/Requested.antt =====
-- What the requests of a plan are, one by one.
use exoscale_cloud_controlle.Base.{
  String, ◌≡◌, refl, ◌≢◌, ◌∙◌, ap, inl, inr, Bool, true, false, not, ◌&&◌, Option, none, some, List,
  [], ◌∷◌, map, ◌==◌, string_eq, arith, Bool-cases, Option-cases, All, All-append, Member,
  concat_map,
}
use exoscale_cloud_controlle.Cloud.Exoscale.{LoadBalancer, LoadBalancerService, ServiceRequest}
use exoscale_cloud_controlle.LoadBalancer.Build.{
  is_load_balancer_updated, is_load_balancer_service_updated,
}
use exoscale_cloud_controlle.LoadBalancer.Session.{
  Request, create_nlb, update_nlb, delete_nlb, add_service, update_service, delete_service,
  patch_service,
}
use exoscale_cloud_controlle.LoadBalancer.Update.{
  ServiceKey, key_eq, key_of, pool_id, update_request,
}
use exoscale_cloud_controlle.LoadBalancer.Update.Plan.{
  current_for, plan, field_requests, delete_requests, requests_for, service_requests,
}

-- The request has the settings of the service.
abbrev Describes : ServiceRequest → LoadBalancerService → Type 0
Describes req u =
    (req.name ≡ u.name)
    × (req.description ≡ u.description)
    × (req.port ≡ u.port)
    × (req.target_port ≡ u.target_port)
    × (req.protocol ≡ u.protocol)
    × (req.strategy ≡ u.strategy)
    × (req.healthcheck ≡ u.healthcheck)

-- A request that touches only the services of the NLB that the Service asks for: it adds a service
-- that is asked for, with its settings and its pool, gives the settings of one to a service of the NLB
-- that has its key and its pool, or deletes a service of the NLB that has its key and another pool.
abbrev pub OnlyDesired : LoadBalancer → LoadBalancer → Request → Type 0
OnlyDesired current update (create_nlb req) = ⊥
OnlyDesired current update (update_nlb id req) = ⊥
OnlyDesired current update (delete_nlb id) = ⊥
OnlyDesired current update (patch_service ns name p) = ⊥
OnlyDesired current update (add_service id req) =
    (u : LoadBalancerService) × Member u update.services
    × Describes req u
    × (pool_id req.instance_pool ≡ pool_id u.instance_pool)
    × (id ≡ current.id)
OnlyDesired current update (update_service id sid req) =
    (x : LoadBalancerService) × (u : LoadBalancerService) × Member u update.services
    × Member x current.services
    × (key_of x ≡ key_of u)
    × (pool_id x.instance_pool ≡ pool_id u.instance_pool)
    × Describes req u
    × (sid ≡ x.id)
    × (id ≡ update.id)
OnlyDesired current update (delete_service id sid) =
    (x : LoadBalancerService) × (u : LoadBalancerService) × Member u update.services
    × Member x current.services
    × (key_of x ≡ key_of u)
    × (pool_id x.instance_pool ≢ pool_id u.instance_pool)
    × (sid ≡ x.id)
    × (id ≡ current.id)

-- What is found as current is a service of the NLB with that key.
pub current_for-Member :
    (k : ServiceKey) (services : List LoadBalancerService) (x : LoadBalancerService)
    → current_for k services ≡ some x
    → Member x services × (key_of x ≡ k)
current_for-Member k [] x h = cc
current_for-Member k (s ∷ services) x h = elim (Option-cases (current_for k services)) [
  | inl e ↦ (ground arith, ground arith)
  | inr (y, e) ↦
      let same : y ≡ x = ground arith in
      let found = current_for-Member k services x (e ∙ ap some same) in (inr found.0, found.1)
]

described : (u : LoadBalancerService) → Describes (update_request u) u
described u = (refl, refl, refl, refl, refl, refl, refl)

module _ (current update : LoadBalancer) where
  requests_for-OnlyDesired :
      (u : LoadBalancerService) (o : Option LoadBalancerService)
      → Member u update.services
      → current_for (key_of u) current.services ≡ o
      → All (OnlyDesired current update) (requests_for current update u o)
  requests_for-OnlyDesired u none m h = ((u, m, described u, refl, refl), tt)
  requests_for-OnlyDesired u (some x) m h =
      let (mx, kx) = current_for-Member (key_of u) current.services x h in
      elim (Bool-cases (pool_id x.instance_pool == pool_id u.instance_pool)) [
        | inl same ↦
            let pools : pool_id x.instance_pool ≡ pool_id u.instance_pool = ground arith in
            elim (Bool-cases (is_load_balancer_service_updated x (record u { id = x.id }))) [
              | inl changed ↦
                  rw (same, changed) ((x, u, m, mx, kx, pools, described u, refl, refl), tt)
              | inr equal ↦ rw (same, equal) tt
            ]
        | inr moved ↦
            let differ : pool_id x.instance_pool ≢ pool_id u.instance_pool = ground arith in
            rw moved ((x, u, m, mx, kx, differ, refl, refl), ((u, m, described u, refl, refl), tt))
      ]

  services-OnlyDesired :
      (desired : List LoadBalancerService)
      → ((u : LoadBalancerService) → Member u desired → Member u update.services)
      → All (OnlyDesired current update) (concat_map (service_requests current update) desired)
  services-OnlyDesired [] sub = tt
  services-OnlyDesired (u ∷ desired) sub =
      All-append (OnlyDesired current update) (service_requests current update u) _
        (requests_for-OnlyDesired u (current_for (key_of u) current.services) (sub u (inl refl))
          refl)
        (services-OnlyDesired desired λ v m. sub v (inr m))

  pub plan-OnlyDesired : All (OnlyDesired current update) (plan true current update)
  unfolding plan
  plan-OnlyDesired = services-OnlyDesired update.services λ u m. m

-- A request that is about services, or that renames the NLB and keeps its description.
abbrev pub Renames : LoadBalancer → LoadBalancer → Request → Type 0
Renames current update (create_nlb req) = ⊥
Renames current update (delete_nlb id) = ⊥
Renames current update (patch_service ns name p) = ⊥
Renames current update (update_nlb id req) =
    (id ≡ update.id) × (req.name ≡ update.name) × (req.description ≡ current.description)
Renames current update (add_service id req) = Unit {0}
Renames current update (update_service id sid req) = Unit {0}
Renames current update (delete_service id sid) = Unit {0}

module _ (current update : LoadBalancer) where
  field-Renames :
      (external : Bool) → All (Renames current update) (field_requests external current update)
  field-Renames external =
      elim (Bool-cases (not external && is_load_balancer_updated current update)) [
        | inl e ↦ rw e ((refl, refl, refl), tt)
        | inr e ↦ rw e tt
      ]

  deleted-Renames :
      (id : String) (services : List LoadBalancerService)
      → All (Renames current update) (map (λ s. delete_service id s.id) services)
  deleted-Renames id [] = tt
  deleted-Renames id (s ∷ services) = (tt, deleted-Renames id services)

  delete-Renames :
      (external : Bool) (id : String) (desired services : List LoadBalancerService)
      → All (Renames current update) (delete_requests external id desired services)
  delete-Renames true id desired services = tt
  delete-Renames false id desired services = deleted-Renames id _

  requests_for-Renames :
      (u : LoadBalancerService) (o : Option LoadBalancerService)
      → All (Renames current update) (requests_for current update u o)
  requests_for-Renames u none = (tt, tt)
  requests_for-Renames u (some x) =
      elim (Bool-cases (pool_id x.instance_pool == pool_id u.instance_pool)) [
        | inl same ↦
            elim (Bool-cases (is_load_balancer_service_updated x (record u { id = x.id }))) [
              | inl changed ↦ rw (same, changed) (tt, tt)
              | inr equal ↦ rw (same, equal) tt
            ]
        | inr moved ↦ rw moved (tt, (tt, tt))
      ]

  services-Renames :
      (desired : List LoadBalancerService)
      → All (Renames current update) (concat_map (service_requests current update) desired)
  services-Renames [] = tt
  services-Renames (u ∷ desired) =
      All-append (Renames current update) (service_requests current update u) _
        (requests_for-Renames u (current_for (key_of u) current.services))
        (services-Renames desired)

  pub plan-Renames : (external : Bool) → All (Renames current update) (plan external current update)
  unfolding plan
  plan-Renames external =
      All-append (Renames current update) (field_requests external current update) _
        (field-Renames external)
        (All-append (Renames current update)
          (delete_requests external current.id update.services current.services) _
          (delete-Renames external current.id update.services current.services)
          (services-Renames update.services))

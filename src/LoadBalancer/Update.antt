-- ===== src/LoadBalancer/Update.antt =====
-- `updateLoadBalancer` (exoscale/loadbalancer.go, lines 325-579): the NLB's own fields, then a loop
-- that deletes the NLB services which the Service no longer asks for, then a loop that creates,
-- recreates or updates the others.
pub mod Plan
pub mod Refinement
pub mod Collected
pub mod Requested
pub mod Safety
use exoscale_cloud_controlle.Base.{
  String, ◌<>◌, ◌≡◌, refl, Bool, true, false, not, ◌&&◌, ◌||◌, Option, none, some, List, [], ◌∷◌,
  ◌==◌, string_eq, Eq, if◌then◌else◌, Result, ok, err, Action, Error, errorf, wrapf,
  load_balancer_id_annotation_not_found, ◌>>=◌, ◌>>◌, gets, lift, done, pure, deref, fail, fail_if,
  map_error, when, ℤ, ite, String-discrete, ℤ-discrete, find_last, any, map,
}
use exoscale_cloud_controlle.Base.Dict.{lookup, insert}
use exoscale_cloud_controlle.Cloud.Exoscale.{
  Client, InstancePool, LoadBalancerService, LoadBalancer, LoadBalancerRequest, ServiceRequest,
  Operation,
}
use exoscale_cloud_controlle.Cloud.Kubernetes.{Node}
use exoscale_cloud_controlle.LoadBalancer.Annotations.{is_external}
use exoscale_cloud_controlle.LoadBalancer.Build.{
  build_load_balancer, is_load_balancer_updated, is_load_balancer_service_updated,
}
use exoscale_cloud_controlle.LoadBalancer.Session.{
  Session, call, send, update_nlb, add_service, update_service, delete_service,
}

-- `ServiceKey`
pub record ServiceKey : Type 0 where
  pub port : ℤ
  pub protocol : String

unfoldable pub ServiceKey-discrete : Discrete ServiceKey
unfolding String-discrete ℤ-discrete
ServiceKey-discrete = hlevel (String-discrete, ℤ-discrete)

instance unfoldable pub key_eq : Eq ServiceKey
unfolding ServiceKey-discrete
key_eq = record { dec = ServiceKey-discrete }

abbrev pub key_of : LoadBalancerService → ServiceKey
key_of s = record { port = s.port; protocol = s.protocol }

-- The inner loop of the first loop: is the key asked for?
abbrev pub is_desired : List LoadBalancerService → ServiceKey → Bool
is_desired desired k = any (λ u. k == key_of u) desired

-- `nlbServices`
abbrev pub Kept : Type 0
Kept = List (ServiceKey × LoadBalancerService)

-- The request that adds the service to the pool with the given ID.
abbrev pub add_request : LoadBalancerService → String → ServiceRequest
add_request u pool = record {
  name = u.name;
  description = u.description;
  port = u.port;
  target_port = u.target_port;
  protocol = u.protocol;
  strategy = u.strategy;
  healthcheck = u.healthcheck;
  instance_pool = some (record { id = pool; others = [] });
}

-- The request that updates the service in place.
abbrev pub update_request : LoadBalancerService → ServiceRequest
update_request u = record {
  name = u.name;
  description = u.description;
  port = u.port;
  target_port = u.target_port;
  protocol = u.protocol;
  strategy = u.strategy;
  healthcheck = u.healthcheck;
  instance_pool = none;
}

-- The request that updates the NLB's own fields. The description is the current one, as in the source.
abbrev pub nlb_request : LoadBalancer → LoadBalancer → LoadBalancerRequest
nlb_request current update = record {
  name = update.name;
  description = current.description;
  labels = update.labels;
}

-- `currentPool` and `desiredPool`
abbrev pub pool_id : Option InstancePool → String
pool_id none = ""
pool_id (some p) = p.id

-- The name of the service that the loop after `GetLoadBalancer` leaves in `svc`.
abbrev pub found_name : String → List LoadBalancerService → String
found_name name services = elim (find_last (λ item. item.name == name) services) [
  | none ↦ ""
  | some item ↦ item.name
]

module _ {W : Type 0} (client : Client W) where
  -- Adds the service, and checks that the NLB lists it.
  unfoldable pub create_service : LoadBalancer → LoadBalancerService → Action (Session W) (Unit {0})
  unfolding string_eq
  create_service current u = do
    pool ← deref u.instance_pool
    op ←
        send (add_service current.id (add_request u pool.id))
          (client.add_service_to_load_balancer current.id (add_request u pool.id))
    nlb ← call (client.get_load_balancer current.id)
    fail_if (found_name u.name nlb.services == "")
        (errorf "failed to create NLB service %s/%s" (current.name ∷ u.name ∷ []))

  unfoldable pub send_delete : LoadBalancer → LoadBalancerService → Action (Session W) Operation
  send_delete current s =
      send (delete_service current.id s.id) (client.delete_load_balancer_service current.id s.id)

  -- The first loop; it answers with `nlbServices`.
  unfoldable pub delete_loop :
      Bool
      → LoadBalancer
      → List LoadBalancerService
      → List LoadBalancerService
      → Kept
      → Action (Session W) Kept
  unfolding key_eq insert send_delete
  delete_loop external current desired [] kept = pure kept
  delete_loop external current desired (s ∷ services) kept = elim (is_desired desired (key_of s)) [
    | true ↦ delete_loop external current desired services (insert (key_of s) s kept)
    | false ↦ elim external [
      | true ↦ delete_loop external current desired services kept
      | false ↦ send_delete current s >>= λ _. delete_loop external current desired services kept
    ]
  ]

  -- A round of the second loop for a service that exists already.
  unfoldable pub update_existing :
      LoadBalancer
      → LoadBalancer
      → LoadBalancerService
      → LoadBalancerService
      → Action (Session W) (Unit {0})
  unfolding string_eq create_service send_delete is_load_balancer_service_updated
  update_existing current update s u0 =
      let u : LoadBalancerService = record u0 { id = s.id } in
      if not (pool_id s.instance_pool == pool_id u.instance_pool)
      then (map_error (wrapf "failed deleting NLB service: %w") (send_delete current s)
          >> create_service current u)
      else when (is_load_balancer_service_updated s u) (
          send (update_service update.id u.id (update_request u))
            (client.update_load_balancer_service update.id u.id (update_request u))
          >> done)

  -- A round of the second loop, with what `nlbServices` has for the key.
  unfoldable pub ensure_service :
      LoadBalancer
      → LoadBalancer
      → LoadBalancerService
      → Option LoadBalancerService
      → Action (Session W) (Unit {0})
  unfolding create_service update_existing
  ensure_service current update u none = create_service current u
  ensure_service current update u (some s) = update_existing current update s u

  -- The second loop.
  unfoldable pub ensure_loop :
      LoadBalancer → LoadBalancer → Kept → List LoadBalancerService → Action (Session W) (Unit {0})
  unfolding lookup key_eq ensure_service
  ensure_loop current update kept [] = done
  ensure_loop current update kept (u ∷ desired) =
      ensure_service current update u (lookup (key_of u) kept)
      >> ensure_loop current update kept desired

  -- The NLB's own fields, unless the NLB is external.
  unfoldable pub update_fields : Bool → LoadBalancer → LoadBalancer → Action (Session W) (Unit {0})
  unfolding is_load_balancer_updated
  update_fields external current update =
      when (not external && is_load_balancer_updated current update) (
        send (update_nlb update.id (nlb_request current update))
          (client.update_load_balancer update.id (nlb_request current update))
        >> done)

  -- From the fetched NLB on.
  unfoldable pub reconcile : Bool → LoadBalancer → LoadBalancer → Action (Session W) (Unit {0})
  unfolding update_fields delete_loop ensure_loop
  reconcile external current update = do
    update_fields external current update
    kept ← delete_loop external current update.services current.services []
    ensure_loop current update kept update.services

  -- `updateLoadBalancer`
  unfoldable pub update_load_balancer : Action (Session W) (Unit {0})
  update_load_balancer = do
    service ← gets (λ s. s.service)
    update ← lift (build_load_balancer service)
    fail_if (update.id == "") load_balancer_id_annotation_not_found
    current ← call (client.get_load_balancer update.id)
    reconcile (is_external service) current update

  -- `UpdateLoadBalancer`, which is given the nodes; an instance pool has its own.
  unfoldable pub update_load_balancer_hosts : List Node → Action (Session W) (Unit {0})
  unfolding update_load_balancer
  update_load_balancer_hosts nodes = update_load_balancer

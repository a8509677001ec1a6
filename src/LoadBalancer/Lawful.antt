-- ===== src/LoadBalancer/Lawful.antt =====
-- What the provider relies on of the part of the Exoscale API that changes the services of an NLB, as
-- an interface: a view of the world that forgets the services' order and their status, and the laws
-- that the answers of the API and its successful calls obey.
use exoscale_cloud_controlle.Base.{
  String, ◌≡◌, ◌≢◌, ◌↔◌, ◌⊎◌, Option, none, some, List, ◌++◌, ◌==◌, string_eq, int_eq, ℤ, pos,
  if◌then◌else◌, ok, Member,
}
use exoscale_cloud_controlle.Cloud.Exoscale.{
  Client, Healthcheck, LoadBalancer, LoadBalancerService, LoadBalancerRequest, ServiceRequest,
  Operation,
}
use exoscale_cloud_controlle.LoadBalancer.Build.{without_status}
use exoscale_cloud_controlle.LoadBalancer.Session.{
  Request, create_nlb, update_nlb, delete_nlb, add_service, update_service, delete_service,
  patch_service,
}
use exoscale_cloud_controlle.LoadBalancer.Done.{Done, Done-split}
use exoscale_cloud_controlle.LoadBalancer.Runs.{Obeys}
use exoscale_cloud_controlle.LoadBalancer.Update.{pool_id}

-- The services of an NLB, without their status, as a set.
abbrev pub Services : Type 1
Services = LoadBalancerService → Type 0

-- A field of an update that is empty is left out of the request, and so leaves the old value.
abbrev pub over : String → String → String
over new old = if new == "" then old else new

abbrev pub over_number : ℤ → ℤ → ℤ
over_number new old = if new == pos 0 then old else new

abbrev pub over_healthcheck : Option Healthcheck → Option Healthcheck → Option Healthcheck
over_healthcheck none old = old
over_healthcheck (some h) old = some h

-- A service after an update of it.
unfoldable pub updated : ServiceRequest → LoadBalancerService → LoadBalancerService
updated req old = record old {
  name = over req.name old.name;
  description = over req.description old.description;
  port = over_number req.port old.port;
  target_port = over_number req.target_port old.target_port;
  protocol = over req.protocol old.protocol;
  strategy = over req.strategy old.strategy;
  healthcheck = over_healthcheck req.healthcheck old.healthcheck;
}

-- A service that was added by the request.
pub record IsAdded (req : ServiceRequest) (x : LoadBalancerService) : Type 0 where
  pub name : x.name ≡ req.name
  pub description : x.description ≡ req.description
  pub port : x.port ≡ req.port
  pub target_port : x.target_port ≡ req.target_port
  pub protocol : x.protocol ≡ req.protocol
  pub strategy : x.strategy ≡ req.strategy
  pub healthcheck : x.healthcheck ≡ req.healthcheck
  pub pool : pool_id x.instance_pool ≡ pool_id req.instance_pool

-- What a request that succeeded has done to the services. A new NLB and a patch of the Service are not
-- about the services of an NLB.
abbrev pub Effect : Request → Services → Services → Type 0
Effect (create_nlb req) S T = ⊥
Effect (delete_nlb id) S T = (y : LoadBalancerService) → T y → ⊥
Effect (patch_service ns name p) S T = ⊥
Effect (update_nlb id req) S T = (y : LoadBalancerService) → T y ↔ S y
Effect (add_service id req) S T =
    (x : LoadBalancerService) × IsAdded req x
    × ((y : LoadBalancerService) → S y → y.id ≢ x.id)
    × ((y : LoadBalancerService) → T y ↔ (S y ⊎ (y ≡ x)))
Effect (update_service id sid req) S T =
    (y : LoadBalancerService)
    → T y ↔ (
        (S y × (y.id ≢ sid))
        ⊎ ((old : LoadBalancerService) × S old × (old.id ≡ sid) × (y ≡ updated req old)))
Effect (delete_service id sid) S T = (y : LoadBalancerService) → T y ↔ (S y × (y.id ≢ sid))

-- The laws.
pub record IsLawful {W : Type 0} (client : Client W) (view : String → W → Services) : Type 1 where
  -- An NLB is told as it is, and asking changes no services.
  pub fetched :
      (id : String) (nlb : LoadBalancer) (w w' : W)
      → client.get_load_balancer id w ≡ (ok nlb, w')
      → (nlb.id ≡ id)
        × (view id w' ≡ view id w)
        × ((y : LoadBalancerService)
            → view id w y
              ↔ ((s : LoadBalancerService) × Member s nlb.services × (y ≡ without_status s)))
  pub renamed :
      (id : String) (req : LoadBalancerRequest) (op : Operation) (w w' : W)
      → client.update_load_balancer id req w ≡ (ok op, w')
      → Effect (update_nlb id req) (view id w) (view id w')
  pub added :
      (id : String) (req : ServiceRequest) (op : Operation) (w w' : W)
      → client.add_service_to_load_balancer id req w ≡ (ok op, w')
      → Effect (add_service id req) (view id w) (view id w')
  pub changed :
      (id sid : String) (req : ServiceRequest) (op : Operation) (w w' : W)
      → client.update_load_balancer_service id sid req w ≡ (ok op, w')
      → Effect (update_service id sid req) (view id w) (view id w')
  pub deleted :
      (id sid : String) (op : Operation) (w w' : W)
      → client.delete_load_balancer_service id sid w ≡ (ok op, w')
      → Effect (delete_service id sid) (view id w) (view id w')
  pub removed :
      (id : String) (op : Operation) (w w' : W)
      → client.delete_load_balancer id w ≡ (ok op, w')
      → Effect (delete_nlb id) (view id w) (view id w')

-- The requests of a list, one after the other.
abbrev pub Effects : {W : Type 0} → (W → Services) → List Request → W → W → Type 1
Effects V = Done Effect V

pub Effects-split :
    {W : Type 0} (V : W → Services) (ps qs : List Request) (u w : W)
    → Effects V (ps ++ qs) u w
    → (v : W) × Effects V ps u v × Effects V qs v w
Effects-split V = Done-split Effect V

-- The calls of such an API do to the view what their requests say.
pub lawful-Obeys :
    {W : Type 0} (client : Client W) (view : String → W → Services)
    → IsLawful client view
    → (a b : String) → a ≡ b
    → Obeys Effect (view a) client a b
lawful-Obeys client view lawful a b same = record {
  fetched = λ nlb w w' h. (lawful.fetched a nlb w w' h).1;
  added = lawful.added a;
  deleted = lawful.deleted a;
  removed = lawful.removed a;
  changed = λ sid req op w w' h. rw same (lawful.changed b sid req op w w' h);
  renamed = λ req op w w' h. rw same (lawful.renamed b req op w w' h);
}

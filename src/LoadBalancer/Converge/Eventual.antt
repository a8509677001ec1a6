-- ===== src/LoadBalancer/Converge/Eventual.antt =====
-- The wrapped client over an API that answers before it has acted: the operation that a call answers
-- with takes effect by the time that the wait for it succeeds (exoscale/client.go, lines 117-126, and
-- exoscale/loadbalancer.go, lines 617-757).
use exoscale_cloud_controlle.Base.{String, ◌≡◌, ok, ◌↔◌, Action, bind-ok, Member}
use exoscale_cloud_controlle.Cloud.Exoscale.{
  Client, LoadBalancer, LoadBalancerService, LoadBalancerRequest, ServiceRequest, Operation,
}
use exoscale_cloud_controlle.Cloud.Refreshable.{refreshable, wait_for, operation_state_success}
use exoscale_cloud_controlle.LoadBalancer.Build.{without_status}
use exoscale_cloud_controlle.LoadBalancer.Lawful.{Services, Effect, IsLawful}
use exoscale_cloud_controlle.LoadBalancer.Session.{
  Request, update_nlb, add_service, update_service, delete_service, delete_nlb,
}

-- A call that succeeds, and then a wait for its operation that succeeds, have the effect of the
-- request together. Nothing is said of the time between them.
abbrev pub Eventually :
    {W : Type 0} → Client W → (W → Services) → Request → Action W Operation → Type 0
Eventually {W} exo V q m =
    (op last : Operation) (w w1 w2 : W)
    → m w ≡ (ok op, w1)
    → exo.wait op operation_state_success w1 ≡ (ok last, w2)
    → Effect q (V w) (V w2)

-- The laws of the client that is wrapped.
pub record IsEventual {W : Type 0} (exo : Client W) (view : String → W → Services) : Type 1 where
  pub fetched :
      (id : String) (nlb : LoadBalancer) (w w' : W)
      → exo.get_load_balancer id w ≡ (ok nlb, w')
      → (nlb.id ≡ id)
        × (view id w' ≡ view id w)
        × ((y : LoadBalancerService)
            → view id w y
              ↔ ((s : LoadBalancerService) × Member s nlb.services × (y ≡ without_status s)))
  pub renamed :
      (id : String) (req : LoadBalancerRequest)
      → Eventually exo (view id) (update_nlb id req) (exo.update_load_balancer id req)
  pub added :
      (id : String) (req : ServiceRequest)
      → Eventually exo (view id) (add_service id req) (exo.add_service_to_load_balancer id req)
  pub changed :
      (id sid : String) (req : ServiceRequest)
      → Eventually exo
          (view id)
          (update_service id sid req)
          (exo.update_load_balancer_service id sid req)
  pub deleted :
      (id sid : String)
      → Eventually exo (view id) (delete_service id sid) (exo.delete_load_balancer_service id sid)
  pub removed :
      (id : String) → Eventually exo (view id) (delete_nlb id) (exo.delete_load_balancer id)

module _ {W : Type 0} (exo : Client W) (view : String → W → Services) where
  -- The wait brings the effect about.
  waited :
      (V : W → Services) (q : Request) (m : Action W Operation) (op : Operation) (w w' : W)
      → Eventually exo V q m
      → wait_for exo m w ≡ (ok op, w')
      → Effect q (V w) (V w')
  unfolding wait_for
  waited V q m op w w' h e =
      let (o, t, sent, ended) = bind-ok m (λ o. exo.wait o operation_state_success) w op w' e in
      h o op w t w' sent ended

  -- If the client that is wrapped obeys the laws together with the waits for its operations, then the
  -- wrapped client, which waits for each operation before it answers, obeys them call by call.
  pub refreshable-IsLawful : IsEventual exo view → IsLawful (refreshable exo) view
  unfolding refreshable wait_for
  refreshable-IsLawful h = record {
    fetched = h.fetched;
    renamed = λ id req op w w'. waited (view id) (update_nlb id req) _ op w w' (h.renamed id req);
    added = λ id req op w w'. waited (view id) (add_service id req) _ op w w' (h.added id req);
    changed = λ id sid req op w w'.
        waited (view id) (update_service id sid req) _ op w w' (h.changed id sid req);
    removed = λ id op w w'. waited (view id) (delete_nlb id) _ op w w' (h.removed id);
    deleted =
        λ id sid op w w'. waited (view id) (delete_service id sid) _ op w w' (h.deleted id sid);
  }

-- ===== src/LoadBalancer/Update/Plan.antt =====
-- The specification of `updateLoadBalancer`: the requests that bring an NLB to what a Service asks
-- for, as a function of the NLB and of the Service's wishes, with no state and no loop variables.
use exoscale_cloud_controlle.Base.{
  String, Bool, not, ◌&&◌, Option, none, some, List, [], ◌∷◌, ◌++◌, map, ◌==◌, string_eq,
  if◌then◌else◌, keep_if, find_last, concat_map,
}
use exoscale_cloud_controlle.Cloud.Exoscale.{LoadBalancerService, LoadBalancer}
use exoscale_cloud_controlle.LoadBalancer.Build.{
  is_load_balancer_updated, is_load_balancer_service_updated,
}
use exoscale_cloud_controlle.LoadBalancer.Session.{
  Request, update_nlb, add_service, update_service, delete_service,
}
use exoscale_cloud_controlle.LoadBalancer.Update.{
  ServiceKey, key_eq, key_of, is_desired, add_request, update_request, nlb_request, pool_id,
}

-- The service that the NLB has for a key: the last one, if there are several.
abbrev pub current_for : ServiceKey → List LoadBalancerService → Option LoadBalancerService
current_for k = find_last (λ s. k == key_of s)

abbrev pub field_requests : Bool → LoadBalancer → LoadBalancer → List Request
field_requests external current update =
    if not external && is_load_balancer_updated current update
    then update_nlb update.id (nlb_request current update) ∷ []
    else []

-- Only an NLB that is not external loses the services that nobody asks for.
abbrev pub delete_requests :
    Bool → String → List LoadBalancerService → List LoadBalancerService → List Request
delete_requests external id desired services =
    if external
    then []
    else map (λ s. delete_service id s.id)
        (keep_if (λ s. not (is_desired desired (key_of s))) services)

-- A new pool takes a new service; any other difference is an update in place.
abbrev pub change_requests :
    LoadBalancer → LoadBalancer → LoadBalancerService → LoadBalancerService → List Request
change_requests current update s u =
    if not (pool_id s.instance_pool == pool_id u.instance_pool)
    then delete_service current.id s.id
      ∷ add_service current.id (add_request u (pool_id u.instance_pool))
      ∷ []
    else if is_load_balancer_service_updated s (record u { id = s.id })
    then update_service update.id s.id (update_request u) ∷ []
    else []

abbrev pub requests_for :
    LoadBalancer → LoadBalancer → LoadBalancerService → Option LoadBalancerService → List Request
requests_for current update u none =
    add_service current.id (add_request u (pool_id u.instance_pool)) ∷ []
requests_for current update u (some s) = change_requests current update s u

abbrev pub service_requests : LoadBalancer → LoadBalancer → LoadBalancerService → List Request
service_requests current update u =
    requests_for current update u (current_for (key_of u) current.services)

unfoldable pub plan : Bool → LoadBalancer → LoadBalancer → List Request
plan external current update =
    field_requests external current update
    ++ (delete_requests external current.id update.services current.services
        ++ concat_map (service_requests current update) update.services)

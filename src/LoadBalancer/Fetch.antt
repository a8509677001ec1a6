-- ===== src/LoadBalancer/Fetch.antt =====
-- `fetchLoadBalancer` and `GetLoadBalancer` (exoscale/loadbalancer.go, lines 68-92 and 581-599).
use exoscale_cloud_controlle.Base.{
  String, Bool, true, false, not, Option, none, some, ◌==◌, string_eq, if◌then◌else◌, ok, err,
  Action, Error, load_balancer_not_found, is_not_found, same_load_balancer_not_found, ◌>>=◌, gets,
  fail, map_error, pure, attempt,
}
use exoscale_cloud_controlle.Cloud.Exoscale.{Client, LoadBalancer}
use exoscale_cloud_controlle.LoadBalancer.Annotations.{get_annotation, annotation_id}
use exoscale_cloud_controlle.LoadBalancer.Session.{Session, call}

-- What the caller is told of an error of the API.
abbrev pub fetch_error : Error → Error
fetch_error e = if is_not_found e then load_balancer_not_found else e

module _ {W : Type 0} (client : Client W) where
  unfoldable pub fetch_load_balancer : Action (Session W) LoadBalancer
  unfolding get_annotation string_eq
  fetch_load_balancer = do
    service ← gets (λ s. s.service)
    let id = get_annotation service annotation_id ""
    if not (id == "")
        then map_error fetch_error (call (client.get_load_balancer id))
        else fail load_balancer_not_found

  -- The status holds one address; the flag says whether there is an NLB.
  unfoldable pub get_load_balancer : Action (Session W) (Option String × Bool)
  unfolding fetch_load_balancer
  get_load_balancer = do
    r ← attempt fetch_load_balancer
    elim r [
      | ok nlb ↦ pure (some nlb.ip, true)
      | err e ↦ if same_load_balancer_not_found e then pure (none, false) else fail e
    ]

-- ===== src/LoadBalancer/Session.antt =====
-- What a call of the load balancer controller works on: the Kubernetes Service object, which it
-- changes in place, the outside world, and, for the statements, the list of the requests that it has
-- sent so far and that change something outside. A request is in the list whether or not it succeeds.
use exoscale_cloud_controlle.Base.{String, List, [], ◌∷◌, ◌++◌, Action}
use exoscale_cloud_controlle.Cloud.Exoscale.{LoadBalancerRequest, ServiceRequest}
use exoscale_cloud_controlle.Cloud.Kubernetes.{Service}

pub data Request : Type 0 where
  create_nlb : LoadBalancerRequest → Request
  update_nlb : String → LoadBalancerRequest → Request
  delete_nlb : String → Request
  add_service : String → ServiceRequest → Request
  update_service : String → String → ServiceRequest → Request
  delete_service : String → String → Request
  -- namespace, name, patch
  patch_service : String → String → String → Request

pub record Session (W : Type 0) : Type 0 where
  pub service : Service
  pub world : W
  pub requests : List Request

module _ {W A : Type 0} where
  -- A call that only reads.
  abbrev pub call : Action W A → Action (Session W) A
  call m s = let (r, w) = m s.world in (r, record s { world = w })

  -- A call that sends the request.
  abbrev pub send : Request → Action W A → Action (Session W) A
  send q m s =
      let (r, w) = m s.world in (r, record s { world = w; requests = s.requests ++ (q ∷ []) })

-- ===== src/LoadBalancer/Delete.antt =====
-- `EnsureLoadBalancerDeleted` (exoscale/loadbalancer.go, lines 272-323).
pub mod Plan
pub mod Counted
pub mod Cleared
pub mod Deleted
pub mod Matching
pub mod Undone
pub mod Shared
pub mod Removed
use exoscale_cloud_controlle.Base.{
  String, Bool, true, false, not, ◌&&◌, Option, none, some, List, [], ◌∷◌, ◌==◌, int_eq, Eq,
  if◌then◌else◌, Result, ok, err, Action, Error, is_load_balancer_not_found, ◌>>=◌, ◌>>◌, gets,
  done, pure, fail, when, attempt, ℤ, pos, pred_ℤ, length,
}
use exoscale_cloud_controlle.Base.Text.{equal_fold}
use exoscale_cloud_controlle.Cloud.Exoscale.{Client, LoadBalancer, LoadBalancerService}
use exoscale_cloud_controlle.Cloud.Kubernetes.{Service, ServicePort}
use exoscale_cloud_controlle.LoadBalancer.Annotations.{is_external}
use exoscale_cloud_controlle.LoadBalancer.Fetch.{fetch_load_balancer}
use exoscale_cloud_controlle.LoadBalancer.Session.{Session, call, send, delete_service, delete_nlb}

-- The test of the inner loop.
unfoldable pub matches_port : LoadBalancerService → ServicePort → Bool
unfolding int_eq
matches_port s p = s.port == p.port && equal_fold s.protocol p.protocol

module _ {W : Type 0} (client : Client W) where
  -- The inner loop, from the number of services that remain.
  unfoldable pub delete_matching :
      LoadBalancer → LoadBalancerService → List ServicePort → ℤ → Action (Session W) ℤ
  unfolding matches_port
  delete_matching nlb s [] remaining = pure remaining
  delete_matching nlb s (p ∷ ports) remaining = elim (matches_port s p) [
    | true ↦
        send (delete_service nlb.id s.id) (client.delete_load_balancer_service nlb.id s.id) >>= λ _.
        delete_matching nlb s ports (pred_ℤ remaining)
    | false ↦ delete_matching nlb s ports remaining
  ]

  -- The outer loop.
  unfoldable pub delete_services :
      LoadBalancer → List ServicePort → List LoadBalancerService → ℤ → Action (Session W) ℤ
  unfolding delete_matching
  delete_services nlb ports [] remaining = pure remaining
  delete_services nlb ports (s ∷ services) remaining =
      delete_matching nlb s ports remaining >>= λ left. delete_services nlb ports services left

  -- What is left at the end decides on the NLB itself.
  unfoldable pub delete_of : Service → LoadBalancer → Action (Session W) (Unit {0})
  unfolding delete_services int_eq is_external
  delete_of service nlb = do
    remaining ← delete_services nlb service.ports nlb.services (pos (length nlb.services))
    when (remaining == pos 0 && not (is_external service))
        (send (delete_nlb nlb.id) (client.delete_load_balancer nlb.id) >> done)

  unfoldable pub delete_found : LoadBalancer → Action (Session W) (Unit {0})
  delete_found nlb = do service ← gets (λ s. s.service); delete_of service nlb

  unfoldable pub ensure_load_balancer_deleted : Action (Session W) (Unit {0})
  ensure_load_balancer_deleted = do
    fetched ← attempt (fetch_load_balancer client)
    elim fetched [
      | ok nlb ↦ delete_found nlb
      | err e ↦ if is_load_balancer_not_found e then done else fail e
    ]

-- ===== src/Tests/Status.antt =====
-- `GetLoadBalancer` after a run of `EnsureLoadBalancer`.
use exoscale_cloud_controlle.Base.{
  String, ◌≡◌, ◌∙◌, sym, ap, true, some, [], ◌==◌, string_eq, ok, Bool-cases, inl, inr,
}
use exoscale_cloud_controlle.Cloud.Exoscale.{LoadBalancer}
use exoscale_cloud_controlle.LoadBalancer.Annotations.{get_annotation, annotation_id}
use exoscale_cloud_controlle.LoadBalancer.Ensure.Status.{
  HasStaticAddresses, get_load_balancer-ensure_load_balancer, named_id,
}
use exoscale_cloud_controlle.LoadBalancer.Fetch.{get_load_balancer}
use exoscale_cloud_controlle.Tests.Convergence.{
  begin, after, after-fetched, after-service, ensure_ran, quiet_kube,
}
use exoscale_cloud_controlle.Tests.LawfulCloud.{World, seen, cloud, cloud-IsLawful, ok_inj, err_ok}
use exoscale_cloud_controlle.Tests.World.{account_nlb, finders}

cloud-address :
    (id : String) (n : LoadBalancer) (w w' : World)
    → cloud.get_load_balancer id w ≡ (ok n, w')
    → n.ip ≡ account_nlb.ip
unfolding cloud
cloud-address id n w w' h = elim (Bool-cases (id == "nlb-1")) [
  | inl e ↦ sym (ap (λ m. m.ip) (ok_inj (rw e at (ap (λ r. r.0) h))))
  | inr e ↦ absurd (err_ok (rw e at (ap (λ r. r.0) h)))
]

cloud-HasStaticAddresses : HasStaticAddresses cloud
cloud-HasStaticAddresses id n m w w' v v' h k =
    cloud-address id n w w' h ∙ sym (cloud-address id m v v' k)

after-named : named_id after ≡ "nlb-1"
unfolding get_annotation string_eq
after-named = ap (λ s. get_annotation s annotation_id "") after-service

get_load_balancer-ensure_load_balancer_example :
    get_load_balancer cloud after ≡ (ok (some "194.182.0.1", true), after)
get_load_balancer-ensure_load_balancer_example =
    get_load_balancer-ensure_load_balancer cloud seen cloud-IsLawful finders quiet_kube [] begin
      after "194.182.0.1" cloud-HasStaticAddresses ensure_ran after.world after.world
      (record account_nlb { services = after.world })
      (ap (λ i. cloud.get_load_balancer i after.world) after-named ∙ after-fetched)

-- ===== src/Tests/Hosts.antt =====
-- `UpdateLoadBalancer` after `EnsureLoadBalancer`, over an API that obeys the laws.
use exoscale_cloud_controlle.Base.{sym, subst, []}
use exoscale_cloud_controlle.LoadBalancer.Converge.Ports.{DistinctPorts}
use exoscale_cloud_controlle.LoadBalancer.Converge.Stable.{InPlace}
use exoscale_cloud_controlle.LoadBalancer.Ensure.Hosts.{
  SendsOnly, update_load_balancer_hosts-InPlace,
}
use exoscale_cloud_controlle.LoadBalancer.Update.{update_load_balancer_hosts}
use exoscale_cloud_controlle.Tests.World.{finders}
use exoscale_cloud_controlle.Tests.LawfulCloud.{seen, cloud, cloud-IsLawful}
use exoscale_cloud_controlle.Tests.Convergence.{
  quiet_kube, Orderly, cloud-IsQuiet, begin, begin-IsOrderly, after, after-service,
  web-DistinctPorts, ensure_ran,
}

update_load_balancer_hosts-InPlace_example :
    SendsOnly InPlace (update_load_balancer_hosts cloud [] after) after
update_load_balancer_hosts-InPlace_example =
    update_load_balancer_hosts-InPlace cloud seen cloud-IsLawful finders quiet_kube Orderly
      cloud-IsQuiet (λ id w p. p) [] [] begin after "194.182.0.1" begin-IsOrderly
      (subst (λ v. DistinctPorts v.ports) (sym after-service) web-DistinctPorts) ensure_ran

-- ===== src/Tests/Undone.antt =====
-- `updateLoadBalancer` and then `EnsureLoadBalancerDeleted` for a Service with an external NLB.
use exoscale_cloud_controlle.Base.{◌≡◌, refl, int_eq, nat_eq, string_eq, ok, ◌>>=◌}
use exoscale_cloud_controlle.Base.Dict.{lookup, insert}
use exoscale_cloud_controlle.Base.Text.{equal_fold}
use exoscale_cloud_controlle.LoadBalancer.Annotations.{is_external}
use exoscale_cloud_controlle.LoadBalancer.Build.{build_load_balancer, service_eq}
use exoscale_cloud_controlle.LoadBalancer.Delete.{
  matches_port, delete_matching, delete_services, delete_found, delete_of,
  ensure_load_balancer_deleted,
}
use exoscale_cloud_controlle.LoadBalancer.Delete.Undone.{
  IsUndone, ensure_load_balancer_deleted-update_load_balancer,
}
use exoscale_cloud_controlle.LoadBalancer.Fetch.{fetch_load_balancer}
use exoscale_cloud_controlle.LoadBalancer.Session.{Session}
use exoscale_cloud_controlle.LoadBalancer.Update.{key_eq, reconcile, update_load_balancer}
use exoscale_cloud_controlle.Tests.World.{account_nlb, web_external}
use exoscale_cloud_controlle.Tests.LawfulCloud.{World, seen, cloud, cloud-IsLawful}
use exoscale_cloud_controlle.Tests.Convergence.{
  begin, begin-IsOrderly, cloud-fetched, web-DistinctPorts,
}
use exoscale_cloud_controlle.Tests.LoadBalancers.{wanted, external_built, id_given}

abbrev pub at_first : Session World
at_first = record begin { service = web_external }

abbrev pub updated : Session World
updated = (update_load_balancer cloud at_first).1

abbrev emptied : Session World
emptied = (ensure_load_balancer_deleted cloud updated).1

pub updated-ran : update_load_balancer cloud at_first ≡ (ok tt, updated)
unfolding update_load_balancer cloud ◌>>=◌ key_eq lookup insert service_eq string_eq
    build_load_balancer reconcile is_external
updated-ran = refl

pub updated-told :
    cloud.get_load_balancer "nlb-1" updated.world
    ≡ (ok (record account_nlb { services = updated.world }), updated.world)
unfolding cloud
updated-told = refl

emptied-ran : ensure_load_balancer_deleted cloud updated ≡ (ok tt, emptied)
unfolding ensure_load_balancer_deleted delete_found delete_of delete_services delete_matching
    matches_port fetch_load_balancer ◌>>=◌ cloud string_eq equal_fold int_eq is_external
    update_load_balancer key_eq lookup insert service_eq build_load_balancer reconcile
emptied-ran = refl

ensure_load_balancer_deleted-update_load_balancer_example :
    IsUndone
      (is_external web_external)
      web_external.ports
      (seen "nlb-1" at_first.world)
      (seen "nlb-1" emptied.world)
ensure_load_balancer_deleted-update_load_balancer_example =
    ensure_load_balancer_deleted-update_load_balancer cloud seen cloud-IsLawful at_first updated
      emptied {update = wanted} {current = account_nlb}
      {next = record account_nlb { services = updated.world }} {w = at_first.world}
      {v = updated.world} external_built id_given cloud-fetched begin-IsOrderly web-DistinctPorts
      updated-ran updated-told emptied-ran

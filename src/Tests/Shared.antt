-- ===== src/Tests/Shared.antt =====
-- Two Services on one external NLB, of which the second goes again.
use exoscale_cloud_controlle.Base.{
  ◌≡◌, refl, true, [], ◌∷◌, int_eq, nat_eq, string_eq, ok, ◌>>=◌, some, pos, arith,
}
use exoscale_cloud_controlle.Base.Dict.{lookup, insert}
use exoscale_cloud_controlle.Base.Text.{equal_fold}
use exoscale_cloud_controlle.Cloud.Exoscale.{LoadBalancer, LoadBalancerService}
use exoscale_cloud_controlle.Cloud.Kubernetes.{Service, ServicePort}
use exoscale_cloud_controlle.LoadBalancer.Annotations.{is_external}
use exoscale_cloud_controlle.LoadBalancer.Build.{build_load_balancer, service_eq}
use exoscale_cloud_controlle.LoadBalancer.Delete.{
  matches_port, delete_matching, delete_services, delete_found, delete_of,
  ensure_load_balancer_deleted,
}
use exoscale_cloud_controlle.LoadBalancer.Delete.Shared.{ServesBoth, Strangers, shared_nlb}
use exoscale_cloud_controlle.LoadBalancer.Fetch.{fetch_load_balancer}
use exoscale_cloud_controlle.LoadBalancer.Session.{Session}
use exoscale_cloud_controlle.LoadBalancer.Update.{key_eq, reconcile, update_load_balancer}
use exoscale_cloud_controlle.Tests.World.{account_nlb, web_external, http, check_30080}
use exoscale_cloud_controlle.Tests.LawfulCloud.{World, seen, cloud, cloud-IsLawful}
use exoscale_cloud_controlle.Tests.Convergence.{begin-IsOrderly, cloud-fetched, web-DistinctPorts}
use exoscale_cloud_controlle.Tests.LoadBalancers.{wanted, external_built, id_given}
use exoscale_cloud_controlle.Tests.Undone.{at_first, updated, updated-ran, updated-told}

abbrev port_443 : ServicePort
port_443 = record { port = pos 443; node_port = pos 30443; protocol = "TCP" }

abbrev second : Service
second = record web_external { uid = "other"; ports = port_443 ∷ [] }

abbrev tls : LoadBalancerService
tls = record http {
  id = "";
  name = "other-443";
  port = pos 443;
  target_port = pos 30443;
  healthcheck = some (record check_30080 { port = pos 30443 });
  state = "";
}

abbrev second_wanted : LoadBalancer
second_wanted = record wanted { name = "k8s-other"; services = tls ∷ [] }

second-built : build_load_balancer second ≡ ok second_wanted
unfolding build_load_balancer
second-built = refl

second-external : is_external second ≡ true
unfolding is_external string_eq
second-external = refl

strangers : Strangers web_external.ports second.ports
strangers = (
  ((λ e _. let f : pos 80 ≡ pos 443 = e in ground arith), tt),
  (((λ e _. let f : pos 53 ≡ pos 443 = e in ground arith), tt), tt),
)

abbrev both : Session World
both = (update_load_balancer cloud (record updated { service = second })).1

abbrev first_again : Session World
first_again = (ensure_load_balancer_deleted cloud both).1

both-ran : update_load_balancer cloud (record updated { service = second }) ≡ (ok tt, both)
unfolding update_load_balancer cloud ◌>>=◌ key_eq lookup insert service_eq string_eq
    build_load_balancer reconcile is_external
both-ran = refl

both-told :
    cloud.get_load_balancer "nlb-1" both.world
    ≡ (ok (record account_nlb { services = both.world }), both.world)
unfolding cloud
both-told = refl

first_again-ran : ensure_load_balancer_deleted cloud both ≡ (ok tt, first_again)
unfolding ensure_load_balancer_deleted delete_found delete_of delete_services delete_matching
    matches_port fetch_load_balancer ◌>>=◌ cloud string_eq equal_fold int_eq is_external
    update_load_balancer key_eq lookup insert service_eq build_load_balancer reconcile
first_again-ran = refl

shared_nlb_example :
    ServesBoth wanted.services second_wanted.services second.ports
      (seen "nlb-1" both.world)
      (seen "nlb-1" first_again.world)
shared_nlb_example =
    shared_nlb cloud seen cloud-IsLawful at_first updated both first_again second {a = wanted}
      {b = second_wanted} {current_a = account_nlb}
      {current_b = record account_nlb { services = updated.world }}
      {next = record account_nlb { services = both.world }} {w = at_first.world}
      {w1 = updated.world} {w2 = both.world} external_built second-built id_given refl
      second-external begin-IsOrderly web-DistinctPorts (tt, tt) strangers cloud-fetched updated-ran
      updated-told both-ran both-told first_again-ran

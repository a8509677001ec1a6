-- ===== src/LoadBalancer/Delete/Undone.antt =====
-- What `EnsureLoadBalancerDeleted` leaves of a run of `updateLoadBalancer` for the same Service.
use exoscale_cloud_controlle.Base.{
  String, ◌≡◌, ◌∙◌, sym, ap, subst, ◌≢◌, ◌↔◌, Bool, true, false, List, nat_eq, int_eq, string_eq,
  ok,
}
use exoscale_cloud_controlle.Cloud.Exoscale.{Client, LoadBalancer, LoadBalancerService}
use exoscale_cloud_controlle.Cloud.Kubernetes.{ServicePort}
use exoscale_cloud_controlle.LoadBalancer.Annotations.{is_external, get_annotation, annotation_id}
use exoscale_cloud_controlle.LoadBalancer.Build.{build_load_balancer}
use exoscale_cloud_controlle.LoadBalancer.Build.Keys.{
  build_load_balancer-Zip, build_load_balancer-id,
}
use exoscale_cloud_controlle.LoadBalancer.Converge.Ports.{DistinctPorts, built-DistinctKeys}
use exoscale_cloud_controlle.LoadBalancer.Converge.Reached.{update_load_balancer-IsReached}
use exoscale_cloud_controlle.LoadBalancer.Converge.Rounds.{IsOrderly}
use exoscale_cloud_controlle.LoadBalancer.Converge.Stable.{update_load_balancer-service}
use exoscale_cloud_controlle.LoadBalancer.Delete.{ensure_load_balancer_deleted}
use exoscale_cloud_controlle.LoadBalancer.Delete.Counted.{Apart, IsCleared, matches_any}
use exoscale_cloud_controlle.LoadBalancer.Delete.Deleted.{ensure_load_balancer_deleted-IsCleared}
use exoscale_cloud_controlle.LoadBalancer.Ensure.Status.{fetched_named, named_id}
use exoscale_cloud_controlle.LoadBalancer.Lawful.{Services, IsLawful}
use exoscale_cloud_controlle.LoadBalancer.Session.{Session}
use exoscale_cloud_controlle.LoadBalancer.Update.{key_eq, update_load_balancer}
use exoscale_cloud_controlle.LoadBalancer.Delete.Matching.{undesired, distinct-Apart}

-- An external NLB has the services that it had and that match none of the ports; another has none.
abbrev pub IsUndone : Bool → List ServicePort → Services → Services → Type 0
IsUndone external ports S T =
    (y : LoadBalancerService) → T y ↔ (S y × (matches_any ports y ≡ false) × (external ≡ true))

module _ {W : Type 0} (client : Client W) (view : String → W → Services)
    (lawful : IsLawful client view) where
  -- The second run, over what the first has left.
  emptied :
      (s t u : Session W) {update next : LoadBalancer} {v : W}
      → build_load_balancer s.service ≡ ok update
      → update.id ≢ ""
      → t.service ≡ s.service
      → client.get_load_balancer update.id t.world ≡ (ok next, v)
      → IsOrderly (view update.id t.world)
      → Apart s.service.ports
      → ensure_load_balancer_deleted client t ≡ (ok tt, u)
      → IsCleared s.service.ports (view update.id t.world) (view update.id u.world)
  emptied s t u {update} {next} {v} built given service told orderly apart h =
      let named : update.id ≡ named_id t =
        build_load_balancer-id s.service update built
        ∙ ap (λ x. get_annotation x annotation_id "") (sym service) in
      let (same, _, _) = lawful.fetched update.id next t.world v told in
      let found =
        fetched_named client t (λ e. given (named ∙ e))
          (subst (λ i. client.get_load_balancer i t.world ≡ (ok next, v)) named told) in
      subst (λ i. IsCleared s.service.ports (view i t.world) (view i u.world)) same
        (subst (λ x. IsCleared x.ports (view next.id t.world) (view next.id u.world)) service
          (ensure_load_balancer_deleted-IsCleared client view lawful t u
            (subst (λ i. client.get_load_balancer i t.world ≡ (ok next, v)) (sym same) told) found
            (subst (λ i. IsOrderly (view i t.world)) (sym same) orderly)
            (subst (λ x. Apart x.ports) (sym service) apart) h))

  -- Over an API that tells an NLB as it is and applies the requests that it accepts, if no two services
  -- of the NLB have one ID or one port number and protocol, and the Service's ports differ in number or
  -- protocol: after a run of `updateLoadBalancer` and then one of `EnsureLoadBalancerDeleted`, neither
  -- of which returned an error, an external NLB has exactly the services that it had at first and that
  -- match none of the ports, each as it was, and another NLB has none.
  pub ensure_load_balancer_deleted-update_load_balancer :
      (s t u : Session W) {update current next : LoadBalancer} {w v : W}
      → build_load_balancer s.service ≡ ok update
      → update.id ≢ ""
      → client.get_load_balancer update.id s.world ≡ (ok current, w)
      → IsOrderly (view update.id s.world)
      → DistinctPorts s.service.ports
      → update_load_balancer client s ≡ (ok tt, t)
      → client.get_load_balancer update.id t.world ≡ (ok next, v)
      → ensure_load_balancer_deleted client t ≡ (ok tt, u)
      → IsUndone
          (is_external s.service)
          s.service.ports
          (view update.id s.world)
          (view update.id u.world)
  ensure_load_balancer_deleted-update_load_balancer s t u {update} {current} {next} {w} {v} built
        given fetched orderly distinct ran told deleted y =
      let zip = build_load_balancer-Zip s.service update built in
      let service = update_load_balancer-service client s t built given fetched ran in
      let reached =
        update_load_balancer-IsReached client view lawful s t built given fetched orderly
          (built-DistinctKeys s.service update built distinct) ran in
      let cleared =
        emptied s t u built given service told reached.orderly
          (distinct-Apart update.services s.service.ports zip distinct) deleted y in
      let others = λ (e : matches_any s.service.ports y ≡ false).
        reached.others y (undesired update.services s.service.ports y zip e) in
      (
        λ m. let (n, e) = cleared.0 m in let (k, x) = (others e).0 n in (k, e, x),
        λ (k, e, x). cleared.1 ((others e).1 (k, x), e),
      )

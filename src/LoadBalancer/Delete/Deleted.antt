-- ===== src/LoadBalancer/Delete/Deleted.antt =====
-- The services that `EnsureLoadBalancerDeleted` leaves, over an API that obeys the laws.
use exoscale_cloud_controlle.Base.{
  String, ◌≡◌, refl, ◌∙◌, sym, int_eq, nat_eq, string_eq, ok, bind-eq, attempt, gets,
}
use exoscale_cloud_controlle.Cloud.Exoscale.{Client, LoadBalancer}
use exoscale_cloud_controlle.LoadBalancer.Annotations.{is_external}
use exoscale_cloud_controlle.LoadBalancer.Converge.Rounds.{IsOrderly}
use exoscale_cloud_controlle.LoadBalancer.Delete.{
  delete_found, delete_of, ensure_load_balancer_deleted,
}
use exoscale_cloud_controlle.LoadBalancer.Delete.Counted.{Apart, IsCleared}
use exoscale_cloud_controlle.LoadBalancer.Delete.Cleared.{delete_plan-IsCleared}
use exoscale_cloud_controlle.LoadBalancer.Delete.Plan.{delete_plan, delete_of-Runs}
use exoscale_cloud_controlle.LoadBalancer.Fetch.{fetch_load_balancer}
use exoscale_cloud_controlle.LoadBalancer.Lawful.{Services, IsLawful, Effect, lawful-Obeys}
use exoscale_cloud_controlle.LoadBalancer.Runs.{Runs-ok}
use exoscale_cloud_controlle.LoadBalancer.Sends.{Any}
use exoscale_cloud_controlle.LoadBalancer.Session.{Session}

module _ {W : Type 0} (client : Client W) (view : String → W → Services)
    (lawful : IsLawful client view) where
  deleted_run :
      (s : Session W) {nlb : LoadBalancer} {w : W}
      → fetch_load_balancer client s ≡ (ok nlb, record s { world = w })
      → ensure_load_balancer_deleted client s
        ≡ delete_of client s.service nlb (record s { world = w })
  unfolding ensure_load_balancer_deleted delete_found
  deleted_run s {nlb} {w} fetched =
      let t = record s { world = w } in
      bind-eq (attempt (fetch_load_balancer client)) _ s (ok nlb) t
        (λ i. (ok (fetched i).0, (fetched i).1))
      ∙ bind-eq (gets (λ s. s.service)) (λ v. delete_of client v nlb) t s.service t refl

  -- If the API tells the NLB as it is and applies the requests that it accepts, no two services of the
  -- NLB have one ID or one port number and protocol, and no service can match two of the Service's
  -- ports, then a run of `EnsureLoadBalancerDeleted` that found the NLB and returns no error leaves
  -- exactly the services that match none of the ports, whether or not it deletes the NLB: the NLB goes
  -- only if it had no other services.
  pub ensure_load_balancer_deleted-IsCleared :
      (s t : Session W) {nlb : LoadBalancer} {w : W}
      → client.get_load_balancer nlb.id s.world ≡ (ok nlb, w)
      → fetch_load_balancer client s ≡ (ok nlb, record s { world = w })
      → IsOrderly (view nlb.id s.world)
      → Apart s.service.ports
      → ensure_load_balancer_deleted client s ≡ (ok tt, t)
      → IsCleared s.service.ports (view nlb.id s.world) (view nlb.id t.world)
  ensure_load_balancer_deleted-IsCleared s t {nlb} {w} told fetched orderly apart h =
      let (_, kept, listed) = lawful.fetched nlb.id nlb s.world w told in
      let effects =
        Runs-ok Effect (view nlb.id) Any (delete_plan (is_external s.service) s.service.ports nlb) _
          (record s { world = w }) t tt
          (delete_of-Runs Effect (view nlb.id) client nlb
            (lawful-Obeys client view lawful nlb.id nlb.id refl) s.service (record s { world = w }))
          (sym (deleted_run s fetched) ∙ h) in
      let cleared =
        delete_plan-IsCleared (view nlb.id) (is_external s.service) s.service.ports nlb w t.world
          (rw kept orderly) (rw kept listed) apart effects in
      rw kept at cleared

-- ===== src/LoadBalancer/Converge/Reached.antt =====
-- Where a run of `updateLoadBalancer` leaves the services of an NLB, and what the next run does.
use exoscale_cloud_controlle.Base.{String, ◌≡◌, ◌∙◌, sym, subst, ◌≢◌, ok, string_eq}
use exoscale_cloud_controlle.Cloud.Exoscale.{Client, LoadBalancer}
use exoscale_cloud_controlle.LoadBalancer.Annotations.{is_external}
use exoscale_cloud_controlle.LoadBalancer.Build.{build_load_balancer}
use exoscale_cloud_controlle.LoadBalancer.Lawful.{Services, IsLawful, Effect, Effects, lawful-Obeys}
use exoscale_cloud_controlle.LoadBalancer.Runs.{Runs-ok}
use exoscale_cloud_controlle.LoadBalancer.Session.{Session}
use exoscale_cloud_controlle.LoadBalancer.Sends.{Any}
use exoscale_cloud_controlle.LoadBalancer.Update.{update_load_balancer}
use exoscale_cloud_controlle.LoadBalancer.Update.Plan.{plan}
use exoscale_cloud_controlle.LoadBalancer.Update.Refinement.{
  reconcile-Runs, update_load_balancer-reconcile,
}
use exoscale_cloud_controlle.LoadBalancer.Converge.Rounds.{IsOrderly}
use exoscale_cloud_controlle.LoadBalancer.Converge.Loops.{DistinctKeys}
use exoscale_cloud_controlle.LoadBalancer.Converge.Kept.{IsReached}
use exoscale_cloud_controlle.LoadBalancer.Converge.Planned.{plan-IsReached}

module _ {W : Type 0} (client : Client W) (view : String → W → Services)
    (lawful : IsLawful client view) where
  -- If the API tells the NLB as it is and applies the requests that it accepts, and neither the NLB nor
  -- the Service has two services of one port number and protocol, then a run of `updateLoadBalancer`
  -- that returns no error leaves the NLB with a service for each that the Service asks for, with its
  -- port, protocol and pool, and with each other setting that it does not ask for empty; of the other
  -- services an NLB that is not external has lost all, and an external one has kept all.
  pub update_load_balancer-IsReached :
      (s t : Session W) {update current : LoadBalancer} {w : W}
      → build_load_balancer s.service ≡ ok update
      → update.id ≢ ""
      → client.get_load_balancer update.id s.world ≡ (ok current, w)
      → IsOrderly (view update.id s.world)
      → DistinctKeys update.services
      → update_load_balancer client s ≡ (ok tt, t)
      → IsReached
          (is_external s.service)
          update.services
          (view update.id s.world)
          (view update.id t.world)
  update_load_balancer-IsReached s t {update} {current} {w} built id fetched orderly distinct h =
      let (same, kept, listed) = lawful.fetched update.id current s.world w fetched in
      let run = sym (update_load_balancer-reconcile client s built id fetched) ∙ h in
      let effects =
        Runs-ok Effect (view current.id) Any (plan (is_external s.service) current update) _
          (record s { world = w }) t tt
          (reconcile-Runs Effect (view current.id) client current update
            (lawful-Obeys client view lawful current.id update.id same) (is_external s.service)
            (record s { world = w }))
          run in
      let reached =
        plan-IsReached (view update.id) current update (is_external s.service) w t.world
          (rw kept orderly) (rw kept listed) distinct
          (subst (λ j. Effects (view j) (plan (is_external s.service) current update) w t.world)
            same effects) in
      rw kept at reached

-- ===== src/LoadBalancer/Delete/Shared.antt =====
-- Two Services that share an external NLB.
use exoscale_cloud_controlle.Base.{
  String, ◌≡◌, ◌∙◌, sym, subst, ◌≢◌, true, false, List, [], ◌∷◌, ◌==◌, ok, All, arith,
}
use exoscale_cloud_controlle.Cloud.Exoscale.{Client, LoadBalancer, LoadBalancerService}
use exoscale_cloud_controlle.Cloud.Kubernetes.{Service, ServicePort}
use exoscale_cloud_controlle.LoadBalancer.Annotations.{is_external}
use exoscale_cloud_controlle.LoadBalancer.Build.{build_load_balancer}
use exoscale_cloud_controlle.LoadBalancer.Build.Keys.{Zip, build_load_balancer-Zip}
use exoscale_cloud_controlle.LoadBalancer.Converge.Loops.{AllSettled}
use exoscale_cloud_controlle.LoadBalancer.Converge.Ports.{Differ, DistinctPorts, built-DistinctKeys}
use exoscale_cloud_controlle.LoadBalancer.Converge.Reached.{update_load_balancer-IsReached}
use exoscale_cloud_controlle.LoadBalancer.Converge.Rounds.{IsOrderly}
use exoscale_cloud_controlle.LoadBalancer.Delete.{ensure_load_balancer_deleted}
use exoscale_cloud_controlle.LoadBalancer.Delete.Counted.{matches_any}
use exoscale_cloud_controlle.LoadBalancer.Delete.Matching.{matched, unmatched-any, undesired}
use exoscale_cloud_controlle.LoadBalancer.Delete.Undone.{
  ensure_load_balancer_deleted-update_load_balancer,
}
use exoscale_cloud_controlle.LoadBalancer.Lawful.{Services, IsLawful}
use exoscale_cloud_controlle.LoadBalancer.Session.{Session}
use exoscale_cloud_controlle.LoadBalancer.Update.{key_eq, key_of, update_load_balancer}

-- No port of the one Service has the number and the protocol of a port of the other.
abbrev pub Strangers : List ServicePort → List ServicePort → Type 0
Strangers ps qs = All (λ p. All (Differ p) qs) ps

-- With both Services the NLB has what either asks for, and without the second Service what the first
-- asks for and nothing for the ports of the second.
abbrev pub ServesBoth :
    List LoadBalancerService
    → List LoadBalancerService
    → List ServicePort
    → Services
    → Services
    → Type 0
ServesBoth us vs qs T U =
    (AllSettled us T × AllSettled vs T)
    × AllSettled us U
    × ((y : LoadBalancerService) → U y → matches_any qs y ≡ false)

same_key : (x u : LoadBalancerService) → key_of x ≡ key_of u → (key_of x == key_of u) ≡ true
same_key x u e = ground arith

-- A change that leaves the services that match none of `qs` leaves the services of stranger ports.
settled-stays :
    {S T : Services} (us vs : List LoadBalancerService) (ps qs : List ServicePort)
    → Zip us ps
    → Zip vs qs
    → Strangers ps qs
    → ((y : LoadBalancerService) → matches_any qs y ≡ false → S y → T y)
    → AllSettled us S
    → AllSettled us T
settled-stays [] vs ps qs z w d stays h = tt
settled-stays (u ∷ us) vs [] qs z w d stays h = absurd z
settled-stays {S} {T} (u ∷ us) vs (p ∷ ps) qs z w d stays h =
    let (x, m, settled) = h.0 in
    let (_, _, _, hp) = z.0 in
    let e : (key_of x == key_of u) ≡ true = same_key x u settled.key in
    (
      (x, stays x (unmatched-any x p vs qs hp w d.0 (matched x u p z.0 e)) m, settled),
      settled-stays us vs ps qs z.1 w d.1 stays h.1,
    )

module _ {W : Type 0} (client : Client W) (view : String → W → Services)
    (lawful : IsLawful client view) where
  -- Over an API that tells an NLB as it is and applies the requests that it accepts, where two Services
  -- name one NLB, on which no two services have one ID or one port number and protocol, all ports of
  -- the two Services differ in number or protocol, and the NLB is external to the second Service: after
  -- runs of `updateLoadBalancer` for the first Service and then for the second, neither of which
  -- returned an error, the NLB has all the services that either of them asks for, with their settings;
  -- and after a run of `EnsureLoadBalancerDeleted` for the second Service that returned no error, it
  -- still has all those of the first, and no service that matches a port of the second.
  pub shared_nlb :
      (s t u v : Session W) (other : Service) {a b current_a current_b next : LoadBalancer}
      {w w1 w2 : W}
      → build_load_balancer s.service ≡ ok a
      → build_load_balancer other ≡ ok b
      → a.id ≢ ""
      → b.id ≡ a.id
      → is_external other ≡ true
      → IsOrderly (view a.id s.world)
      → DistinctPorts s.service.ports
      → DistinctPorts other.ports
      → Strangers s.service.ports other.ports
      → client.get_load_balancer a.id s.world ≡ (ok current_a, w)
      → update_load_balancer client s ≡ (ok tt, t)
      → client.get_load_balancer b.id t.world ≡ (ok current_b, w1)
      → update_load_balancer client (record t { service = other }) ≡ (ok tt, u)
      → client.get_load_balancer b.id u.world ≡ (ok next, w2)
      → ensure_load_balancer_deleted client u ≡ (ok tt, v)
      → ServesBoth a.services b.services other.ports (view a.id u.world) (view a.id v.world)
  shared_nlb s t u v other {a} {b} built_a built_b given one external orderly distinct_a distinct_b
        strangers fetched_a ran_a fetched_b ran_b told deleted =
      let zip_a = build_load_balancer-Zip s.service a built_a in
      let zip_b = build_load_balancer-Zip other b built_b in
      let given_b : b.id ≢ "" = λ e. given (sym one ∙ e) in
      let first =
        update_load_balancer-IsReached client view lawful s t built_a given fetched_a orderly
          (built-DistinctKeys s.service a built_a distinct_a) ran_a in
      let before : IsOrderly (view b.id t.world) =
        subst (λ i. IsOrderly (view i t.world)) (sym one) first.orderly in
      let second =
        update_load_balancer-IsReached client view lawful (record t { service = other }) u built_b
          given_b fetched_b before (built-DistinctKeys other b built_b distinct_b) ran_b in
      let undone =
        ensure_load_balancer_deleted-update_load_balancer client view lawful
          (record t { service = other }) u v built_b given_b fetched_b before distinct_b ran_b told
          deleted in
      let reached = rw one at second in
      let cleared = rw one at undone in
      let stay =
        λ (T : Services)
            (h : (y : LoadBalancerService)
              → matches_any other.ports y ≡ false
              → view a.id t.world y
              → T y).
          settled-stays {S = view a.id t.world} {T = T} a.services b.services s.service.ports
            other.ports zip_a zip_b strangers h first.settled in
      (
        (
          stay (view a.id u.world) (λ y e m.
              (reached.others y (undesired b.services other.ports y zip_b e)).1 (m, external)),
          reached.settled,
        ),
        stay (view a.id v.world) (λ y e m. (cleared y).1 (m, e, external)),
        λ y m. ((cleared y).0 m).1,
      )

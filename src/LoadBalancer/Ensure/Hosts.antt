-- ===== src/LoadBalancer/Ensure/Hosts.antt =====
-- `UpdateLoadBalancer` after `EnsureLoadBalancer`, as the service controller of Kubernetes calls them.
use mathlib.Core.List.{append-nil}
use exoscale_cloud_controlle.Base.{
  String, ◌≡◌, refl, ◌∙◌, ap, List, [], ◌++◌, ◌==◌, string_eq, Bool-cases, Result-cases, inl, inr,
  Result, ok, err, Error, All, arith,
}
use exoscale_cloud_controlle.Cloud.Exoscale.{Client, Finders}
use exoscale_cloud_controlle.Cloud.Kubernetes.{Kube, Node}
use exoscale_cloud_controlle.LoadBalancer.Build.{build_load_balancer}
use exoscale_cloud_controlle.LoadBalancer.Converge.Ports.{DistinctPorts}
use exoscale_cloud_controlle.LoadBalancer.Converge.Rounds.{IsOrderly}
use exoscale_cloud_controlle.LoadBalancer.Converge.Stable.{InPlace, reached-InPlace}
use exoscale_cloud_controlle.LoadBalancer.Ensure.{ensure_load_balancer}
use exoscale_cloud_controlle.LoadBalancer.Ensure.Ensured.{ensure_load_balancer-IsEnsured}
use exoscale_cloud_controlle.LoadBalancer.Ensure.Quiet.{IsQuiet}
use exoscale_cloud_controlle.LoadBalancer.Lawful.{Services, IsLawful}
use exoscale_cloud_controlle.LoadBalancer.Session.{Request, Session}
use exoscale_cloud_controlle.LoadBalancer.Update.{update_load_balancer_hosts}
use exoscale_cloud_controlle.LoadBalancer.Update.Safety.{update_load_balancer_refused}
use exoscale_cloud_controlle.LoadBalancer.Ensure.Willing.{given_text}

-- All the requests that the call sends are of the kind.
abbrev pub SendsOnly :
    {W : Type 0} → (Request → Type 0) → Result (Unit {0}) × Session W → Session W → Type 0
SendsOnly K r s = (sent : List Request) × (r.1.requests ≡ s.requests ++ sent) × All K sent

nothing_sent :
    {W : Type 0} {K : Request → Type 0} {r : Result (Unit {0}) × Session W} (s t : Session W)
    (e : Error)
    → r ≡ (err e, t)
    → t.requests ≡ s.requests
    → SendsOnly K r s
nothing_sent s t e h same = ([], ap (λ x. x.1.requests) h ∙ same ∙ rw append-nil, tt)

module _ {W : Type 0} (client : Client W) (view : String → W → Services)
    (lawful : IsLawful client view) (finders : Finders) (kube : Kube W) (P : W → Type 0)
    (quiet : IsQuiet client kube P)
    (orderly : (id : String) (w : W) → P w → IsOrderly (view id w)) where
  -- Over an API that applies the requests that it accepts, if the calls that are not about services
  -- keep a property of the account that lets no two services of an NLB have one ID or one port number
  -- and protocol, and the property held at the start: once `EnsureLoadBalancer` has returned an address
  -- for a Service whose ports differ in number or protocol, `UpdateLoadBalancer`, for the Service as it
  -- was left and any nodes, neither adds nor deletes a service nor creates or deletes an NLB: whatever
  -- the API answers, it sends only updates of the NLB's own fields and of services in place.
  pub update_load_balancer_hosts-InPlace :
      (nodes others : List Node) (s t : Session W) (ip : String)
      → P s.world
      → DistinctPorts t.service.ports
      → ensure_load_balancer client finders kube nodes s ≡ (ok ip, t)
      → SendsOnly InPlace (update_load_balancer_hosts client others t) t
  unfolding update_load_balancer_hosts
  update_load_balancer_hosts-InPlace nodes others s t ip p distinct h =
      let (update, nlb, w, built, adopted, same, address, p', reached) =
        ensure_load_balancer-IsEnsured client view lawful finders kube P quiet orderly nodes s t ip
          p distinct h in
      let (_, unnamed, unfetched) =
        update_load_balancer_refused client t (build_load_balancer t.service) refl in
      elim (Bool-cases (update.id == "")) [
        | inl e ↦ nothing_sent t t _ (unnamed update built (ground arith)) refl
        | inr e ↦
            let given = given_text update.id e in
            let w = (client.get_load_balancer update.id t.world).1 in
            elim (Result-cases (client.get_load_balancer update.id t.world).0) [
              | inl (next, k) ↦
                  reached-InPlace client view lawful t {v = w} built given reached (λ i. (k i, w))
              | inr (e, k) ↦
                  nothing_sent t (record t { world = w }) e
                    (unfetched update e w built given (λ i. (k i, w))) refl
            ]
      ]

-- ===== src/LoadBalancer/Converge/Ports.antt =====
-- A Service whose ports differ in their number or their protocol asks for services of different keys.
use exoscale_cloud_controlle.Base.{
  ◌≡◌, ◌∙◌, sym, ap, ◌≢◌, true, false, List, [], ◌∷◌, string_eq, ◌==◌, ok, All, inl, inr,
}
use exoscale_cloud_controlle.Base.Text.{to_lower}
use exoscale_cloud_controlle.Cloud.Exoscale.{LoadBalancerService, LoadBalancer}
use exoscale_cloud_controlle.Cloud.Kubernetes.{Service, ServicePort}
use exoscale_cloud_controlle.LoadBalancer.Build.{build_load_balancer, is_supported}
use exoscale_cloud_controlle.LoadBalancer.Build.Keys.{Serves, Zip, build_load_balancer-Zip}
use exoscale_cloud_controlle.LoadBalancer.Build.Names.{tcp_or_udp}
use exoscale_cloud_controlle.LoadBalancer.Converge.Loops.{DistinctKeys}
use exoscale_cloud_controlle.LoadBalancer.Update.{key_of}

-- What the API of Kubernetes requires of the ports of a Service.
abbrev pub Differ : ServicePort → ServicePort → Type 0
Differ p q = p.port ≡ q.port → p.protocol ≢ q.protocol

abbrev pub DistinctPorts : List ServicePort → Type 0
DistinctPorts [] = Unit {0}
DistinctPorts (p ∷ ports) = All (Differ p) ports × DistinctPorts ports

lower_differ : to_lower "TCP" ≢ to_lower "UDP"
unfolding to_lower string_eq
lower_differ e = let f : true ≡ false = ap (λ t. t == "tcp") e in cc

to_lower-injective :
    (p q : ServicePort)
    → is_supported p ≡ true
    → is_supported q ≡ true
    → to_lower p.protocol ≡ to_lower q.protocol
    → p.protocol ≡ q.protocol
to_lower-injective p q hp hq e = elim (tcp_or_udp p hp) [
  | inl a ↦ elim (tcp_or_udp q hq) [
    | inl b ↦ a ∙ sym b
    | inr b ↦ absurd (lower_differ (ap to_lower (sym a) ∙ e ∙ ap to_lower b))
  ]
  | inr a ↦ elim (tcp_or_udp q hq) [
    | inl b ↦ absurd (lower_differ (ap to_lower (sym b) ∙ sym e ∙ ap to_lower a))
    | inr b ↦ a ∙ sym b
  ]
]

served-Differ :
    (s : LoadBalancerService) (p : ServicePort) (services : List LoadBalancerService)
    (ports : List ServicePort)
    → Serves s p
    → Zip services ports
    → All (Differ p) ports
    → All (λ v. key_of v ≢ key_of s) services
served-Differ s p [] ports h z d = tt
served-Differ s p (v ∷ services) [] h z d = absurd z
served-Differ s p (v ∷ services) (q ∷ ports) h z d =
    let (ps, _, rs, us) = h in
    let (pv, _, rv, uv) = z.0 in
    (
      λ e.
          let port : p.port ≡ q.port = sym ps ∙ ap (λ k. k.port) (sym e) ∙ pv in
          let protocol =
            to_lower-injective p q us uv (sym rs ∙ ap (λ k. k.protocol) (sym e) ∙ rv) in
          d.0 port protocol,
      served-Differ s p services ports h z.1 d.1,
    )

Zip-DistinctKeys :
    (services : List LoadBalancerService) (ports : List ServicePort)
    → Zip services ports
    → DistinctPorts ports
    → DistinctKeys services
Zip-DistinctKeys [] ports z d = tt
Zip-DistinctKeys (s ∷ services) [] z d = absurd z
Zip-DistinctKeys (s ∷ services) (p ∷ ports) z d =
    (served-Differ s p services ports z.0 z.1 d.0, Zip-DistinctKeys services ports z.1 d.1)

pub built-DistinctKeys :
    (service : Service) (nlb : LoadBalancer)
    → build_load_balancer service ≡ ok nlb
    → DistinctPorts service.ports
    → DistinctKeys nlb.services
built-DistinctKeys service nlb h d =
    Zip-DistinctKeys nlb.services service.ports (build_load_balancer-Zip service nlb h) d

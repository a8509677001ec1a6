-- ===== src/LoadBalancer/Delete/Matching.antt =====
-- Which services the test of `EnsureLoadBalancerDeleted` finds, and which ones a Service asks for.
use exoscale_cloud_controlle.Base.{
  ◌≡◌, refl, ◌∙◌, sym, ap, All, true, false, List, [], ◌∷◌, ◌==◌, nat_eq, int_eq, string_eq,
  Bool-cases, inl, inr, arith,
}
use exoscale_cloud_controlle.Base.Text.{
  to_lower, equal_fold, equal_fold_sym, equal_fold_trans, equal_fold-to_lower,
}
use exoscale_cloud_controlle.Cloud.Exoscale.{LoadBalancerService}
use exoscale_cloud_controlle.Cloud.Kubernetes.{ServicePort}
use exoscale_cloud_controlle.LoadBalancer.Build.{is_supported}
use exoscale_cloud_controlle.LoadBalancer.Build.Keys.{Serves, Zip}
use exoscale_cloud_controlle.LoadBalancer.Build.Names.{tcp_or_udp}
use exoscale_cloud_controlle.LoadBalancer.Converge.Ports.{Differ, DistinctPorts}
use exoscale_cloud_controlle.LoadBalancer.Delete.{matches_port}
use exoscale_cloud_controlle.LoadBalancer.Delete.Counted.{Apart, matches_any}
use exoscale_cloud_controlle.LoadBalancer.Update.{key_eq, key_of, is_desired}

-- A service that a port asks for is one that the port matches.
pub matched :
    (y u : LoadBalancerService) (p : ServicePort)
    → Serves u p
    → (key_of y == key_of u) ≡ true
    → matches_port y p ≡ true
unfolding matches_port
matched y u p (port, _, protocol, _) e =
    let k : key_of y ≡ key_of u = ground arith in
    let same_port : y.port ≡ p.port = ap (λ k. k.port) k ∙ port in
    let same : y.protocol ≡ to_lower p.protocol = ap (λ k. k.protocol) k ∙ protocol in
    rw (same_port, same, equal_fold-to_lower p.protocol) (ground arith)

desired-matches :
    (services : List LoadBalancerService) (ports : List ServicePort) (y : LoadBalancerService)
    → Zip services ports
    → is_desired services (key_of y) ≡ true
    → matches_any ports y ≡ true
desired-matches [] ports y z h = cc
desired-matches (u ∷ services) [] y z h = absurd z
desired-matches (u ∷ services) (p ∷ ports) y z h = elim (Bool-cases (key_of y == key_of u)) [
  | inl e ↦ rw (matched y u p z.0 e) refl
  | inr e ↦ let rest = desired-matches services ports y z.1 (rw e at h) in ground arith
]

pub undesired :
    (services : List LoadBalancerService) (ports : List ServicePort) (y : LoadBalancerService)
    → Zip services ports
    → matches_any ports y ≡ false
    → is_desired services (key_of y) ≡ false
undesired services ports y z h = elim (Bool-cases (is_desired services (key_of y))) [
  | inr e ↦ e
  | inl e ↦ cc (desired-matches services ports y z e)
]

-- The protocols of two supported ports are the same up to case only if they are the same.
tcp_udp : equal_fold "TCP" "UDP" ≡ false
unfolding equal_fold nat_eq
tcp_udp = refl

udp_tcp : equal_fold "UDP" "TCP" ≡ false
unfolding equal_fold nat_eq
udp_tcp = refl

equal_fold-injective :
    (p q : ServicePort)
    → is_supported p ≡ true
    → is_supported q ≡ true
    → equal_fold p.protocol q.protocol ≡ true
    → p.protocol ≡ q.protocol
equal_fold-injective p q hp hq e = elim (tcp_or_udp p hp) [
  | inl a ↦ elim (tcp_or_udp q hq) [
    | inl b ↦ a ∙ sym b
    | inr b ↦ let f : equal_fold "TCP" "UDP" ≡ true = rw (a, b) at e in cc tcp_udp
  ]
  | inr a ↦ elim (tcp_or_udp q hq) [
    | inl b ↦ let f : equal_fold "UDP" "TCP" ≡ true = rw (a, b) at e in cc udp_tcp
    | inr b ↦ a ∙ sym b
  ]
]

unmatched :
    (s : LoadBalancerService) (p q : ServicePort)
    → is_supported p ≡ true
    → is_supported q ≡ true
    → Differ p q
    → matches_port s p ≡ true
    → matches_port s q ≡ false
unfolding matches_port
unmatched s p q hp hq differ h = elim (Bool-cases (matches_port s q)) [
  | inr e ↦ e
  | inl e ↦
      let pp : s.port ≡ p.port = ground arith in
      let pq : s.port ≡ q.port = ground arith in
      let fp : equal_fold s.protocol p.protocol ≡ true = ground arith in
      let fq : equal_fold s.protocol q.protocol ≡ true = ground arith in
      absurd (
        differ (sym pp ∙ pq) (
          equal_fold-injective p q hp hq (
            equal_fold_trans p.protocol s.protocol q.protocol
              (equal_fold_sym p.protocol s.protocol ∙ fp) fq)))
]

pub unmatched-any :
    (s : LoadBalancerService) (p : ServicePort) (services : List LoadBalancerService)
    (ports : List ServicePort)
    → is_supported p ≡ true
    → Zip services ports
    → All (Differ p) ports
    → matches_port s p ≡ true
    → matches_any ports s ≡ false
unmatched-any s p services [] hp z d h = refl
unmatched-any s p [] (q ∷ ports) hp z d h = absurd z
unmatched-any s p (u ∷ services) (q ∷ ports) hp z d h =
    let (_, _, _, hq) = z.0 in
    rw (unmatched s p q hp hq d.0 h) (unmatched-any s p services ports hp z.1 d.1 h)

-- No service can match two ports that differ and whose protocols are supported.
pub distinct-Apart :
    (services : List LoadBalancerService) (ports : List ServicePort)
    → Zip services ports
    → DistinctPorts ports
    → Apart ports
distinct-Apart services [] z d = tt
distinct-Apart [] (p ∷ ports) z d = absurd z
distinct-Apart (u ∷ services) (p ∷ ports) z d =
    let (_, _, _, hp) = z.0 in
    (λ s h. unmatched-any s p services ports hp z.1 d.0 h, distinct-Apart services ports z.1 d.1)

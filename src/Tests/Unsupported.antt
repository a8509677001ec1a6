-- ===== src/Tests/Unsupported.antt =====
-- A Service with an SCTP port.
use exoscale_cloud_controlle.Base.{
  String, ◌≡◌, ◌≢◌, ◌==◌, arith, refl, false, [], ◌∷◌, string_eq, err, Error, inl, inr, pos,
}
use exoscale_cloud_controlle.Cloud.Kubernetes.{Service, ServicePort}
use exoscale_cloud_controlle.LoadBalancer.Ensure.{ensure_load_balancer}
use exoscale_cloud_controlle.LoadBalancer.Ensure.Unsupported.{IsPatch, Refuses, unsupported-Refuses}
use exoscale_cloud_controlle.LoadBalancer.Update.{update_load_balancer}
use exoscale_cloud_controlle.Tests.World.{account, finders, kube, start, web, port_80}

abbrev port_sctp : ServicePort
port_sctp = record port_80 { port = pos 3868; protocol = "SCTP" }

abbrev signalling : Service
signalling = record web { ports = port_80 ∷ port_sctp ∷ [] }

other_text : (t u : String) → (t == u) ≡ false → t ≢ u
other_text t u e = ground arith

sctp-tcp : port_sctp.protocol ≢ "TCP"
unfolding string_eq
sctp-tcp = other_text port_sctp.protocol "TCP" refl

sctp-udp : port_sctp.protocol ≢ "UDP"
unfolding string_eq
sctp-udp = other_text port_sctp.protocol "UDP" refl

unsupported-Refuses_example :
    Refuses IsPatch (ensure_load_balancer account finders kube []) (start signalling)
    × ((e : Error) × (update_load_balancer account (start signalling) ≡ (err e, start signalling)))
unsupported-Refuses_example =
    unsupported-Refuses account finders kube [] (start signalling) port_sctp (inr (inl refl))
      sctp-tcp sctp-udp

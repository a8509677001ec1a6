-- ===== src/LoadBalancer/Ensure/Unsupported.antt =====
-- `EnsureLoadBalancer` and `updateLoadBalancer` for a Service that has a port of another protocol than
-- TCP and UDP.
use exoscale_cloud_controlle.Base.{
  ◌≡◌, ◌≢◌, refl, ◌∙◌, string_eq, arith, sym, ap, subst, true, false, List, [], ◌∷◌, Result, ok,
  err, Action, Error, ◌>>=◌, gets, lift, Member, Result-cases, inl, inr,
}
use exoscale_cloud_controlle.Cloud.Exoscale.{Client, Finders, LoadBalancerService}
use exoscale_cloud_controlle.Cloud.Kubernetes.{Kube, Node, Service, ServicePort}
use exoscale_cloud_controlle.LoadBalancer.Build.{is_supported, build_load_balancer}
use exoscale_cloud_controlle.LoadBalancer.Build.Keys.{Zip, build_load_balancer-Zip}
use exoscale_cloud_controlle.LoadBalancer.Emits.{Adds, Emits, Adds-refl, Adds-trans}
use exoscale_cloud_controlle.LoadBalancer.Ensure.{ensure_load_balancer}
use exoscale_cloud_controlle.LoadBalancer.Ensure.Resolving.{
  resolve_external-Emits, resolve_pool-Emits,
}
use exoscale_cloud_controlle.LoadBalancer.Session.{
  Request, Session, create_nlb, update_nlb, delete_nlb, add_service, update_service, delete_service,
  patch_service,
}
use exoscale_cloud_controlle.LoadBalancer.Update.{update_load_balancer}
use exoscale_cloud_controlle.LoadBalancer.Update.Safety.{update_load_balancer_refused}

-- A patch of the Service.
abbrev pub IsPatch : Request → Type 0
IsPatch (patch_service ns name p) = Unit {0}
IsPatch (create_nlb req) = ⊥
IsPatch (update_nlb id req) = ⊥
IsPatch (delete_nlb id) = ⊥
IsPatch (add_service id req) = ⊥
IsPatch (update_service id sid req) = ⊥
IsPatch (delete_service id sid) = ⊥

-- The call returns an error, and has only sent requests with the property.
unfoldable pub Refuses :
    {W A : Type 0} → (Request → Type 0) → Action (Session W) A → Session W → Type 0
Refuses P m s = (e : Error) × ((m s).0 ≡ err e) × Adds P s (m s).1

module _ {W A B : Type 0} (P : Request → Type 0) where
  bound :
      (s : Session W) (x : Result A × Session W) (f : A → Action (Session W) B)
      → Adds P s x.1
      → ((a : A) (t : Session W) → t.service.ports ≡ s.service.ports → Refuses P (f a) t)
      → let y = elim x.0 as (λ _. Result B × Session W) [ ok a ↦ f a x.1 | err e ↦ (err e, x.1) ] in
        (e : Error) × (y.0 ≡ err e) × Adds P s y.1
  unfolding Refuses
  bound s (ok a, t) f h next =
      let (e, r, k) = next a t h.4 in (e, r, Adds-trans P s t (f a t).1 h k)
  bound s (err e, t) f h next = (e, refl, h)

  Refuses-bind :
      (m : Action (Session W) A) (f : A → Action (Session W) B) (s : Session W)
      → Emits P m s
      → ((a : A) (t : Session W) → t.service.ports ≡ s.service.ports → Refuses P (f a) t)
      → Refuses P (m >>= f) s
  unfolding Refuses Emits ◌>>=◌
  Refuses-bind m f s h next = bound s (m s) f h next

  Refuses-gets :
      (g : Session W → A) (f : A → Action (Session W) B) (s : Session W)
      → Refuses P (f (g s)) s
      → Refuses P (gets g >>= f) s
  unfolding Refuses ◌>>=◌
  Refuses-gets g f s h = h

  Refuses-lift :
      (r : Result A) (f : A → Action (Session W) B) (s : Session W) (e : Error)
      → r ≡ err e
      → Refuses P (lift r >>= f) s
  unfolding Refuses ◌>>=◌
  Refuses-lift r f s e h = (e, rw h refl, rw h (Adds-refl P s))

other_protocol :
    (p : ServicePort) → p.protocol ≢ "TCP" → p.protocol ≢ "UDP" → is_supported p ≡ false
unfolding is_supported
other_protocol p tcp udp = ground arith

-- One service for each port, so all the ports are supported.
zipped_supported :
    (services : List LoadBalancerService) (ports : List ServicePort) (p : ServicePort)
    → Zip services ports
    → Member p ports
    → is_supported p ≡ true
zipped_supported services [] p z m = absurd m
zipped_supported [] (q ∷ ports) p z m = absurd z
zipped_supported (s ∷ services) (q ∷ ports) p (serves, z) m = elim m [
  | inl e ↦ ap is_supported e ∙ serves.3
  | inr n ↦ zipped_supported services ports p z n
]

unbuilt :
    (service : Service) (p : ServicePort)
    → Member p service.ports
    → is_supported p ≡ false
    → (e : Error) × (build_load_balancer service ≡ err e)
unbuilt service p m bad = elim (Result-cases (build_load_balancer service)) [
  | inr r ↦ r
  | inl (nlb, f) ↦
      let yes =
        zipped_supported nlb.services service.ports p (build_load_balancer-Zip service nlb f) m in
      cc
]

module _ {W : Type 0} (client : Client W) (finders : Finders) (kube : Kube W) where
  -- Whatever the API and Kubernetes answer, for a Service that has a port of another protocol than TCP
  -- and UDP: `EnsureLoadBalancer` returns an error and sends at most patches of the Service, so it
  -- touches no NLB and none of its services; and `updateLoadBalancer` returns an error, sends nothing
  -- and leaves the world as it is.
  pub unsupported-Refuses :
      (nodes : List Node) (s : Session W) (p : ServicePort)
      → Member p s.service.ports
      → p.protocol ≢ "TCP"
      → p.protocol ≢ "UDP"
      → Refuses IsPatch (ensure_load_balancer client finders kube nodes) s
        × ((e : Error) × (update_load_balancer client s ≡ (err e, s)))
  unfolding ensure_load_balancer
  unsupported-Refuses nodes s p m tcp udp =
      let bad = other_protocol p tcp udp in
      let (e, f) = unbuilt s.service p m bad in
      (
        Refuses-bind IsPatch _ _ s
            (resolve_external-Emits IsPatch (λ _ _ _. tt) client finders kube s)
            λ _ t k.
              Refuses-bind IsPatch _ _ t
                (resolve_pool-Emits IsPatch (λ _ _ _. tt) client finders kube nodes t)
                λ _ t1 k1.
                  let (e1, f1) = unbuilt t1.service p (subst (Member p) (sym (k1 ∙ k)) m) bad in
                  Refuses-gets IsPatch _ _ t1 (Refuses-lift IsPatch _ _ t1 e1 f1),
        (e, (update_load_balancer_refused client s (build_load_balancer s.service) refl).0 e f),
      )

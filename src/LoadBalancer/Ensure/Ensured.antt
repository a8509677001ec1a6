-- ===== src/LoadBalancer/Ensure/Ensured.antt =====
-- What `EnsureLoadBalancer` promises when it returns no error.
use exoscale_cloud_controlle.Base.{
  String, ◌≡◌, refl, ◌∙◌, sym, ap, subst, ◌≢◌, List, ◌==◌, string_eq, Bool-cases, Result-cases, inl,
  inr, Result, ok, err, Action, Error, ◌>>=◌, arith, pure,
}
use exoscale_cloud_controlle.Base.Yields.{
  Yields, Yields-pure, Yields-gets, Yields-run, Yields-bind, Yields-ok, Yields-both,
}
use exoscale_cloud_controlle.Cloud.Exoscale.{Client, Finders, LoadBalancer}
use exoscale_cloud_controlle.Cloud.Kubernetes.{Kube, Node}
use exoscale_cloud_controlle.LoadBalancer.Annotations.{is_external, get_annotation, annotation_id}
use exoscale_cloud_controlle.LoadBalancer.Build.{build_load_balancer}
use exoscale_cloud_controlle.LoadBalancer.Build.Keys.{build_load_balancer-id}
use exoscale_cloud_controlle.LoadBalancer.Converge.Kept.{IsReached}
use exoscale_cloud_controlle.LoadBalancer.Converge.Ports.{DistinctPorts, built-DistinctKeys}
use exoscale_cloud_controlle.LoadBalancer.Converge.Reached.{update_load_balancer-IsReached}
use exoscale_cloud_controlle.LoadBalancer.Converge.Rounds.{IsOrderly}
use exoscale_cloud_controlle.LoadBalancer.Converge.Stable.{update_load_balancer-service}
use exoscale_cloud_controlle.LoadBalancer.Ensure.{fetch_or_create, ensure_load_balancer}
use exoscale_cloud_controlle.LoadBalancer.Ensure.Adopted.{IsAdopted, fetch_or_create-IsAdopted}
use exoscale_cloud_controlle.LoadBalancer.Ensure.Quiet.{
  IsQuiet, resolve_external-Keeps, resolve_pool-Keeps, fetch_or_create-Keeps,
}
use exoscale_cloud_controlle.LoadBalancer.Keeps.{Keeps, Keeps-inner}
use exoscale_cloud_controlle.LoadBalancer.Lawful.{Services, IsLawful}
use exoscale_cloud_controlle.LoadBalancer.Session.{Session}
use exoscale_cloud_controlle.LoadBalancer.Update.{update_load_balancer}
use exoscale_cloud_controlle.LoadBalancer.Update.Safety.{update_load_balancer_refused}

Keeps-Yields :
    {W A : Type 0} (P : W → Type 0) (m : Action (Session W) A) (s : Session W)
    → Keeps P m s
    → P s.world
    → Yields (λ _ t. P t.world) m s
unfolding Keeps Yields
Keeps-Yields P m s k p a t h = subst (λ r. P r.1.world) h (k p)

-- A run that ended well has read the annotations and has fetched the NLB.
abbrev Fetched : {W : Type 0} → Client W → Session W → LoadBalancer → Type 0
Fetched {W} client s update =
    (build_load_balancer s.service ≡ ok update)
    × (update.id ≢ "")
    × ((current : LoadBalancer) × (w : W) × (client.get_load_balancer update.id s.world
          ≡ (ok current, w)))

not_well :
    {W : Type 0} {r : Result (Unit {0}) × Session W} {e : Error} {s t : Session W}
    → r ≡ (err e, s)
    → r ≢ (ok tt, t)
not_well {e = e} f h =
    let k : ◌≡◌ {A = Result (Unit {0})} (err e) (ok tt) = ap (λ x. x.0) (sym f ∙ h) in cc

pub ran_well :
    {W : Type 0} (client : Client W) (s t : Session W)
    → update_load_balancer client s ≡ (ok tt, t)
    → (update : LoadBalancer) × Fetched client s update
ran_well {W} client s t h =
    let (unread, unnamed, unfetched) =
      update_load_balancer_refused client s (build_load_balancer s.service) refl in
    elim (Result-cases (build_load_balancer s.service)) [
      | inr (e, f) ↦ absurd (not_well (unread e f) h)
      | inl (update, f) ↦ elim (Bool-cases (update.id == "")) [
        | inl g ↦
            let empty : update.id ≡ "" = ground arith in
            absurd (not_well (unnamed update f empty) h)
        | inr g ↦
            let given : update.id ≢ "" = ground arith in
            elim (Result-cases (client.get_load_balancer update.id s.world).0) [
              | inr (e, k) ↦ absurd (
                  not_well
                    (unfetched update e (client.get_load_balancer update.id s.world).1 f given
                      (λ i. (k i, (client.get_load_balancer update.id s.world).1)))
                    h)
              | inl (current, k) ↦ (
                update,
                (
                  f,
                  given,
                  (
                    current,
                    (client.get_load_balancer update.id s.world).1,
                    λ i. (k i, (client.get_load_balancer update.id s.world).1),
                  ),
                ),
              )
            ]
      ]
    ]

-- What `EnsureLoadBalancer` promises of the address that it answers with and of the session that it
-- leaves, where the property `P` of the account held at the start: the Service names an NLB that the
-- API told the address of, and from an account that still had the property the services of that NLB
-- have reached what the Service asks for.
abbrev pub IsEnsured :
    {W : Type 0} → Client W → (String → W → Services) → (W → Type 0) → String → Session W → Type 0
IsEnsured {W} client view P ip t =
    (update : LoadBalancer) × (nlb : LoadBalancer) × (w : W) × (build_load_balancer t.service
      ≡ ok update)
    × IsAdopted client nlb t
    × (nlb.id ≡ update.id)
    × (ip ≡ nlb.ip)
    × P w
    × IsReached (is_external t.service) update.services (view update.id w) (view update.id t.world)

module _ {W : Type 0} (client : Client W) (view : String → W → Services)
    (lawful : IsLawful client view) (finders : Finders) (kube : Kube W) (P : W → Type 0)
    (quiet : IsQuiet client kube P)
    (orderly : (id : String) (w : W) → P w → IsOrderly (view id w)) where
  last_step :
      (s t : Session W) (nlb : LoadBalancer)
      → P s.world
      → IsAdopted client nlb s
      → update_load_balancer client s ≡ (ok tt, t)
      → DistinctPorts t.service.ports
      → IsEnsured client view P nlb.ip t
  last_step s t nlb p adopted h distinct =
      let (update, good) = ran_well client s t h in
      let (built, given, (current, w, fetched)) = good in
      let same = update_load_balancer-service client s t built given fetched h in
      let built' : build_load_balancer t.service ≡ ok update =
        ap build_load_balancer same ∙ built in
      let reached =
        update_load_balancer-IsReached client view lawful s t built given fetched
          (orderly update.id s.world p) (built-DistinctKeys t.service update built' distinct) h in
      (
        update,
        nlb,
        s.world,
        built',
        (ap (λ v. get_annotation v annotation_id "") same ∙ adopted.0, adopted.1),
        sym (build_load_balancer-id s.service update built ∙ adopted.0),
        refl,
        p,
        rw same reached,
      )

  abbrev Promised : String → Session W → Type 0
  Promised ip t = DistinctPorts t.service.ports → IsEnsured client view P ip t

  later_steps :
      (spec : LoadBalancer) (s4 : Session W)
      → P s4.world
      → Yields Promised
          (fetch_or_create client finders kube spec >>= λ nlb.
            update_load_balancer client >>= λ _. pure nlb.ip)
          s4
  later_steps spec s4 p4 =
      Yields-bind (λ nlb u. IsAdopted client nlb u × P u.world) Promised _ _ s4
        (Yields-both (IsAdopted client) (λ _ u. P u.world) _ s4
          (fetch_or_create-IsAdopted client view lawful finders kube spec s4)
          (Keeps-Yields P _ s4 (fetch_or_create-Keeps client finders kube P quiet spec s4) p4))
        λ nlb s5 (adopted, p5).
          Yields-bind (λ _ u. update_load_balancer client s5 ≡ (ok tt, u)) Promised _ _ s5
            (Yields-run (update_load_balancer client) s5)
            λ _ u ran. Yields-pure Promised nlb.ip u λ d. last_step s5 u nlb p5 adopted ran d

  steps :
      (nodes : List Node) (s : Session W)
      → P s.world
      → Yields Promised (ensure_load_balancer client finders kube nodes) s
  unfolding ensure_load_balancer
  steps nodes s p =
      Yields-bind (λ _ u. P u.world) Promised _ _ s
        (Keeps-Yields P _ s (resolve_external-Keeps client finders kube P quiet s) p)
        λ _ s1 p1.
          Yields-bind (λ _ u. P u.world) Promised _ _ s1
            (Keeps-Yields P _ s1 (resolve_pool-Keeps client finders kube P quiet nodes s1) p1)
            λ _ s2 p2.
              Yields-bind (λ _ u. P u.world) Promised _ _ s2 (Yields-gets _ (λ x. x.service) s2 p2)
                λ service s3 p3.
                  Yields-bind (λ _ u. P u.world) Promised _ _ s3
                    (Keeps-Yields P _ s3 (Keeps-inner P _ s3 refl) p3)
                    λ spec s4 p4. later_steps spec s4 p4

  -- Over an API that applies the requests that it accepts, if the calls that are not about services
  -- keep a property of the account that lets no two services of an NLB have one ID or one port number
  -- and protocol, and the property holds at the start: when `EnsureLoadBalancer` returns an address
  -- for a Service whose ports differ in number or protocol, the Service's annotations name an NLB whose
  -- address that is, and the services of that NLB are what the Service asks for, as after a run of
  -- `updateLoadBalancer` from an account with the property.
  pub ensure_load_balancer-IsEnsured :
      (nodes : List Node) (s t : Session W) (ip : String)
      → P s.world
      → DistinctPorts t.service.ports
      → ensure_load_balancer client finders kube nodes s ≡ (ok ip, t)
      → IsEnsured client view P ip t
  ensure_load_balancer-IsEnsured nodes s t ip p distinct h =
      Yields-ok Promised (ensure_load_balancer client finders kube nodes) s (steps nodes s p) h
        distinct

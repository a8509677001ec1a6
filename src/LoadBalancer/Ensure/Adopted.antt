-- ===== src/LoadBalancer/Ensure/Adopted.antt =====
-- The NLB that `EnsureLoadBalancer` fetches or creates is the one that the Service names afterwards
-- (exoscale/loadbalancer.go, lines 205-252 and 581-599).
use exoscale_cloud_controlle.Base.{
  String, ◌≡◌, refl, ◌∙◌, sym, ap, ◌==◌, string_eq, Bool-cases, Result-cases, inl, inr,
  is_load_balancer_not_found, ok, deref, load_balancer_not_found, subst,
}
use exoscale_cloud_controlle.Base.Yields.{
  Yields, Yields-pure, Yields-gets, Yields-weaken, Yields-run, Yields-ok, Yields-fail,
  Yields-map_error, Yields-attempt, Yields-bind,
}
use exoscale_cloud_controlle.Cloud.Exoscale.{Client, Finders, LoadBalancer}
use exoscale_cloud_controlle.Cloud.Kubernetes.{Kube}
use exoscale_cloud_controlle.LoadBalancer.Annotations.{
  get_annotation, is_external, annotation_id, patch_annotation,
}
use exoscale_cloud_controlle.LoadBalancer.Annotations.Patch.{patch_annotation-annotations}
use exoscale_cloud_controlle.LoadBalancer.Ensure.{
  create_load_balancer, fetch_or_create, cannot_create,
}
use exoscale_cloud_controlle.LoadBalancer.Fetch.{fetch_error, fetch_load_balancer}
use exoscale_cloud_controlle.LoadBalancer.Lawful.{Services, IsLawful}
use exoscale_cloud_controlle.LoadBalancer.Session.{Session, call}

-- The NLB was told by the API, by its own ID, which is in the annotations.
abbrev pub IsAdopted : {W : Type 0} → Client W → LoadBalancer → Session W → Type 0
IsAdopted {W} client nlb s =
    (get_annotation s.service annotation_id "" ≡ nlb.id)
    × ((w : W) × (w' : W) × (client.get_load_balancer nlb.id w ≡ (ok nlb, w')))

module _ {W : Type 0} (client : Client W) (view : String → W → Services)
    (lawful : IsLawful client view) where
  told-IsAdopted :
      (s : Session W) (id : String) (nlb : LoadBalancer) (w w' : W)
      → get_annotation s.service annotation_id "" ≡ id
      → client.get_load_balancer id w ≡ (ok nlb, w')
      → IsAdopted client nlb s
  told-IsAdopted s id nlb w w' e h =
      let (same, _, _) = lawful.fetched id nlb w w' h in
      (e ∙ sym same, (w, w', ap (λ j. client.get_load_balancer j w) same ∙ h))

  -- What a call for an NLB tells.
  abbrev Told : String → Session W → LoadBalancer → Session W → Type 0
  Told id s nlb t =
      (client.get_load_balancer id s.world ≡ (ok nlb, t.world)) × (t.service ≡ s.service)

  call-Told :
      (id : String) (s : Session W) → Yields (Told id s) (call (client.get_load_balancer id)) s
  unfolding Yields
  call-Told id s nlb t h = (λ i. ((h i).0, (h i).1.world), ap (λ r. r.1.service) (sym h))

  fetch-IsAdopted : (s : Session W) → Yields (IsAdopted client) (fetch_load_balancer client) s
  unfolding fetch_load_balancer
  fetch-IsAdopted s =
      Yields-bind (λ service t. (t ≡ s) × (service ≡ s.service)) (IsAdopted client) _ _ s
        (Yields-gets _ (λ x. x.service) s (refl, refl))
        λ service t (same, same_service).
          let id = get_annotation service annotation_id "" in
          elim (Bool-cases (id == "")) [
            | inl e ↦ rw e (Yields-fail (IsAdopted client) load_balancer_not_found t)
            | inr e ↦ rw e (
                Yields-map_error (IsAdopted client) fetch_error (call (client.get_load_balancer id))
                  t
                  (Yields-weaken (Told id t) (IsAdopted client) _ t
                    (λ nlb u (told, kept).
                      told-IsAdopted u id nlb t.world u.world
                        (ap (λ v. get_annotation v annotation_id "")
                          (kept ∙ ap (λ x. x.service) same ∙ sym same_service))
                        told)
                    (call-Told id t)))
          ]

  module _ (finders : Finders) (kube : Kube W) where
    patched :
        (id : String) (s : Session W)
        → Yields
            (λ _ t. get_annotation t.service annotation_id "" ≡ id)
            (patch_annotation kube annotation_id id)
            s
    unfolding Yields
    patched id s u t h =
        let (own, _, _) = patch_annotation-annotations kube annotation_id id s in
        ap (λ r. get_annotation r.1.service annotation_id "") (sym h) ∙ own ""

    create-IsAdopted :
        (spec : LoadBalancer) (s : Session W)
        → Yields (IsAdopted client) (create_load_balancer client finders kube spec) s
    unfolding create_load_balancer
    create-IsAdopted spec s = Yields-bind _ (IsAdopted client) _ _ s (Yields-run _ s) λ op s1 _.
        Yields-bind _ (IsAdopted client) _ _ s1 (Yields-run (deref op.reference) s1) λ id s2 _.
          Yields-bind _ (IsAdopted client) _ _ s2 (call-Told id s2) λ nlb s3 (told, _).
            Yields-bind (λ _ t. get_annotation t.service annotation_id "" ≡ nlb.id)
              (IsAdopted client) _ _ s3 (Yields-map_error _ _ _ s3 (patched nlb.id s3))
              λ _ s4 e. Yields-pure (IsAdopted client) nlb s4 (
                let (same, _, _) = lawful.fetched id nlb s2.world s3.world told in
                told-IsAdopted s4 id nlb s2.world s3.world (e ∙ same) told)

    pub fetch_or_create-IsAdopted :
        (spec : LoadBalancer) (s : Session W)
        → Yields (IsAdopted client) (fetch_or_create client finders kube spec) s
    unfolding fetch_or_create
    fetch_or_create-IsAdopted spec s =
        Yields-bind (λ r t. (nlb : LoadBalancer) → r ≡ ok nlb → IsAdopted client nlb t)
          (IsAdopted client) _ _ s
          (Yields-attempt _ (fetch_load_balancer client) s
            λ r t h nlb e. Yields-ok (IsAdopted client) _ s (fetch-IsAdopted s) (h ∙ λ i. (e i, t)))
          λ fetched t adopted.
            Yields-bind (λ _ u. u ≡ t) (IsAdopted client) _ _ t
              (Yields-gets _ (λ x. x.service) t refl)
              λ service u same. elim (Result-cases fetched) [
                | inl (nlb, e) ↦ rw e (
                    Yields-pure (IsAdopted client) nlb u
                      (subst (IsAdopted client nlb) (sym same) (adopted nlb e)))
                | inr (x, e) ↦ elim (Bool-cases (is_load_balancer_not_found x)) [
                  | inl f ↦ elim (Bool-cases (is_external service)) [
                    | inl g ↦
                        rw (e, f, g)
                          (Yields-fail (IsAdopted client) (cannot_create client finders kube) u)
                    | inr g ↦ rw (e, f, g) (create-IsAdopted spec u)
                  ]
                  | inr f ↦ rw (e, f) (Yields-fail (IsAdopted client) x u)
                ]
              ]

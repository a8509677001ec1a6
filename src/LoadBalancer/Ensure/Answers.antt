-- ===== src/LoadBalancer/Ensure/Answers.antt =====
-- `EnsureLoadBalancer` returns an address where no call that it makes fails.
use exoscale_cloud_controlle.Base.{
  String, ◌≡◌, refl, ◌∙◌, sym, ap, subst, ◌≢◌, true, false, List, [], ◌∷◌, ◌++◌, ◌==◌, string_eq,
  ok, err, ◌>>=◌, gets, attempt, map_error, bind-eq, map_error-eq, deref, lift, All, Bool-cases,
  inl, inr, Action, hidef, load_balancer_not_found,
}
use exoscale_cloud_controlle.Base.Returns.{Returns}
use exoscale_cloud_controlle.Cloud.Exoscale.{Client, Finders, LoadBalancer, LoadBalancerRequest}
use exoscale_cloud_controlle.Cloud.Kubernetes.{Kube, Node}
use exoscale_cloud_controlle.LoadBalancer.Annotations.{
  is_external, annotation_id, annotation_sks_cluster_name, annotation_service_sks_node_pool_name,
  annotation_service_instance_pool_id, get_annotation, patch_annotation,
}
use exoscale_cloud_controlle.LoadBalancer.Converge.Returns.{
  IsReliable, Addable, update_load_balancer-Returns,
}
use exoscale_cloud_controlle.LoadBalancer.Build.{build_load_balancer}
use exoscale_cloud_controlle.LoadBalancer.Build.Keys.{build_load_balancer-id}
use exoscale_cloud_controlle.LoadBalancer.Ensure.{
  create_load_balancer, fetch_or_create, resolve_external, resolve_pool, ensure_load_balancer,
}
use exoscale_cloud_controlle.LoadBalancer.Ensure.Status.{fetched_named}
use exoscale_cloud_controlle.LoadBalancer.Fetch.{fetch_load_balancer}
use exoscale_cloud_controlle.LoadBalancer.Lawful.{Services, IsLawful}
use exoscale_cloud_controlle.LoadBalancer.Update.{update_load_balancer}
use exoscale_cloud_controlle.LoadBalancer.Session.{Session, send, call, create_nlb}
use exoscale_cloud_controlle.LoadBalancer.Ensure.Willing.{
  given_text, empty_text, other_text, IsWilling, Creates, patch_annotation-Returns, patched-built,
}

module _ {W : Type 0} (client : Client W) (view : String → W → Services)
    (lawful : IsLawful client view) (finders : Finders) (kube : Kube W)
    (willing : IsWilling kube) where
  unnamed :
      (s : Session W)
      → (get_annotation s.service annotation_id "" == "") ≡ true
      → attempt (fetch_load_balancer client) s ≡ (ok (err load_balancer_not_found), s)
  unfolding fetch_load_balancer ◌>>=◌
  unnamed s e = rw e refl

  -- What is known of the NLB that is found or made, for the run that follows.
  abbrev Ready : LoadBalancer → LoadBalancer → Session W → Type 0
  Ready spec nlb t =
      (build_load_balancer t.service ≡ ok (record spec { id = nlb.id }))
      × (nlb.id ≢ "")
      × IsReliable client nlb.id

  abbrev ReadyAfter : LoadBalancer → Action (Session W) LoadBalancer → Session W → Type 0
  ReadyAfter spec m s =
      (nlb : LoadBalancer) × (t : Session W) × (m s ≡ (ok nlb, t)) × Ready spec nlb t

  create-Ready :
      (spec : LoadBalancer) (s : Session W)
      → build_load_balancer s.service ≡ ok spec
      → Creates client
      → ReadyAfter spec (create_load_balancer client finders kube spec) s
  unfolding create_load_balancer Returns
  create-Ready spec s built creates =
      let req : LoadBalancerRequest = record {
        name = spec.name;
        description = spec.description;
        labels = spec.labels;
      } in
      let (op, id, w, made, named, given, reliable) = creates.created req s.world in
      let (nlb, v, told) = reliable.fetched w in
      let (same, _, _) = lawful.fetched id nlb w v told in
      let s1 = record s { world = w; requests = s.requests ++ (create_nlb req ∷ []) } in
      let s2 = record s1 { world = v } in
      let (u, t, ran) = patch_annotation-Returns kube willing annotation_id nlb.id s2 in
      (
        nlb,
        t,
        bind-eq (send (create_nlb req) (client.create_load_balancer req)) _ s op s1 (rw made refl)
            ∙ bind-eq (deref op.reference) _ s1 id s1 (rw named refl)
            ∙ bind-eq (call (client.get_load_balancer id)) _ s1 nlb s2 (rw told refl)
            ∙ bind-eq
                (map_error (hidef "error patching annotations: %s" [])
                  (patch_annotation kube annotation_id nlb.id))
                _ s2 u t (map_error-eq _ (patch_annotation kube annotation_id nlb.id) s2 u t ran),
        (
          ap (λ r. build_load_balancer r.1.service) (sym ran)
              ∙ patched-built kube willing nlb.id s2 spec built,
          (λ e. given (sym same ∙ e)),
          subst (IsReliable client) (sym same) reliable,
        ),
      )

  fetch_or_create-Ready :
      (spec : LoadBalancer) (s : Session W)
      → build_load_balancer s.service ≡ ok spec
      → is_external s.service ≡ false
      → Creates client
      → (spec.id ≢ "" → IsReliable client spec.id)
      → ReadyAfter spec (fetch_or_create client finders kube spec) s
  unfolding fetch_or_create Returns
  fetch_or_create-Ready spec s built own creates reliable =
      let named = build_load_balancer-id s.service spec built in
      elim (Bool-cases (get_annotation s.service annotation_id "" == "")) [
        | inl e ↦
            let (nlb, t, ran, ready) = create-Ready spec s built creates in
            (
              nlb,
              t,
              bind-eq (attempt (fetch_load_balancer client)) _ s (err load_balancer_not_found) s
                    (unnamed s e)
                  ∙ bind-eq (gets (λ x. x.service)) _ s s.service s refl
                  ∙ rw own ran,
              ready,
            )
        | inr e ↦
            let given : spec.id ≢ "" = λ f. given_text _ e (sym named ∙ f) in
            let (nlb, v, told) = (reliable given).fetched s.world in
            let (same, _, _) = lawful.fetched spec.id nlb s.world v told in
            let t = record s { world = v } in
            let found =
              fetched_named client s (λ f. given (named ∙ f))
                (subst (λ i. client.get_load_balancer i s.world ≡ (ok nlb, v)) named told) in
            (
              nlb,
              t,
              bind-eq (attempt (fetch_load_balancer client)) _ s (ok nlb) t
                    (λ i. (ok (found i).0, (found i).1))
                  ∙ bind-eq (gets (λ x. x.service)) _ t s.service t refl,
              (
                built ∙ ap {A = String} (λ i. ok (record spec { id = i })) (sym same),
                (λ f. given (sym same ∙ f)),
                subst (IsReliable client) (sym same) (reliable given),
              ),
            )
      ]

  not_external :
      (s : Session W)
      → is_external s.service ≡ false
      → resolve_external client finders kube s ≡ (ok tt, s)
  unfolding resolve_external ◌>>=◌
  not_external s own = rw own refl

  pool_given :
      (nodes : List Node) (s : Session W)
      → get_annotation s.service annotation_sks_cluster_name "" ≡ ""
      → get_annotation s.service annotation_service_sks_node_pool_name "" ≡ ""
      → get_annotation s.service annotation_service_instance_pool_id "" ≢ ""
      → resolve_pool client finders kube nodes s ≡ (ok tt, s)
  unfolding resolve_pool ◌>>=◌
  pool_given nodes s cluster nodepool pool =
      let c = empty_text _ cluster in
      let n = empty_text _ nodepool in let p = other_text _ pool in rw (c, n, p) refl

  -- Over an API that tells an NLB as it is, makes the NLBs that it is asked for and accepts every call
  -- for them and for the one that the Service names, if it names one, and where Kubernetes accepts
  -- every patch: `EnsureLoadBalancer` returns an address for a Service that is not external, that names
  -- its instance pool and no SKS cluster or node pool, whose annotations can be read, and each of whose
  -- services has a name.
  pub ensure_load_balancer-Returns :
      (nodes : List Node) (s : Session W) {spec : LoadBalancer}
      → build_load_balancer s.service ≡ ok spec
      → All Addable spec.services
      → is_external s.service ≡ false
      → get_annotation s.service annotation_sks_cluster_name "" ≡ ""
      → get_annotation s.service annotation_service_sks_node_pool_name "" ≡ ""
      → get_annotation s.service annotation_service_instance_pool_id "" ≢ ""
      → Creates client
      → (spec.id ≢ "" → IsReliable client spec.id)
      → (ip : String) × (t : Session W) × (ensure_load_balancer client finders kube nodes s
          ≡ (ok ip, t))
  unfolding ensure_load_balancer
  ensure_load_balancer-Returns nodes s {spec} built addable own cluster nodepool pool creates
        reliable =
      let (nlb, t, found, (built', given, calls)) =
        fetch_or_create-Ready spec s built own creates reliable in
      let (u, ran) =
        update_load_balancer-Returns client view lawful t {update = record spec { id = nlb.id }}
          built' given calls addable in
      (
        nlb.ip,
        u,
        bind-eq (resolve_external client finders kube) _ s tt s (not_external s own)
            ∙ bind-eq (resolve_pool client finders kube nodes) _ s tt s
                (pool_given nodes s cluster nodepool pool)
            ∙ bind-eq (gets (λ x. x.service)) _ s s.service s refl
            ∙ bind-eq (lift (build_load_balancer s.service)) _ s spec s (ap (λ r. (r, s)) built)
            ∙ bind-eq (fetch_or_create client finders kube spec) _ s nlb t found
            ∙ bind-eq (update_load_balancer client) _ t tt u ran,
      )

-- ===== src/LoadBalancer/Ensure/Willing.antt =====
-- `patchAnnotation` where Kubernetes takes every patch, and what the Service asks for after it.
use exoscale_cloud_controlle.Base.{
  String, ◌≡◌, refl, ◌∙◌, ap, ◌≢◌, true, false, not, ◌||◌, ◌==◌, string_eq, ok, arith, gets, some,
  Bool-cases, inl, inr,
}
use exoscale_cloud_controlle.Base.Returns.{
  Returns, Returns-bind, Returns-then, Returns-map_error, Returns-when, Returns-lift,
}
use exoscale_cloud_controlle.Cloud.Exoscale.{Client, LoadBalancer, LoadBalancerRequest, Operation}
use exoscale_cloud_controlle.Cloud.Kubernetes.{Kube, Service}
use exoscale_cloud_controlle.LoadBalancer.Annotations.{
  annotation_id, has_annotation, set_annotation, patch, patch_annotation,
}
use exoscale_cloud_controlle.LoadBalancer.Converge.Returns.{IsReliable, Returns-send}
use exoscale_cloud_controlle.LoadBalancer.Annotations.Patch.{
  patch_annotation-service, patch_annotation-idle, has_annotation-value,
}
use exoscale_cloud_controlle.LoadBalancer.Build.{build_load_balancer}
use exoscale_cloud_controlle.LoadBalancer.Build.Adopted.{build_load_balancer-adopted}
use exoscale_cloud_controlle.LoadBalancer.Build.Keys.{build_load_balancer-id}
use exoscale_cloud_controlle.LoadBalancer.Session.{Session, patch_service}

pub given_text : (t : String) → (t == "") ≡ false → t ≢ ""
given_text t h e = ground arith

pub empty_text : (t : String) → t ≡ "" → (t == "") ≡ true
empty_text t e = ground arith

pub other_text : (t : String) → t ≢ "" → (t == "") ≡ false
other_text t e = ground arith

-- Kubernetes encodes and takes every patch.
pub record IsWilling {W : Type 0} (kube : Kube W) : Type 0 where
  pub marshalled : (v : Service) → (j : String) × (kube.marshal v ≡ ok j)
  pub merged : (a b : String) → (p : String) × (kube.two_way_merge_patch a b ≡ ok p)
  pub patched : (ns name p : String) (w : W) → Returns (kube.patch_service ns name p) w

-- The API makes every NLB that it is asked for, and takes every call for it.
pub record Creates {W : Type 0} (client : Client W) : Type 0 where
  pub created :
      (req : LoadBalancerRequest) (w : W)
      → (op : Operation) × (id : String) × (w' : W) × (client.create_load_balancer req w
          ≡ (ok op, w'))
        × (op.reference ≡ some id)
        × (id ≢ "")
        × IsReliable client id

module _ {W : Type 0} (kube : Kube W) (willing : IsWilling kube) where
  patch-Returns : (current : Service) (s : Session W) → Returns (patch kube current) s
  unfolding patch
  patch-Returns current s =
      Returns-bind _ _ s (Returns-map_error _ _ s (Returns-lift _ s (willing.marshalled current)))
        λ a t _. Returns-then (gets (λ x. x.service)) _ t t.service t refl (
          Returns-bind _ _ t
            (Returns-map_error _ _ t (Returns-lift _ t (willing.marshalled t.service)))
            λ b t1 _.
              Returns-bind _ _ t1
                (Returns-map_error _ _ t1 (Returns-lift _ t1 (willing.merged a b)))
                λ p t2 _. Returns-when (not (p == "" || p == "{}")) _ t2 (
                  Returns-map_error _ _ t2 (
                    Returns-send (patch_service current.namespace current.name p)
                      (kube.patch_service current.namespace current.name p) t2
                      (willing.patched current.namespace current.name p t2.world))))

  pub patch_annotation-Returns :
      (k v : String) (s : Session W) → Returns (patch_annotation kube k v) s
  unfolding patch_annotation set_annotation
  patch_annotation-Returns k v s = Returns-then (gets (λ x. x.service)) _ s s.service s refl (
      Returns-when (not (has_annotation k v s.service)) _ s (
        Returns-then (set_annotation k v) _ s tt (set_annotation k v s).1 refl
          (patch-Returns s.service (set_annotation k v s).1)))

  -- The patched Service asks for the same, under the new ID.
  pub patched-built :
      (id : String) (s : Session W) (spec : LoadBalancer)
      → build_load_balancer s.service ≡ ok spec
      → build_load_balancer (patch_annotation kube annotation_id id s).1.service
        ≡ ok (record spec { id = id })
  unfolding set_annotation
  patched-built id s spec h = elim (Bool-cases (has_annotation annotation_id id s.service)) [
    | inr e ↦
        ap build_load_balancer (patch_annotation-service kube annotation_id id s e)
        ∙ build_load_balancer-adopted s.service id spec h
    | inl e ↦
        let own : spec.id ≡ id =
          build_load_balancer-id s.service spec h
          ∙ has_annotation-value kube annotation_id id "" s e in
        ap (λ r. build_load_balancer r.1.service) (patch_annotation-idle kube annotation_id id s e)
        ∙ h
        ∙ ap {A = String} (λ i. ok (record spec { id = i })) own
  ]

-- ===== src/LoadBalancer/Annotations/Patch.antt =====
-- What `patchAnnotation` does to the Service (exoscale/patcher.go, and exoscale/loadbalancer.go, lines
-- 601-615).
use exoscale_cloud_controlle.Base.{
  refl, true, false, ok, Bool-cases, inl, inr, ◌>>=◌, String, ◌≡◌, ◌≢◌, ap, ◌==◌, string_eq, arith,
}
use exoscale_cloud_controlle.Base.Dict.{lookup-insert}
use exoscale_cloud_controlle.Base.Text.{to_lower}
use exoscale_cloud_controlle.Cloud.Kubernetes.{Service, Kube}
use exoscale_cloud_controlle.LoadBalancer.Annotations.{
  patch, patch_annotation, has_annotation, set_annotation, get_annotation, is_external,
  annotation_external,
}
use exoscale_cloud_controlle.LoadBalancer.Session.{Session}

module _ {W : Type 0} where
  -- Setting one annotation leaves the others as they are.
  get_annotation-set :
      (k v a d : String) (s : Session W)
      → a ≢ k
      → get_annotation (set_annotation k v s).1.service a d ≡ get_annotation s.service a d
  unfolding get_annotation set_annotation
  get_annotation-set k v a d s differ = ground (arith, lookup-insert a k v s.service.annotations)

  pub is_external-set :
      (k v : String) (s : Session W)
      → annotation_external ≢ k
      → is_external (set_annotation k v s).1.service ≡ is_external s.service
  unfolding is_external
  is_external-set k v s differ =
      ap (λ t. to_lower t == "true") (get_annotation-set k v annotation_external "false" s differ)

  get_annotation-own :
      (k v d : String) (s : Session W) → get_annotation (set_annotation k v s).1.service k d ≡ v
  unfolding get_annotation set_annotation
  get_annotation-own k v d s = ground (arith, lookup-insert k k v s.service.annotations)

module _ {W : Type 0} (kube : Kube W) where
  patch-service : (current : Service) (s : Session W) → (patch kube current s).1.service ≡ s.service
  unfolding patch ◌>>=◌
  patch-service current s = ground arith

  pub patch_annotation-idle :
      (k v : String) (s : Session W)
      → has_annotation k v s.service ≡ true
      → patch_annotation kube k v s ≡ (ok tt, s)
  unfolding patch_annotation ◌>>=◌
  patch_annotation-idle k v s e = rw e refl

  pub patch_annotation-service :
      (k v : String) (s : Session W)
      → has_annotation k v s.service ≡ false
      → (patch_annotation kube k v s).1.service ≡ (set_annotation k v s).1.service
  unfolding patch_annotation ◌>>=◌ set_annotation
  patch_annotation-service k v s e = rw e (patch-service s.service (set_annotation k v s).1)

  pub has_annotation-value :
      (k v d : String) (s : Session W)
      → has_annotation k v s.service ≡ true
      → get_annotation s.service k d ≡ v
  unfolding has_annotation get_annotation
  has_annotation-value k v d s e = ground arith

  -- After `patchAnnotation`, even if it failed, the Service has the annotation and keeps all the others
  -- as they were; and where it has the annotation already, the call does nothing.
  pub patch_annotation-annotations :
      (k v : String) (s : Session W)
      → let t = (patch_annotation kube k v s).1 in
        ((d : String) → get_annotation t.service k d ≡ v)
        × ((a d : String) → a ≢ k → get_annotation t.service a d ≡ get_annotation s.service a d)
        × (has_annotation k v s.service ≡ true → patch_annotation kube k v s ≡ (ok tt, s))
  patch_annotation-annotations k v s = elim (Bool-cases (has_annotation k v s.service)) [
    | inl e ↦
        let idle = patch_annotation-idle k v s e in
        (λ d. rw idle (has_annotation-value k v d s e), λ a d n. rw idle refl, λ _. idle)
    | inr e ↦
        let same = patch_annotation-service k v s e in
        (
          λ d. rw same (get_annotation-own k v d s),
          λ a d n. rw same (get_annotation-set k v a d s n),
          λ f. absurd (ground arith),
        )
  ]

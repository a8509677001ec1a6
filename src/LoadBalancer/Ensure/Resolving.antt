-- ===== src/LoadBalancer/Ensure/Resolving.antt =====
-- The first part of `EnsureLoadBalancer`, which only patches the Service: what it sends.
use mathlib.Core.List.{append-nil}
use exoscale_cloud_controlle.Base.{
  String, ◌≡◌, refl, ◌≢◌, true, false, not, ◌&&◌, List, [], ◌∷◌, ◌==◌, string_eq, Bool-cases,
  Result-cases, inl, inr, ◌||◌, hidef, Option-cases, ap,
}
use exoscale_cloud_controlle.Base.Text.{has_suffix}
use exoscale_cloud_controlle.Cloud.Exoscale.{Client, Finders}
use exoscale_cloud_controlle.Cloud.Kubernetes.{Service, Kube, Node}
use exoscale_cloud_controlle.LoadBalancer.Annotations.{
  has_annotation, set_annotation, patch, patch_annotation, get_annotation, is_external,
  annotation_external, annotation_id, annotation_service_instance_pool_id, annotation_name,
  annotation_sks_cluster_name, annotation_service_sks_node_pool_name,
}
use exoscale_cloud_controlle.LoadBalancer.Annotations.Patch.{is_external-set}
use exoscale_cloud_controlle.LoadBalancer.Emits.{
  Emits, Emits-silent, Emits-send, Emits-map_error, Emits-bind, Emits-when,
}
use exoscale_cloud_controlle.LoadBalancer.Ensure.{
  infer_pool, managing_pool, resolve_external, pool_by_name, pool_by_nodes, resolve_pool,
}
use exoscale_cloud_controlle.LoadBalancer.Session.{Session, Request, patch_service}

set_annotation-Emits :
    {W : Type 0} (P : Request → Type 0) (k v : String) (s : Session W)
    → annotation_external ≢ k
    → Emits P (set_annotation k v) s
unfolding Emits set_annotation
set_annotation-Emits P k v s differ = ([], rw append-nil, tt, is_external-set k v s differ, refl)

module _ {W : Type 0} (P : Request → Type 0)
    (patched : (ns name p : String) → P (patch_service ns name p)) (kube : Kube W) where
  patch-Emits : (current : Service) (s : Session W) → Emits P (patch kube current) s
  unfolding patch
  patch-Emits current s =
      Emits-bind P _ _ s (Emits-map_error P _ _ s (Emits-silent P _ s refl refl)) λ c t _.
        Emits-bind P _ _ t (Emits-silent P _ t refl refl) λ m t1 _.
          Emits-bind P _ _ t1 (Emits-map_error P _ _ t1 (Emits-silent P _ t1 refl refl)) λ j t2 _.
            Emits-bind P _ _ t2 (Emits-map_error P _ _ t2 (Emits-silent P _ t2 refl refl)) λ p t3 _.
              Emits-when P (not (p == "" || p == "{}")) _ t3 (
                Emits-map_error P
                  (hidef "failed to patch service object %s/%s: %s"
                    (current.namespace ∷ current.name ∷ []))
                  _ t3
                  (Emits-send P (patch_service current.namespace current.name p)
                    (kube.patch_service current.namespace current.name p) t3
                    (patched current.namespace current.name p)))

  pub patch_annotation-Emits :
      (k v : String) (s : Session W)
      → annotation_external ≢ k
      → Emits P (patch_annotation kube k v) s
  unfolding patch_annotation
  patch_annotation-Emits k v s differ =
      Emits-bind P _ _ s (Emits-silent P _ s refl refl) λ current t _.
        Emits-when P (not (has_annotation k v current)) _ t (
          Emits-bind P _ _ t (set_annotation-Emits P k v t differ) λ _ t1 _. patch-Emits current t1)

pub id_differs : annotation_external ≢ annotation_id
unfolding has_suffix
id_differs e = let f : true ≡ false = ap (λ x. has_suffix x "external") e in cc

pub pool_differs : annotation_external ≢ annotation_service_instance_pool_id
unfolding has_suffix
pool_differs e = let f : true ≡ false = ap (λ x. has_suffix x "external") e in cc

module _ {W : Type 0} (P : Request → Type 0) (client : Client W) where
  pub infer_pool-Emits :
      (found : String) (nodes : List Node) (s : Session W)
      → Emits P (infer_pool client found nodes) s
  unfolding infer_pool
  infer_pool-Emits found [] s = Emits-silent P _ s refl refl
  infer_pool-Emits found (node ∷ nodes) s =
      Emits-bind P _ _ s (Emits-map_error P _ _ s (Emits-silent P _ s refl refl)) λ instance t _.
        elim (Option-cases (managing_pool instance)) [
          | inl e ↦ rw e (infer_pool-Emits found nodes t)
          | inr (id, e) ↦ elim (Bool-cases (not (found == "") && not (id == found))) [
            | inl f ↦ rw (e, f) (Emits-silent P _ t refl refl)
            | inr f ↦ rw (e, f) (infer_pool-Emits id nodes t)
          ]
        ]

module _ {W : Type 0} (P : Request → Type 0)
    (patched : (ns name p : String) → P (patch_service ns name p)) (client : Client W)
    (finders : Finders) (kube : Kube W) where
  pub resolve_external-Emits : (s : Session W) → Emits P (resolve_external client finders kube) s
  unfolding resolve_external
  resolve_external-Emits s = Emits-bind P _ _ s (Emits-silent P _ s refl refl) λ service t _.
      let id = get_annotation service annotation_id "" in
      let name = get_annotation service annotation_name "" in
      Emits-when P (is_external service) _ t (
        Emits-bind P _ _ t (Emits-silent P _ t refl refl) λ _ t1 _.
          Emits-when P (id == "" && not (name == "")) _ t1 (
            Emits-bind P _ _ t1 (Emits-map_error P _ _ t1 (Emits-silent P _ t1 refl refl))
              λ nlbs t2 _. elim (Result-cases (finders.find_load_balancer nlbs name)) [
                | inl (nlb, e) ↦ rw e (
                    Emits-map_error P _ _ t2
                      (patch_annotation-Emits P patched kube annotation_id nlb.id t2 id_differs))
                | inr (x, e) ↦ rw e (Emits-silent P _ t2 refl refl)
              ]))

  pool_by_name-Emits :
      (cluster nodepool : String) (s : Session W)
      → Emits P (pool_by_name client finders kube cluster nodepool) s
  unfolding pool_by_name
  pool_by_name-Emits cluster nodepool s =
      Emits-bind P _ _ s (Emits-map_error P _ _ s (Emits-silent P _ s refl refl)) λ clusters t _.
        Emits-bind P _ _ t
          (elim (Result-cases (finders.find_sks_cluster clusters cluster)) [
            | inl (c, e) ↦ rw e (Emits-silent P _ t refl refl)
            | inr (x, e) ↦ rw e (Emits-silent P _ t refl refl)
          ])
          λ c t1 _. Emits-bind P _ _ t1 (Emits-silent P _ t1 refl refl) λ _ t2 _.
            Emits-map_error P _ _ t2 (patch_annotation-Emits P patched kube _ _ t2 pool_differs)

  pool_by_nodes-Emits :
      (nodes : List Node) (s : Session W) → Emits P (pool_by_nodes client finders kube nodes) s
  unfolding pool_by_nodes
  pool_by_nodes-Emits nodes s = Emits-bind P _ _ s (infer_pool-Emits P client "" nodes s) λ id t _.
      Emits-bind P _ _ t (Emits-silent P _ t refl refl) λ _ t1 _.
        Emits-map_error P _ _ t1 (patch_annotation-Emits P patched kube _ _ t1 pool_differs)

  pub resolve_pool-Emits :
      (nodes : List Node) (s : Session W) → Emits P (resolve_pool client finders kube nodes) s
  unfolding resolve_pool
  resolve_pool-Emits nodes s = Emits-bind P _ _ s (Emits-silent P _ s refl refl) λ service t _.
      let cluster = get_annotation service annotation_sks_cluster_name "" in
      let nodepool = get_annotation service annotation_service_sks_node_pool_name "" in
      elim (Bool-cases (cluster == "")) [
        | inl e ↦ elim (Bool-cases (nodepool == "")) [
          | inl f ↦
              rw (e, f)
                (Emits-when P (get_annotation service annotation_service_instance_pool_id "" == "")
                  _ t (pool_by_nodes-Emits nodes t))
          | inr f ↦ rw (e, f) (Emits-silent P _ t refl refl)
        ]
        | inr e ↦
            rw e (Emits-when P (not (nodepool == "")) _ t (pool_by_name-Emits cluster nodepool t))
      ]

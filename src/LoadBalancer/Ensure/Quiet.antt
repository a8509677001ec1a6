-- ===== src/LoadBalancer/Ensure/Quiet.antt =====
-- The part of `EnsureLoadBalancer` that comes before `updateLoadBalancer` changes the outside world
-- only by the creation of an NLB and by patches of the Service.
use exoscale_cloud_controlle.Base.{
  String, refl, not, ◌&&◌, ◌||◌, List, [], ◌∷◌, ◌==◌, string_eq, Bool-cases, Result-cases,
  Option-cases, inl, inr, is_load_balancer_not_found, hidef, Option, none, some, deref,
}
use exoscale_cloud_controlle.Cloud.Exoscale.{Client, Finders, LoadBalancer, LoadBalancerRequest}
use exoscale_cloud_controlle.Cloud.Kubernetes.{Kube, Node, Service}
use exoscale_cloud_controlle.LoadBalancer.Annotations.{
  get_annotation, is_external, annotation_id, annotation_name, annotation_service_instance_pool_id,
  annotation_sks_cluster_name, annotation_service_sks_node_pool_name, patch, patch_annotation,
  has_annotation, set_annotation,
}
use exoscale_cloud_controlle.LoadBalancer.Ensure.{
  managing_pool, infer_pool, resolve_external, pool_by_name, pool_by_nodes, resolve_pool,
  create_load_balancer, fetch_or_create,
}
use exoscale_cloud_controlle.LoadBalancer.Fetch.{fetch_load_balancer}
use exoscale_cloud_controlle.LoadBalancer.Session.{Session, patch_service}
use exoscale_cloud_controlle.LoadBalancer.Keeps.{
  Keeps, Keeps-inner, Keeps-call, Keeps-send, Keeps-attempt, Keeps-map_error, Keeps-bind,
  Keeps-when,
}

-- The calls that are not about the services of an NLB keep the property of the world, whether or not
-- they succeed.
pub record IsQuiet {W : Type 0} (client : Client W) (kube : Kube W) (P : W → Type 0) : Type 0 where
  pub created : (req : LoadBalancerRequest) (w : W) → P w → P (client.create_load_balancer req w).1
  pub fetched : (id : String) (w : W) → P w → P (client.get_load_balancer id w).1
  pub told : (id : String) (w : W) → P w → P (client.get_instance id w).1
  pub nlbs : (w : W) → P w → P (client.list_load_balancers w).1
  pub clusters : (w : W) → P w → P (client.list_sks_clusters w).1
  pub patched : (ns name p : String) (w : W) → P w → P (kube.patch_service ns name p w).1

module _ {W : Type 0} (client : Client W) (finders : Finders) (kube : Kube W) (P : W → Type 0)
    (quiet : IsQuiet client kube P) where
  set_annotation-Keeps : (k v : String) (s : Session W) → Keeps P (set_annotation k v) s
  unfolding set_annotation
  set_annotation-Keeps k v s = Keeps-inner P _ s refl

  patch-Keeps : (current : Service) (s : Session W) → Keeps P (patch kube current) s
  unfolding patch
  patch-Keeps current s =
      Keeps-bind P _ _ s (Keeps-map_error P _ _ s (Keeps-inner P _ s refl)) λ c t.
        Keeps-bind P _ _ t (Keeps-inner P _ t refl) λ m t1.
          Keeps-bind P _ _ t1 (Keeps-map_error P _ _ t1 (Keeps-inner P _ t1 refl)) λ j t2.
            Keeps-bind P _ _ t2 (Keeps-map_error P _ _ t2 (Keeps-inner P _ t2 refl)) λ p t3.
              Keeps-when P (not (p == "" || p == "{}")) _ t3 (
                Keeps-map_error P
                  (hidef "failed to patch service object %s/%s: %s"
                    (current.namespace ∷ current.name ∷ []))
                  _ t3
                  (Keeps-send P (patch_service current.namespace current.name p)
                    (kube.patch_service current.namespace current.name p) t3
                    (quiet.patched _ _ p t3.world)))

  patch_annotation-Keeps : (k v : String) (s : Session W) → Keeps P (patch_annotation kube k v) s
  unfolding patch_annotation
  patch_annotation-Keeps k v s = Keeps-bind P _ _ s (Keeps-inner P _ s refl) λ current t.
      Keeps-when P (not (has_annotation k v current)) _ t
        (Keeps-bind P _ _ t (set_annotation-Keeps k v t) λ _ t1. patch-Keeps current t1)

  infer_pool-Keeps :
      (found : String) (nodes : List Node) (s : Session W)
      → Keeps P (infer_pool client found nodes) s
  unfolding infer_pool
  infer_pool-Keeps found [] s = Keeps-inner P _ s refl
  infer_pool-Keeps found (node ∷ nodes) s =
      Keeps-bind P _ _ s
        (Keeps-map_error P _ _ s (Keeps-call P _ s (quiet.told node.system_uuid s.world)))
        λ instance t. elim (Option-cases (managing_pool instance)) [
          | inl e ↦ rw e (infer_pool-Keeps found nodes t)
          | inr (id, e) ↦ elim (Bool-cases (not (found == "") && not (id == found))) [
            | inl f ↦ rw (e, f) (Keeps-inner P _ t refl)
            | inr f ↦ rw (e, f) (infer_pool-Keeps id nodes t)
          ]
        ]

  pub resolve_external-Keeps : (s : Session W) → Keeps P (resolve_external client finders kube) s
  unfolding resolve_external
  resolve_external-Keeps s = Keeps-bind P _ _ s (Keeps-inner P _ s refl) λ service t.
      let id = get_annotation service annotation_id "" in
      let name = get_annotation service annotation_name "" in
      Keeps-when P (is_external service) _ t (
        Keeps-bind P _ _ t (Keeps-inner P _ t refl) λ _ t1.
          Keeps-when P (id == "" && not (name == "")) _ t1 (
            Keeps-bind P _ _ t1 (Keeps-map_error P _ _ t1 (Keeps-call P _ t1 (quiet.nlbs t1.world)))
              λ nlbs t2. elim (Result-cases (finders.find_load_balancer nlbs name)) [
                | inl (nlb, e) ↦
                    rw e (Keeps-map_error P _ _ t2 (patch_annotation-Keeps annotation_id nlb.id t2))
                | inr (x, e) ↦ rw e (Keeps-inner P _ t2 refl)
              ]))

  pool_by_name-Keeps :
      (cluster nodepool : String) (s : Session W)
      → Keeps P (pool_by_name client finders kube cluster nodepool) s
  unfolding pool_by_name
  pool_by_name-Keeps cluster nodepool s =
      Keeps-bind P _ _ s (Keeps-map_error P _ _ s (Keeps-call P _ s (quiet.clusters s.world)))
        λ clusters t.
          Keeps-bind P _ _ t
            (elim (Result-cases (finders.find_sks_cluster clusters cluster)) [
              | inl (c, e) ↦ rw e (Keeps-inner P _ t refl)
              | inr (x, e) ↦ rw e (Keeps-inner P _ t refl)
            ])
            λ c t1.
              Keeps-bind P _ _ t1 (Keeps-inner P _ t1 refl)
                λ _ t2. Keeps-map_error P _ _ t2 (patch_annotation-Keeps _ _ t2)

  pool_by_nodes-Keeps :
      (nodes : List Node) (s : Session W) → Keeps P (pool_by_nodes client finders kube nodes) s
  unfolding pool_by_nodes
  pool_by_nodes-Keeps nodes s = Keeps-bind P _ _ s (infer_pool-Keeps "" nodes s) λ id t.
      Keeps-bind P _ _ t (Keeps-inner P _ t refl)
        λ _ t1. Keeps-map_error P _ _ t1 (patch_annotation-Keeps _ _ t1)

  pub resolve_pool-Keeps :
      (nodes : List Node) (s : Session W) → Keeps P (resolve_pool client finders kube nodes) s
  unfolding resolve_pool
  resolve_pool-Keeps nodes s = Keeps-bind P _ _ s (Keeps-inner P _ s refl) λ service t.
      let cluster = get_annotation service annotation_sks_cluster_name "" in
      let nodepool = get_annotation service annotation_service_sks_node_pool_name "" in
      elim (Bool-cases (cluster == "")) [
        | inl e ↦ elim (Bool-cases (nodepool == "")) [
          | inl f ↦
              rw (e, f)
                (Keeps-when P (get_annotation service annotation_service_instance_pool_id "" == "")
                  _ t (pool_by_nodes-Keeps nodes t))
          | inr f ↦ rw (e, f) (Keeps-inner P _ t refl)
        ]
        | inr e ↦
            rw e (Keeps-when P (not (nodepool == "")) _ t (pool_by_name-Keeps cluster nodepool t))
      ]

  fetch-Keeps : (s : Session W) → Keeps P (fetch_load_balancer client) s
  unfolding fetch_load_balancer
  fetch-Keeps s = Keeps-bind P _ _ s (Keeps-inner P _ s refl) λ service t.
      elim (Bool-cases (get_annotation service annotation_id "" == "")) [
        | inl e ↦ rw e (Keeps-inner P _ t refl)
        | inr e ↦ rw e (Keeps-map_error P _ _ t (Keeps-call P _ t (quiet.fetched _ t.world)))
      ]

  deref-Keeps : {A : Type 0} (o : Option A) (s : Session W) → Keeps P (deref o) s
  deref-Keeps none s = Keeps-inner P _ s refl
  deref-Keeps (some a) s = Keeps-inner P _ s refl

  create-Keeps :
      (spec : LoadBalancer) (s : Session W)
      → Keeps P (create_load_balancer client finders kube spec) s
  unfolding create_load_balancer
  create-Keeps spec s = Keeps-bind P _ _ s (Keeps-send P _ _ s (quiet.created _ s.world)) λ op t.
      Keeps-bind P _ _ t (deref-Keeps op.reference t) λ id t1.
        Keeps-bind P _ _ t1 (Keeps-call P _ t1 (quiet.fetched id t1.world)) λ nlb t2.
          Keeps-bind P _ _ t2
            (Keeps-map_error P _ _ t2 (patch_annotation-Keeps annotation_id nlb.id t2))
            λ _ t3. Keeps-inner P _ t3 refl

  pub fetch_or_create-Keeps :
      (spec : LoadBalancer) (s : Session W) → Keeps P (fetch_or_create client finders kube spec) s
  unfolding fetch_or_create
  fetch_or_create-Keeps spec s =
      Keeps-bind P _ _ s (Keeps-attempt P _ s (fetch-Keeps s)) λ fetched t.
        Keeps-bind P _ _ t (Keeps-inner P _ t refl) λ service t1. elim (Result-cases fetched) [
          | inl (nlb, e) ↦ rw e (Keeps-inner P _ t1 refl)
          | inr (x, e) ↦ elim (Bool-cases (is_load_balancer_not_found x)) [
            | inl f ↦ elim (Bool-cases (is_external service)) [
              | inl g ↦ rw (e, f, g) (Keeps-inner P _ t1 refl)
              | inr g ↦ rw (e, f, g) (create-Keeps spec t1)
            ]
            | inr f ↦ rw (e, f) (Keeps-inner P _ t1 refl)
          ]
        ]

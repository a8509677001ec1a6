-- ===== src/LoadBalancer/Ensure.antt =====
-- `EnsureLoadBalancer` (exoscale/loadbalancer.go, lines 94-262).
pub mod Requests
pub mod Resolving
pub mod External
pub mod Pools
pub mod Quiet
pub mod Adopted
pub mod Ensured
pub mod Status
pub mod Willing
pub mod Answers
pub mod Hosts
pub mod Unsupported
use exoscale_cloud_controlle.Base.{
  String, Bool, true, false, not, ◌&&◌, ◌||◌, Option, none, some, List, [], ◌∷◌, ◌==◌, string_eq,
  if◌then◌else◌, Result, ok, err, Action, Error, errorf, wrapf, hidef, is_load_balancer_not_found,
  ◌>>=◌, ◌>>◌, gets, lift, done, pure, deref, fail, fail_if, map_error, when, attempt, find,
}
use exoscale_cloud_controlle.Base.Text.{equal_fold}
use exoscale_cloud_controlle.Cloud.Exoscale.{
  Client, Finders, LoadBalancer, LoadBalancerRequest, SksNodepool, Instance,
}
use exoscale_cloud_controlle.Cloud.Kubernetes.{Service, Node, Kube}
use exoscale_cloud_controlle.LoadBalancer.Annotations.{
  get_annotation, annotation_id, annotation_name, annotation_sks_cluster_name,
  annotation_service_sks_node_pool_name, annotation_service_instance_pool_id, is_external,
  patch_annotation,
}
use exoscale_cloud_controlle.LoadBalancer.Build.{build_load_balancer}
use exoscale_cloud_controlle.LoadBalancer.Fetch.{fetch_load_balancer}
use exoscale_cloud_controlle.LoadBalancer.Session.{Session, call, send, create_nlb}
use exoscale_cloud_controlle.LoadBalancer.Update.{update_load_balancer}

-- The loop over the node pools of a cluster: the ID of the first pool of that name that has an
-- instance pool, or the empty text.
abbrev pub has_pool : SksNodepool → Bool
has_pool pool = elim pool.instance_pool [ none ↦ false | some _ ↦ true ]

unfoldable pub pool_of_nodepools : String → List SksNodepool → String
unfolding equal_fold
pool_of_nodepools name [] = ""
pool_of_nodepools name (pool ∷ pools) = elim (equal_fold pool.name name) [
  | false ↦ pool_of_nodepools name pools
  | true ↦ elim pool.instance_pool [ none ↦ pool_of_nodepools name pools | some id ↦ id ]
]

abbrev pub multiple_pools : Error
multiple_pools =
    errorf
      "multiple Instance Pools detected across cluster Nodes, an Instance Pool ID must be specified in Service manifest annotations"
      []

-- The manager's ID, for an instance that an instance pool manages.
abbrev pub managing_pool : Instance → Option String
managing_pool instance = elim instance.manager [
  | none ↦ none
  | some m ↦ if m.type == "instance-pool" then some m.id else none
]

module _ {W : Type 0} (client : Client W) where
  -- The loop over the nodes, from the pool found so far.
  unfoldable pub infer_pool : String → List Node → Action (Session W) String
  infer_pool found [] = pure found
  infer_pool found (node ∷ nodes) = do
    instance ←
        map_error (hidef "error retrieving Compute instance information: %s" [])
          (call (client.get_instance node.system_uuid))
    elim (managing_pool instance) [
      | none ↦ infer_pool found nodes
      | some id ↦ elim (not (found == "") && not (id == found)) [
        | true ↦ fail multiple_pools
        | false ↦ infer_pool id nodes
      ]
    ]

module _ {W : Type 0} (client : Client W) (finders : Finders) (kube : Kube W) where
  -- An external NLB is found by its name, where it has no ID yet.
  unfoldable pub resolve_external : Action (Session W) (Unit {0})
  unfolding get_annotation is_external string_eq patch_annotation
  resolve_external = do
    service ← gets (λ s. s.service)
    let id = get_annotation service annotation_id ""
    let name = get_annotation service annotation_name ""
    when (is_external service) (
        fail_if (id == "" && name == "") (
          errorf
            "NLB instance marked as external in Service annotations, but no ID or name specified"
            [])
        >> when (id == "" && not (name == "")) (
            map_error (wrapf "error listing NLBs: %w") (call client.list_load_balancers) >>= λ nlbs.
            elim (finders.find_load_balancer nlbs name) [
              | err e ↦ fail (
                  errorf "NLB instance is marked external by name %q, but no matching NLB was found"
                    (name ∷ []))
              | ok nlb ↦
                  map_error (wrapf "error patching annotations: %w")
                    (patch_annotation kube annotation_id nlb.id)
            ]))

  -- The instance pool by the names of an SKS cluster and node pool.
  unfoldable pub pool_by_name : String → String → Action (Session W) (Unit {0})
  unfolding pool_of_nodepools string_eq patch_annotation
  pool_by_name cluster_name nodepool_name = do
    clusters ← map_error (hidef "error listing SKS clusters: %s" []) (call client.list_sks_clusters)
    cluster ← elim (finders.find_sks_cluster clusters cluster_name) [
      | err e ↦ fail (errorf "SKS cluster with name %s not found" (cluster_name ∷ []))
      | ok c ↦ pure c
    ]
    let id = pool_of_nodepools nodepool_name cluster.nodepools
    fail_if (id == "") (errorf "SKS node pool with name %s not found" (nodepool_name ∷ []))
    map_error (hidef "error patching annotations: %s" [])
        (patch_annotation kube annotation_service_instance_pool_id id)

  -- The instance pool that all the nodes of the cluster share.
  unfoldable pub pool_by_nodes : List Node → Action (Session W) (Unit {0})
  unfolding infer_pool string_eq patch_annotation
  pool_by_nodes nodes = do
    id ← infer_pool client "" nodes
    fail_if (id == "") (errorf "couldn't infer any Instance Pool from cluster Nodes" [])
    map_error (hidef "error patching annotations: %s" [])
        (patch_annotation kube annotation_service_instance_pool_id id)

  unfoldable pub resolve_pool : List Node → Action (Session W) (Unit {0})
  unfolding get_annotation string_eq pool_by_name pool_by_nodes
  resolve_pool nodes = do
    service ← gets (λ s. s.service)
    let cluster_name = get_annotation service annotation_sks_cluster_name ""
    let nodepool_name = get_annotation service annotation_service_sks_node_pool_name ""
    let pool = get_annotation service annotation_service_instance_pool_id ""
    if not (cluster_name == "")
        then when (not (nodepool_name == "")) (pool_by_name cluster_name nodepool_name)
        else if not (nodepool_name == "")
        then fail (errorf "SKS node pool name specified without SKS cluster name" [])
        else when (pool == "") (pool_by_nodes nodes)

  -- The NLB that the specification asks for, and its ID in the annotations.
  unfoldable pub create_load_balancer : LoadBalancer → Action (Session W) LoadBalancer
  unfolding patch_annotation
  create_load_balancer spec = do
    let req : LoadBalancerRequest = record {
      name = spec.name;
      description = spec.description;
      labels = spec.labels;
    }
    op ← send (create_nlb req) (client.create_load_balancer req)
    id ← deref op.reference
    nlb ← call (client.get_load_balancer id)
    map_error (hidef "error patching annotations: %s" [])
        (patch_annotation kube annotation_id nlb.id)
    pure nlb

  abbrev cannot_create : Error
  cannot_create = errorf "NLB instance marked as external in Service annotations, cannot create" []

  -- The NLB of the annotations, or a new one.
  unfoldable pub fetch_or_create : LoadBalancer → Action (Session W) LoadBalancer
  unfolding fetch_load_balancer is_external create_load_balancer
  fetch_or_create spec = do
    fetched ← attempt (fetch_load_balancer client)
    service ← gets (λ s. s.service)
    elim fetched [
      | ok nlb ↦ pure nlb
      | err e ↦
          if is_load_balancer_not_found e
          then if is_external service then fail cannot_create else create_load_balancer spec
          else fail e
    ]

  -- `EnsureLoadBalancer`; the status is the address of the NLB.
  unfoldable pub ensure_load_balancer : List Node → Action (Session W) String
  unfolding resolve_external resolve_pool build_load_balancer fetch_or_create update_load_balancer
  ensure_load_balancer nodes = do
    resolve_external
    resolve_pool nodes
    service ← gets (λ s. s.service)
    spec ← lift (build_load_balancer service)
    nlb ← fetch_or_create spec
    update_load_balancer client
    pure nlb.ip

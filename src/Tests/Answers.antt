-- ===== src/Tests/Answers.antt =====
-- The first `EnsureLoadBalancer` for a Service, over an API that makes an NLB for it.
use exoscale_cloud_controlle.Base.{String, ◌≡◌, refl, ap, ◌≢◌, true, false, [], ◌∷◌, string_eq, ok}
use exoscale_cloud_controlle.Base.Returns.{Returns}
use exoscale_cloud_controlle.Base.Text.{is_empty}
use exoscale_cloud_controlle.Cloud.Exoscale.{Client}
use exoscale_cloud_controlle.Cloud.Kubernetes.{Service}
use exoscale_cloud_controlle.LoadBalancer.Annotations.{
  annotation_service_instance_pool_id, get_annotation, is_external, annotation_sks_cluster_name,
  annotation_service_sks_node_pool_name,
}
use exoscale_cloud_controlle.LoadBalancer.Build.{build_load_balancer}
use exoscale_cloud_controlle.LoadBalancer.Converge.Returns.{IsReliable}
use exoscale_cloud_controlle.LoadBalancer.Ensure.{ensure_load_balancer}
use exoscale_cloud_controlle.LoadBalancer.Ensure.Willing.{IsWilling, Creates}
use exoscale_cloud_controlle.LoadBalancer.Ensure.Answers.{ensure_load_balancer-Returns}
use exoscale_cloud_controlle.LoadBalancer.Lawful.{IsLawful}
use exoscale_cloud_controlle.LoadBalancer.Session.{Session}
use exoscale_cloud_controlle.Tests.World.{web, op, finders}
use exoscale_cloud_controlle.Tests.Convergence.{quiet_kube, wanted-Addable}
use exoscale_cloud_controlle.Tests.LawfulCloud.{
  World, seen, cloud, cloud-IsLawful, cloud-IsReliable,
}
use exoscale_cloud_controlle.Tests.LoadBalancers.{wanted, id_given}

abbrev making : Client World
making = record cloud { create_load_balancer = λ req w. (ok op, w) }

making-IsLawful : IsLawful making seen
making-IsLawful = record {
  fetched = cloud-IsLawful.fetched;
  renamed = cloud-IsLawful.renamed;
  added = cloud-IsLawful.added;
  changed = cloud-IsLawful.changed;
  deleted = cloud-IsLawful.deleted;
  removed = cloud-IsLawful.removed;
}

making-IsReliable : IsReliable making "nlb-1"
making-IsReliable = record {
  fetched = cloud-IsReliable.fetched;
  renamed = cloud-IsReliable.renamed;
  added = cloud-IsReliable.added;
  changed = cloud-IsReliable.changed;
  deleted = cloud-IsReliable.deleted;
}

making-Creates : Creates making
making-Creates = record {
  created = λ req w. (op, "nlb-1", w, refl, refl, id_given, making-IsReliable);
}

quiet_kube-IsWilling : IsWilling quiet_kube
unfolding quiet_kube Returns
quiet_kube-IsWilling = record {
  marshalled = λ v. (v.uid, refl);
  merged = λ a b. (b, refl);
  patched = λ ns name p w. (tt, w, refl);
}

-- No annotation names an NLB.
abbrev fresh_web : Service
fresh_web = record web { annotations = (annotation_service_instance_pool_id, "pool-1") ∷ [] }

abbrev nothing_yet : Session World
nothing_yet = record { service = fresh_web; world = []; requests = [] }

fresh-built : build_load_balancer fresh_web ≡ ok (record wanted { id = "" })
unfolding build_load_balancer
fresh-built = refl

pool_id_given : get_annotation fresh_web annotation_service_instance_pool_id "" ≢ ""
unfolding get_annotation string_eq
pool_id_given e = let f : false ≡ true = ap is_empty e in cc

fresh-external : is_external fresh_web ≡ false
unfolding is_external string_eq
fresh-external = refl

no_cluster : get_annotation fresh_web annotation_sks_cluster_name "" ≡ ""
unfolding get_annotation string_eq
no_cluster = refl

no_nodepool : get_annotation fresh_web annotation_service_sks_node_pool_name "" ≡ ""
unfolding get_annotation string_eq
no_nodepool = refl

ensure_load_balancer-Returns_example :
    (ip : String) × (t : Session World) × (ensure_load_balancer making finders quiet_kube []
        nothing_yet
      ≡ (ok ip, t))
ensure_load_balancer-Returns_example =
    ensure_load_balancer-Returns making seen making-IsLawful finders quiet_kube quiet_kube-IsWilling
      [] nothing_yet {spec = record wanted { id = "" }} fresh-built wanted-Addable fresh-external
      no_cluster no_nodepool pool_id_given making-Creates (λ n. absurd (n refl))

-- ===== src/Tests/LoadBalancers.antt =====
-- Runs of the load balancer controller.
use exoscale_cloud_controlle.Base.{
  Member, String, ℕ, ◌≡◌, ◌≢◌, refl, ap, true, false, List, [], ◌∷◌, string_eq, ok, err, ◌>>=◌, pos,
  arith, some, All, ◌++◌, ◌⊎◌, inl, inr,
}
use exoscale_cloud_controlle.Base.Text.{is_empty, equal_fold}
use exoscale_cloud_controlle.Cloud.Kubernetes.{Service, ServicePort}
use exoscale_cloud_controlle.LoadBalancer.Build.{is_supported}
use exoscale_cloud_controlle.LoadBalancer.Build.Checks.{IsChecked, build_load_balancer-IsChecked}
use exoscale_cloud_controlle.LoadBalancer.Build.Keys.{Zip, build_load_balancer-Zip}
use exoscale_cloud_controlle.LoadBalancer.Build.Names.{service_name_injective}
use exoscale_cloud_controlle.LoadBalancer.Delete.{
  ensure_load_balancer_deleted, delete_found, delete_of,
}
use exoscale_cloud_controlle.LoadBalancer.Delete.Plan.{
  delete_plan, ensure_load_balancer_deleted-Sends,
}
use exoscale_cloud_controlle.LoadBalancer.Emits.{Adds}
use exoscale_cloud_controlle.LoadBalancer.Ensure.{ensure_load_balancer, infer_pool, multiple_pools}
use exoscale_cloud_controlle.LoadBalancer.Ensure.Pools.{pools, infer_pool-pools}
use exoscale_cloud_controlle.LoadBalancer.Ensure.External.{external_nlb_left_alone}
use exoscale_cloud_controlle.LoadBalancer.Ensure.Requests.{LeavesNlb}
use exoscale_cloud_controlle.LoadBalancer.Fetch.{fetch_load_balancer}
use exoscale_cloud_controlle.LoadBalancer.Update.Requested.{OnlyDesired, Renames}
use exoscale_cloud_controlle.LoadBalancer.Update.Safety.{
  update_load_balancer-OnlyDesired, update_load_balancer-Renames,
}
use exoscale_cloud_controlle.Cloud.Exoscale.{Client, LoadBalancer, LoadBalancerService}
use exoscale_cloud_controlle.LoadBalancer.Annotations.Patch.{patch_annotation-annotations}
use exoscale_cloud_controlle.LoadBalancer.Annotations.{
  patch_annotation, annotation_id, annotation_health_check_port, get_annotation, has_annotation,
  is_external,
}
use exoscale_cloud_controlle.LoadBalancer.Build.{build_load_balancer}
use exoscale_cloud_controlle.LoadBalancer.Sends.{Sends, Any}
use exoscale_cloud_controlle.LoadBalancer.Session.{Request, delete_service}
use exoscale_cloud_controlle.LoadBalancer.Update.{update_load_balancer}
use exoscale_cloud_controlle.LoadBalancer.Update.Plan.{plan}
use exoscale_cloud_controlle.LoadBalancer.Update.Refinement.{update_load_balancer-Sends}
use exoscale_cloud_controlle.Tests.World.{
  account_instance, node_object, account, account_nlb, web, web_external, start, http, check_30080,
  finders, kube, port_80,
}

abbrev dns : LoadBalancerService
dns = record http {
  name = "uid-53-udp";
  port = pos 53;
  target_port = pos 30053;
  protocol = "udp";
  healthcheck = some (record check_30080 { port = pos 30053 });
  id = "";
  state = "";
}

abbrev pub wanted : LoadBalancer
wanted = record {
  id = "nlb-1";
  name = "k8s-uid";
  description = "";
  ip = "<nil>";
  labels = [];
  services = record http { id = ""; state = "" } ∷ dns ∷ [];
  state = "";
}

pub web_built : build_load_balancer web ≡ ok wanted
unfolding build_load_balancer
web_built = refl

account-fetched : account.get_load_balancer "nlb-1" account_nlb ≡ (ok account_nlb, account_nlb)
unfolding account
account-fetched = refl

pub id_given : wanted.id ≢ ""
id_given e = let f : false ≡ true = ap is_empty e in cc

update_load_balancer-Sends_example :
    Sends Any (plan (is_external web) account_nlb wanted) (update_load_balancer account) (start web)
update_load_balancer-Sends_example =
    update_load_balancer-Sends account (start web) {update = wanted} {current = account_nlb}
      {w = account_nlb} web_built id_given account-fetched

pub external_built : build_load_balancer web_external ≡ ok wanted
unfolding build_load_balancer
external_built = refl

pub web_external-external : is_external web_external ≡ true
unfolding is_external string_eq
web_external-external = refl

update_load_balancer-OnlyDesired_example :
    (sent : List Request) × ((update_load_balancer account (start web_external)).1.requests
      ≡ [] ++ sent)
    × All (OnlyDesired account_nlb wanted) sent
update_load_balancer-OnlyDesired_example =
    update_load_balancer-OnlyDesired account (start web_external) {update = wanted}
      {current = account_nlb} {w = account_nlb} web_external-external external_built id_given
      account-fetched

update_load_balancer-Renames_example :
    (sent : List Request) × ((update_load_balancer account (start web)).1.requests ≡ [] ++ sent)
    × All (Renames account_nlb wanted) sent
update_load_balancer-Renames_example =
    update_load_balancer-Renames account (start web) {update = wanted} {current = account_nlb}
      {w = account_nlb} web_built id_given account-fetched

web-fetched :
    fetch_load_balancer account (start web)
    ≡ (ok account_nlb, record (start web) { world = account_nlb })
unfolding fetch_load_balancer ◌>>=◌ account
web-fetched = refl

ensure_load_balancer_deleted-Sends_example :
    Sends Any
      (delete_plan (is_external web) web.ports account_nlb)
      (ensure_load_balancer_deleted account)
      (start web)
ensure_load_balancer_deleted-Sends_example =
    ensure_load_balancer_deleted-Sends account (start web) {nlb = account_nlb} {w = account_nlb}
      web-fetched

-- The foreign service keeps the NLB alive.
delete_run :
    (ensure_load_balancer_deleted account (start web)).1.requests
    ≡ delete_service "nlb-1" "svc-1" ∷ []
unfolding ensure_load_balancer_deleted delete_found delete_of fetch_load_balancer equal_fold ◌>>=◌
    account
delete_run = refl

external_nlb_left_alone_example :
    Adds LeavesNlb
      (start web_external)
      (ensure_load_balancer account finders kube [] (start web_external)).1
    × Adds LeavesNlb
        (start web_external)
        (ensure_load_balancer_deleted account (start web_external)).1
external_nlb_left_alone_example =
    external_nlb_left_alone account finders kube [] (start web_external) web_external-external

build_load_balancer-Zip_example : Zip wanted.services web.ports
build_load_balancer-Zip_example = build_load_balancer-Zip web wanted web_built

supported : (p : ServicePort) → (p.protocol ≡ "TCP") ⊎ (p.protocol ≡ "UDP") → is_supported p ≡ true
unfolding is_supported
supported p (inl h) = ground arith
supported p (inr h) = ground arith

service_name_injective_example : (◌≡◌ {A = ℕ} 80 80) × (port_80.protocol ≡ port_80.protocol)
service_name_injective_example =
    service_name_injective "uid" port_80 port_80 80 80 refl refl (supported port_80 (inl refl))
      (supported port_80 (inl refl)) refl

-- An API that knows the account's instance under every ID.
abbrev steady : Client LoadBalancer
steady = record account { get_instance = λ id w. (ok account_instance, w) }

pools-named : All (λ id. id ≢ "") (pools (λ _. account_instance) (node_object ∷ []))
unfolding string_eq
pools-named = ((λ e. let f : false ≡ true = ap is_empty e in cc), tt)

infer_pool-pools_example :
    ((id : String)
      → Member id (pools (λ _. account_instance) (node_object ∷ []))
      → All (λ j. j ≡ id) (pools (λ _. account_instance) (node_object ∷ []))
      → infer_pool steady "" (node_object ∷ []) (start web) ≡ (ok id, start web))
    × ((a b : String)
        → Member a (pools (λ _. account_instance) (node_object ∷ []))
        → Member b (pools (λ _. account_instance) (node_object ∷ []))
        → a ≢ b
        → infer_pool steady "" (node_object ∷ []) (start web) ≡ (err multiple_pools, start web))
infer_pool-pools_example =
    infer_pool-pools steady (λ _. account_instance) (node_object ∷ []) (start web) (λ id w. refl)
      pools-named

patch_annotation-annotations_example :
    let t = (patch_annotation kube annotation_id "nlb-2" (start web)).1 in
    ((d : String) → get_annotation t.service annotation_id d ≡ "nlb-2")
    × ((a d : String) → a ≢ annotation_id → get_annotation t.service a d ≡ get_annotation web a d)
    × (has_annotation annotation_id "nlb-2" web ≡ true
        → patch_annotation kube annotation_id "nlb-2" (start web) ≡ (ok tt, start web))
patch_annotation-annotations_example =
    patch_annotation-annotations kube annotation_id "nlb-2" (start web)

-- A healthcheck port that sixteen bits do not hold: 65616 is 80 over 65536.
abbrev web_checked : Service
web_checked = record web {
  annotations = (annotation_health_check_port, "65616") ∷ web.annotations;
  ports = port_80 ∷ [];
}

abbrev checked_wanted : LoadBalancer
checked_wanted = record wanted {
  services =
      record http { id = ""; state = ""; healthcheck = some (record check_30080 { port = pos 80 }) }
      ∷ [];
}

checked_built : build_load_balancer web_checked ≡ ok checked_wanted
unfolding build_load_balancer string_eq
checked_built = refl

build_load_balancer-IsChecked_example : All (IsChecked web_checked) checked_wanted.services
build_load_balancer-IsChecked_example =
    build_load_balancer-IsChecked web_checked checked_wanted checked_built

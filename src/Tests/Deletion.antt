-- ===== src/Tests/Deletion.antt =====
-- A run of `EnsureLoadBalancerDeleted` over an API that obeys the laws.
use exoscale_cloud_controlle.Base.{
  ◌≡◌, refl, sym, subst, inl, not, keep_if, [], true, false, ◌==◌, int_eq, nat_eq, string_eq, ok, ℤ,
  pos, ◌>>=◌, arith,
}
use exoscale_cloud_controlle.Base.Text.{equal_fold}
use exoscale_cloud_controlle.LoadBalancer.Annotations.{is_external, annotation_id, get_annotation}
use exoscale_cloud_controlle.LoadBalancer.Delete.{
  matches_port, delete_matching, delete_services, delete_found, delete_of,
  ensure_load_balancer_deleted,
}
use exoscale_cloud_controlle.LoadBalancer.Delete.Counted.{Apart, IsCleared}
use exoscale_cloud_controlle.LoadBalancer.Delete.Deleted.{ensure_load_balancer_deleted-IsCleared}
use exoscale_cloud_controlle.LoadBalancer.Delete.Removed.{
  IsRemovable, ensure_load_balancer_deleted-Returns,
}
use exoscale_cloud_controlle.Base.Returns.{Returns}
use exoscale_cloud_controlle.LoadBalancer.Fetch.{fetch_load_balancer}
use exoscale_cloud_controlle.LoadBalancer.Session.{Session}
use exoscale_cloud_controlle.Tests.World.{account_nlb, web, op}
use exoscale_cloud_controlle.Tests.LawfulCloud.{World, seen, cloud, cloud-IsLawful}
use exoscale_cloud_controlle.Tests.Convergence.{begin, begin-IsOrderly, cloud-fetched}

abbrev cleared : Session World
cleared = (ensure_load_balancer_deleted cloud begin).1

begin-found : fetch_load_balancer cloud begin ≡ (ok account_nlb, begin)
unfolding fetch_load_balancer ◌>>=◌ cloud string_eq
begin-found = refl

begin-cleared : ensure_load_balancer_deleted cloud begin ≡ (ok tt, cleared)
unfolding ensure_load_balancer_deleted delete_found delete_of delete_services delete_matching
    matches_port fetch_load_balancer ◌>>=◌ cloud string_eq equal_fold int_eq is_external
begin-cleared = refl

other_port : (x : ℤ) → (x == pos 80) ≡ true → (x == pos 53) ≡ false
unfolding int_eq
other_port x e = ground arith

web-Apart : Apart web.ports
unfolding matches_port
web-Apart = (
  λ s h. let e : (s.port == pos 53) ≡ false = other_port s.port (ground arith) in ground arith,
  (λ s h. refl, tt),
)

ensure_load_balancer_deleted-IsCleared_example :
    IsCleared web.ports (seen "nlb-1" begin.world) (seen "nlb-1" cleared.world)
ensure_load_balancer_deleted-IsCleared_example =
    ensure_load_balancer_deleted-IsCleared cloud seen cloud-IsLawful begin cleared
      {nlb = account_nlb} {w = begin.world} cloud-fetched begin-found begin-IsOrderly web-Apart
      begin-cleared

cloud-IsRemovable : IsRemovable cloud "nlb-1"
unfolding cloud Returns string_eq
cloud-IsRemovable = record {
  fetched = λ w. inl (record account_nlb { services = w }, w, refl, refl);
  deleted = λ sid w. (op, keep_if (λ s. not (s.id == sid)) w, refl);
  removed = λ w. (op, [], refl);
}

begin-named : get_annotation begin.service annotation_id "" ≡ "nlb-1"
unfolding get_annotation string_eq
begin-named = refl

ensure_load_balancer_deleted-Returns_example :
    (t : Session World) × (ensure_load_balancer_deleted cloud begin ≡ (ok tt, t))
ensure_load_balancer_deleted-Returns_example =
    ensure_load_balancer_deleted-Returns cloud begin
      (λ _. subst (IsRemovable cloud) (sym begin-named) cloud-IsRemovable)

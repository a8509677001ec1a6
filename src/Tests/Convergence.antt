-- ===== src/Tests/Convergence.antt =====
-- Two runs of `updateLoadBalancer` over an API that obeys the laws.
use Prim.Native.Char.{Char}
use exoscale_cloud_controlle.Base.{
  Member, String, ◌≡◌, refl, sym, ap, ◌∙◌, ◌≢◌, inl, inr, true, false, List, [], ◌∷◌, ◌++◌,
  string_eq, not_found, none, some, subst, ok, pos, All, arith, ◌==◌, ◌>>=◌, int_eq,
}
use exoscale_cloud_controlle.Base.Dict.{lookup, insert}
use exoscale_cloud_controlle.Base.Text.{is_empty}
use exoscale_cloud_controlle.Cloud.Exoscale.{LoadBalancerService}
use exoscale_cloud_controlle.LoadBalancer.Annotations.{is_external}
use exoscale_cloud_controlle.LoadBalancer.Build.{build_load_balancer, service_eq, without_status}
use exoscale_cloud_controlle.LoadBalancer.Converge.Rounds.{IsOrderly}
use exoscale_cloud_controlle.LoadBalancer.Converge.Loops.{DistinctKeys}
use exoscale_cloud_controlle.LoadBalancer.Converge.Kept.{IsReached}
use exoscale_cloud_controlle.LoadBalancer.Converge.Reached.{update_load_balancer-IsReached}
use exoscale_cloud_controlle.LoadBalancer.Converge.Stable.{InPlace, second_update-InPlace}
use exoscale_cloud_controlle.LoadBalancer.Converge.Returns.{Addable, update_load_balancer-Returns}
use exoscale_cloud_controlle.LoadBalancer.Converge.Ports.{DistinctPorts}
use exoscale_cloud_controlle.LoadBalancer.Ensure.{ensure_load_balancer}
use exoscale_cloud_controlle.LoadBalancer.Ensure.Quiet.{IsQuiet}
use exoscale_cloud_controlle.LoadBalancer.Ensure.Ensured.{IsEnsured, ensure_load_balancer-IsEnsured}
use exoscale_cloud_controlle.Cloud.Kubernetes.{Kube}
use exoscale_cloud_controlle.Cloud.Refreshable.{refreshable}
use exoscale_cloud_controlle.LoadBalancer.Lawful.{IsLawful}
use exoscale_cloud_controlle.LoadBalancer.Converge.Eventual.{refreshable-IsLawful}
use exoscale_cloud_controlle.LoadBalancer.Session.{Request, Session}
use exoscale_cloud_controlle.LoadBalancer.Update.{key_eq, key_of, reconcile, update_load_balancer}
use exoscale_cloud_controlle.Tests.World.{finders, pool_1, account_nlb, web, http, foreign}
use exoscale_cloud_controlle.Tests.LawfulCloud.{
  World, seen, cloud, cloud-IsLawful, cloud-IsReliable,
}
use exoscale_cloud_controlle.Tests.DelayedCloud.{seen_delayed, delayed, delayed-IsEventual}
use exoscale_cloud_controlle.Tests.LoadBalancers.{wanted, web_built, id_given}

abbrev pub begin : Session World
begin = record { service = web; world = http ∷ foreign ∷ []; requests = [] }

abbrev pub after : Session World
after = (update_load_balancer cloud begin).1

other_id : http.id ≢ foreign.id
unfolding string_eq
other_id e = let f : true ≡ false = ap (λ z. z == "svc-1") e in cc

other_key : key_of http ≢ key_of foreign
other_key e = let f : pos 80 ≡ pos 9000 = ap (λ k. k.port) e in ground arith

two :
    {A : Type 0} (f : LoadBalancerService → A)
    → f http ≢ f foreign
    → (s t : LoadBalancerService) → Member s begin.world
    → Member t begin.world
    → f s ≡ f t
    → s ≡ t
two f n s t (inl a) (inl b) h = a ∙ sym b
two f n s t (inl a) (inr (inl b)) h = absurd (n (ap f (sym a) ∙ h ∙ ap f b))
two f n s t (inr (inl a)) (inl b) h = absurd (n (ap f (sym b) ∙ sym h ∙ ap f a))
two f n s t (inr (inl a)) (inr (inl b)) h = a ∙ sym b
two f n s t (inr (inr m)) _ h = absurd m
two f n s t _ (inr (inr m)) h = absurd m

pub begin-IsOrderly : IsOrderly (seen "nlb-1" begin.world)
begin-IsOrderly = record {
  ids = λ x y (s, m, e) (t, n, f) h.
      e
      ∙ ap without_status
          (two (λ z. z.id) other_id s t m n (ap (λ z. z.id) (sym e) ∙ h ∙ ap (λ z. z.id) f))
      ∙ sym f;
  keys = λ x y (s, m, e) (t, n, f) h.
      e
      ∙ ap without_status (two key_of other_key s t m n (ap key_of (sym e) ∙ h ∙ ap key_of f))
      ∙ sym f;
}

wanted-DistinctKeys : DistinctKeys wanted.services
wanted-DistinctKeys =
    ((λ e. let f : pos 53 ≡ pos 80 = ap (λ k. k.port) e in ground arith, tt), (tt, tt))

pub cloud-fetched : cloud.get_load_balancer "nlb-1" begin.world ≡ (ok account_nlb, begin.world)
unfolding cloud
cloud-fetched = refl

begin-ran : update_load_balancer cloud begin ≡ (ok tt, after)
unfolding update_load_balancer cloud ◌>>=◌ key_eq lookup insert service_eq string_eq
    build_load_balancer reconcile is_external
begin-ran = refl

update_load_balancer-IsReached_example :
    IsReached
      (is_external web)
      wanted.services
      (seen "nlb-1" begin.world)
      (seen "nlb-1" after.world)
update_load_balancer-IsReached_example =
    update_load_balancer-IsReached cloud seen cloud-IsLawful begin after {update = wanted}
      {current = account_nlb} {w = begin.world} web_built id_given cloud-fetched begin-IsOrderly
      wanted-DistinctKeys begin-ran

pub after-fetched :
    cloud.get_load_balancer "nlb-1" after.world
    ≡ (ok (record account_nlb { services = after.world }), after.world)
unfolding cloud
after-fetched = refl

second_update-InPlace_example :
    (sent : List Request) × ((update_load_balancer cloud after).1.requests ≡ after.requests ++ sent)
    × All InPlace sent
second_update-InPlace_example =
    second_update-InPlace cloud seen cloud-IsLawful begin after {update = wanted}
      {current = account_nlb} {next = record account_nlb { services = after.world }}
      {w = begin.world} {v = after.world} web_built id_given cloud-fetched begin-IsOrderly
      wanted-DistinctKeys begin-ran after-fetched

pub wanted-Addable : All Addable wanted.services
wanted-Addable = ((λ e. no_text e, (pool_1, refl)), ((λ e. no_text e, (pool_1, refl)), tt))
  where
    no_text : {c : Char} {t : String} → String.◌∷◌ c t ≢ ""
    no_text e = let f : false ≡ true = ap is_empty e in cc

update_load_balancer-Returns_example :
    (t : Session World) × (update_load_balancer cloud begin ≡ (ok tt, t))
update_load_balancer-Returns_example =
    update_load_balancer-Returns cloud seen cloud-IsLawful begin {update = wanted} web_built
      id_given cloud-IsReliable wanted-Addable

unfoldable pub quiet_kube : Kube World
quiet_kube = record {
  get_node = λ name w. (record { value = none; error = some not_found }, w);
  marshal = λ s. ok s.uid;
  two_way_merge_patch = λ a b. ok b;
  patch_service = λ ns name p w. (ok tt, w);
}

abbrev pub Orderly : World → Type 0
Orderly w = IsOrderly (seen "nlb-1" w)

pub cloud-IsQuiet : IsQuiet cloud quiet_kube Orderly
unfolding cloud quiet_kube
cloud-IsQuiet = record {
  created = λ req w p. p;
  fetched = λ id w p. p;
  told = λ id w p. p;
  nlbs = λ w p. p;
  clusters = λ w p. p;
  patched = λ ns name p w q. q;
}

pub after-service : after.service ≡ web
unfolding update_load_balancer cloud ◌>>=◌ key_eq lookup insert service_eq string_eq
    build_load_balancer reconcile is_external
after-service = refl

pub web-DistinctPorts : DistinctPorts web.ports
web-DistinctPorts = ((λ e _. let f : pos 80 ≡ pos 53 = e in ground arith, tt), (tt, tt))

pub ensure_ran : ensure_load_balancer cloud finders quiet_kube [] begin ≡ (ok "194.182.0.1", after)
unfolding ensure_load_balancer update_load_balancer cloud ◌>>=◌ key_eq lookup insert service_eq
    string_eq build_load_balancer reconcile is_external
ensure_ran = refl

ensure_load_balancer-IsEnsured_example : IsEnsured cloud seen Orderly "194.182.0.1" after
ensure_load_balancer-IsEnsured_example =
    ensure_load_balancer-IsEnsured cloud seen cloud-IsLawful finders quiet_kube Orderly
      cloud-IsQuiet (λ id w p. p) [] begin after "194.182.0.1" begin-IsOrderly
      (subst (λ v. DistinctPorts v.ports) (sym after-service) web-DistinctPorts) ensure_ran

refreshable-IsLawful_example : IsLawful (refreshable delayed) seen_delayed
refreshable-IsLawful_example = refreshable-IsLawful delayed seen_delayed delayed-IsEventual

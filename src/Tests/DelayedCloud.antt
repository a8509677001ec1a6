-- ===== src/Tests/DelayedCloud.antt =====
-- An API that answers at once and acts while it is waited for.
use exoscale_cloud_controlle.Base.{
  String, ◌≡◌, sym, ap, ◌∙◌, subst, ◌↔◌, not, [], ◌∷◌, map, ◌==◌, string_eq, Result, ok, err,
  not_found, keep_if,
}
use exoscale_cloud_controlle.Cloud.Exoscale.{Client, Operation}
use exoscale_cloud_controlle.LoadBalancer.Lawful.{Services, Effect}
use exoscale_cloud_controlle.LoadBalancer.Converge.Eventual.{IsEventual}
use exoscale_cloud_controlle.LoadBalancer.Session.{add_service, update_service, delete_service}
use exoscale_cloud_controlle.Tests.World.{op}
use exoscale_cloud_controlle.Tests.LawfulCloud.{
  World, seen, made, change, cloud, cloud-IsLawful, added_set, changed_set, deleted_set,
}

-- The same cloud behind an API that answers at once and acts while it is waited for: the services,
-- and the services that the last request asks for.
abbrev pub Delayed : Type 0
Delayed = World × World

abbrev pub seen_delayed : String → Delayed → Services
seen_delayed id w = seen id w.0

abbrev delay : (World → World) → Delayed → Result Operation × Delayed
delay f w = (ok op, (w.0, f w.0))

unfoldable pub delayed : Client Delayed
unfolding cloud string_eq
delayed = record {
  create_load_balancer = λ req w. (err not_found, w);
  add_service_to_load_balancer = λ id req. delay (λ w. made req w ∷ w);
  delete_load_balancer = λ id. delay (λ w. []);
  delete_load_balancer_service = λ id sid. delay (λ w. keep_if (λ s. not (s.id == sid)) w);
  get_instance = λ id w. (err not_found, w);
  get_instance_type = λ id w. (err not_found, w);
  get_load_balancer = λ id w. ((cloud.get_load_balancer id w.0).0, w);
  list_instances = λ w. (ok [], w);
  list_load_balancers = λ w. (ok [], w);
  list_sks_clusters = λ w. (ok [], w);
  update_load_balancer = λ id req. delay (λ w. w);
  update_load_balancer_service = λ id sid req. delay (λ w. map (change sid req) w);
  wait = λ o state w. (ok o, (w.1, w.1));
}

-- What is seen after the wait is what the request asked for.
acted :
    (f : World → World) (o last : Operation) (w w1 w2 : Delayed)
    → delay f w ≡ (ok o, w1)
    → delayed.wait o "success" w1 ≡ (ok last, w2)
    → f w.0 ≡ w2.0
unfolding delayed
acted f o last w w1 w2 h k = ap (λ r. r.1.1) h ∙ ap (λ r. r.1.0) k

pub delayed-IsEventual : IsEventual delayed seen_delayed
unfolding delayed
delayed-IsEventual = record {
  fetched = λ id nlb w w' h.
      let (name, kept, listed) =
        cloud-IsLawful.fetched id nlb w.0 w.0
          (λ i. ((h i).0, (cloud.get_load_balancer id w.0).1)) in
      (name, ap (λ r. seen id r.1.0) (sym h), listed);
  renamed = λ id req o last w w1 w2 h k y.
      subst (λ v. seen id v y ↔ seen id w.0 y) (acted (λ v. v) o last w w1 w2 h k) (λ m. m, λ m. m);
  added = λ id req o last w w1 w2 h k.
      subst (λ v. Effect (add_service id req) (seen id w.0) (seen id v))
        (acted (λ v. made req v ∷ v) o last w w1 w2 h k) (added_set id req w.0);
  changed = λ id sid req o last w w1 w2 h k.
      subst (λ v. Effect (update_service id sid req) (seen id w.0) (seen id v))
        (acted (λ v. map (change sid req) v) o last w w1 w2 h k) (changed_set id sid req w.0);
  removed = λ id o last w w1 w2 h k y.
      subst (λ v. seen id v y → ⊥) (acted (λ v. []) o last w w1 w2 h k) (λ (s, m, e). m);
  deleted = λ id sid o last w w1 w2 h k.
      subst (λ v. Effect (delete_service id sid) (seen id w.0) (seen id v))
        (acted (λ v. keep_if (λ s. not (s.id == sid)) v) o last w w1 w2 h k)
        (deleted_set id sid w.0);
}

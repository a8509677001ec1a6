-- ===== src/LoadBalancer/Ensure/Requests.antt =====
-- The calls that leave an NLB itself alone: those that only read, those that patch the Service, and
-- the loops over the services of an external NLB.
use exoscale_cloud_controlle.Base.{
  String, ◌≡◌, refl, ◌∙◌, Bool, true, false, ◌&&◌, List, [], ◌∷◌, ◌==◌, string_eq, Result, ok, err,
  Action, Bool-cases, Result-cases, inl, inr, Option, none, some, if◌then◌else◌, All,
  is_load_balancer_not_found, concat_map, keep_if, map, ap, All-append, All-prefix,
}
use exoscale_cloud_controlle.Cloud.Exoscale.{Client, LoadBalancer, LoadBalancerService}
use exoscale_cloud_controlle.Cloud.Kubernetes.{ServicePort}
use exoscale_cloud_controlle.LoadBalancer.Annotations.{get_annotation, is_external, annotation_id}
use exoscale_cloud_controlle.LoadBalancer.Build.{is_load_balancer_service_updated}
use exoscale_cloud_controlle.LoadBalancer.Emits.{
  Adds, Emits, Emits-silent, Emits-attempt, Emits-map_error, Emits-bind, Emits-gets,
}
use exoscale_cloud_controlle.LoadBalancer.Fetch.{fetch_load_balancer}
use exoscale_cloud_controlle.LoadBalancer.Session.{
  Session, Request, create_nlb, update_nlb, delete_nlb, add_service, update_service, delete_service,
  patch_service,
}
use exoscale_cloud_controlle.LoadBalancer.Delete.{
  matches_port, ensure_load_balancer_deleted, delete_found,
}
use exoscale_cloud_controlle.LoadBalancer.Delete.Plan.{deletions, delete_plan, delete_of-Sends}
use exoscale_cloud_controlle.LoadBalancer.Sends.{Sends, Ends, Any}
use exoscale_cloud_controlle.LoadBalancer.Update.{reconcile, pool_id, key_of}
use exoscale_cloud_controlle.LoadBalancer.Update.Plan.{
  plan, requests_for, service_requests, current_for,
}
use exoscale_cloud_controlle.LoadBalancer.Update.Refinement.{reconcile-Sends}

-- A request that is about the services of an NLB, or about the Service, but not about an NLB itself.
abbrev pub LeavesNlb : Request → Type 0
LeavesNlb (create_nlb req) = ⊥
LeavesNlb (update_nlb id req) = ⊥
LeavesNlb (delete_nlb id) = ⊥
LeavesNlb (add_service id req) = Unit {0}
LeavesNlb (update_service id sid req) = Unit {0}
LeavesNlb (delete_service id sid) = Unit {0}
LeavesNlb (patch_service ns name p) = Unit {0}

module _ {W : Type 0} (client : Client W) where
  pub fetch-Emits : (s : Session W) → Emits LeavesNlb (fetch_load_balancer client) s
  unfolding fetch_load_balancer
  fetch-Emits s = Emits-bind LeavesNlb _ _ s (Emits-silent LeavesNlb _ s refl refl) λ service t _.
      elim (Bool-cases (get_annotation service annotation_id "" == "")) [
        | inl e ↦ rw e (Emits-silent LeavesNlb _ t refl refl)
        | inr e ↦ rw e (Emits-map_error LeavesNlb _ _ t (Emits-silent LeavesNlb _ t refl refl))
      ]

Adds-of-Ends :
    {W : Type 0} (p : List Request) (s : Session W) (r : Result (Unit {0}) × Session W)
    → All LeavesNlb p
    → Ends Any p s r
    → Adds LeavesNlb s r.1
Adds-of-Ends p s (ok a, t) all (h, e, k) = (p, e, all, ap is_external k, ap (λ v. v.ports) k)
Adds-of-Ends p s (err x, t) all (sent, rest, d, e, k) =
    (sent, e, All-prefix LeavesNlb sent rest (rw d at all), ap is_external k, ap (λ v. v.ports) k)

-- What a plan for an external NLB has in it.
Emits-of-Sends :
    {W : Type 0} (p : List Request) (m : Action (Session W) (Unit {0})) (s : Session W)
    → All LeavesNlb p
    → Sends Any p m s
    → Emits LeavesNlb m s
unfolding Sends Emits
Emits-of-Sends p m s all h = Adds-of-Ends p s (m s) all h

All-concat :
    {A : Type 0} (P : Request → Type 0) (f : A → List Request) (xs : List A)
    → ((x : A) → All P (f x))
    → All P (concat_map f xs)
All-concat P f [] h = tt
All-concat P f (x ∷ xs) h = All-append P (f x) (concat_map f xs) (h x) (All-concat P f xs h)

requests_for-LeavesNlb :
    (current update : LoadBalancer) (u : LoadBalancerService) (o : Option LoadBalancerService)
    → All LeavesNlb (requests_for current update u o)
requests_for-LeavesNlb current update u none = (tt, tt)
requests_for-LeavesNlb current update u (some x) =
    elim (Bool-cases (pool_id x.instance_pool == pool_id u.instance_pool)) [
      | inl same ↦ elim (Bool-cases (is_load_balancer_service_updated x (record u { id = x.id }))) [
        | inl changed ↦ rw (same, changed) (tt, tt)
        | inr equal ↦ rw (same, equal) tt
      ]
      | inr moved ↦ rw moved (tt, (tt, tt))
    ]

deletions-LeavesNlb :
    (id sid : String) (ports : List ServicePort)
    → All LeavesNlb (map (λ _. delete_service id sid) ports)
deletions-LeavesNlb id sid [] = tt
deletions-LeavesNlb id sid (p ∷ ports) = (tt, deletions-LeavesNlb id sid ports)

plan-LeavesNlb : (current update : LoadBalancer) → All LeavesNlb (plan true current update)
unfolding plan
plan-LeavesNlb current update =
    All-concat LeavesNlb (service_requests current update) update.services
      λ u. requests_for-LeavesNlb current update u (current_for (key_of u) current.services)

no_request : (b : Bool) (q : Request) → All LeavesNlb (if b && false then q ∷ [] else [])
no_request true q = tt
no_request false q = tt

delete_plan-LeavesNlb :
    (ports : List ServicePort) (nlb : LoadBalancer) → All LeavesNlb (delete_plan true ports nlb)
unfolding delete_plan
delete_plan-LeavesNlb ports nlb =
    All-append LeavesNlb (concat_map (deletions nlb.id ports) nlb.services) _
      (All-concat LeavesNlb (deletions nlb.id ports) nlb.services
        λ x. deletions-LeavesNlb nlb.id x.id (keep_if (matches_port x) ports))
      (no_request _ _)

module _ {W : Type 0} (client : Client W) where
  pub reconcile-Emits :
      (current update : LoadBalancer) (s : Session W)
      → Emits LeavesNlb (reconcile client true current update) s
  reconcile-Emits current update s =
      Emits-of-Sends (plan true current update) _ s (plan-LeavesNlb current update)
        (reconcile-Sends client true current update s)

  pub deleted-Emits :
      (s : Session W)
      → is_external s.service ≡ true
      → Emits LeavesNlb (ensure_load_balancer_deleted client) s
  unfolding ensure_load_balancer_deleted delete_found
  deleted-Emits s external =
      Emits-bind LeavesNlb _ _ s (Emits-attempt LeavesNlb _ s (fetch-Emits client s))
        λ fetched t same. elim (Result-cases fetched) [
          | inl (nlb, e) ↦ rw e (
              Emits-gets LeavesNlb _ _ t (
                Emits-of-Sends (delete_plan true t.service.ports nlb) _ t
                  (delete_plan-LeavesNlb t.service.ports nlb)
                  (rw (same ∙ external) at (delete_of-Sends client t.service nlb t))))
          | inr (x, e) ↦ elim (Bool-cases (is_load_balancer_not_found x)) [
            | inl f ↦ rw (e, f) (Emits-silent LeavesNlb _ t refl refl)
            | inr f ↦ rw (e, f) (Emits-silent LeavesNlb _ t refl refl)
          ]
        ]

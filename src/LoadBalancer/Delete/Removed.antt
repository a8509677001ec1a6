-- ===== src/LoadBalancer/Delete/Removed.antt =====
-- `EnsureLoadBalancerDeleted` returns no error where the API accepts its calls or has no such NLB.
use exoscale_cloud_controlle.Base.{
  String, ◌≡◌, refl, ◌∙◌, sym, subst, ap, ◌>>=◌, ◌≢◌, ◌⊎◌, inl, inr, true, false, not, ◌&&◌, ◌==◌,
  string_eq, int_eq, List, [], ◌∷◌, ok, err, Error, is_not_found, load_balancer_not_found, ℤ, pos,
  pred_ℤ, Bool-cases, attempt, gets, bind-eq, map_error, length,
}
use exoscale_cloud_controlle.Base.Returns.{
  Returns, Returns-bind, Returns-then, Returns-pure, Returns-when,
}
use exoscale_cloud_controlle.Cloud.Exoscale.{Client, LoadBalancer, LoadBalancerService}
use exoscale_cloud_controlle.Cloud.Kubernetes.{Service, ServicePort}
use exoscale_cloud_controlle.LoadBalancer.Annotations.{is_external, annotation_id, get_annotation}
use exoscale_cloud_controlle.LoadBalancer.Converge.Returns.{Returns-send}
use exoscale_cloud_controlle.LoadBalancer.Delete.{
  matches_port, delete_matching, delete_services, delete_found, delete_of,
  ensure_load_balancer_deleted,
}
use exoscale_cloud_controlle.LoadBalancer.Ensure.Status.{fetched_named}
use exoscale_cloud_controlle.LoadBalancer.Ensure.Willing.{given_text}
use exoscale_cloud_controlle.LoadBalancer.Fetch.{fetch_error, fetch_load_balancer}
use exoscale_cloud_controlle.LoadBalancer.Session.{Session, delete_service, delete_nlb}

-- The API accepts the calls that take the NLB down; it need not have the NLB, as long as it says so.
pub record IsRemovable {W : Type 0} (client : Client W) (id : String) : Type 0 where
  pub fetched :
      (w : W)
      → ((nlb : LoadBalancer) × (v : W) × (nlb.id ≡ id)
          × (client.get_load_balancer id w ≡ (ok nlb, v)))
        ⊎ ((e : Error) × (v : W) × (is_not_found e ≡ true)
            × (client.get_load_balancer id w ≡ (err e, v)))
  pub deleted : (sid : String) (w : W) → Returns (client.delete_load_balancer_service id sid) w
  pub removed : (w : W) → Returns (client.delete_load_balancer id) w

module _ {W : Type 0} (client : Client W) where
  module _ (nlb : LoadBalancer) (removable : IsRemovable client nlb.id) where
    delete_matching-Returns :
        (x : LoadBalancerService) (ports : List ServicePort) (n : ℤ) (s : Session W)
        → Returns (delete_matching client nlb x ports n) s
    unfolding delete_matching
    delete_matching-Returns x [] n s = Returns-pure n s
    delete_matching-Returns x (p ∷ ports) n s = elim (Bool-cases (matches_port x p)) [
      | inl e ↦
          rw (e, delete_matching)
            (Returns-bind _ _ s
              (Returns-send (delete_service nlb.id x.id)
                (client.delete_load_balancer_service nlb.id x.id) s
                (removable.deleted x.id s.world))
              λ _ t _. delete_matching-Returns x ports (pred_ℤ n) t)
      | inr e ↦ rw (e, delete_matching) (delete_matching-Returns x ports n s)
    ]

    delete_services-Returns :
        (ports : List ServicePort) (services : List LoadBalancerService) (n : ℤ) (s : Session W)
        → Returns (delete_services client nlb ports services n) s
    unfolding delete_services
    delete_services-Returns ports [] n s = Returns-pure n s
    delete_services-Returns ports (x ∷ services) n s =
        Returns-bind _ _ s (delete_matching-Returns x ports n s)
          λ left t _. delete_services-Returns ports services left t

    delete_of-Returns :
        (service : Service) (s : Session W) → Returns (delete_of client service nlb) s
    unfolding delete_of
    delete_of-Returns service s =
        Returns-bind _ _ s
          (delete_services-Returns service.ports nlb.services (pos (length nlb.services)) s)
          λ left t _. Returns-when (left == pos 0 && not (is_external service)) _ t (
            Returns-bind _ _ t
              (Returns-send (delete_nlb nlb.id) (client.delete_load_balancer nlb.id) t
                (removable.removed t.world))
              λ op v _. Returns-pure tt v)

  -- A Service that names no NLB, and one whose NLB the API does not have.
  fetched_none :
      (s : Session W)
      → (get_annotation s.service annotation_id "" == "") ≡ true
      → fetch_load_balancer client s ≡ (err load_balancer_not_found, s)
  unfolding fetch_load_balancer ◌>>=◌
  fetched_none s e = rw e refl

  fetched_absent :
      (s : Session W) {e : Error} {v : W}
      → (get_annotation s.service annotation_id "" == "") ≡ false
      → is_not_found e ≡ true
      → client.get_load_balancer (get_annotation s.service annotation_id "") s.world ≡ (err e, v)
      → fetch_load_balancer client s ≡ (err load_balancer_not_found, record s { world = v })
  unfolding fetch_load_balancer
  fetched_absent s {e} {v} given absent told =
      bind-eq (gets (λ s. s.service)) _ s s.service s refl
      ∙ rw given (
          ap (λ x. map_error fetch_error (λ s. (x.0, record s { world = x.1 })) s) told
          ∙ rw absent refl)

  absent-Returns :
      (s t : Session W)
      → fetch_load_balancer client s ≡ (err load_balancer_not_found, t)
      → Returns (ensure_load_balancer_deleted client) s
  unfolding ensure_load_balancer_deleted
  absent-Returns s t h =
      Returns-then (attempt (fetch_load_balancer client)) _ s (err load_balancer_not_found) t
        (λ i. (ok (h i).0, (h i).1)) (Returns-pure tt t)

  found-Returns :
      (s t : Session W) (nlb : LoadBalancer)
      → IsRemovable client nlb.id
      → fetch_load_balancer client s ≡ (ok nlb, t)
      → Returns (ensure_load_balancer_deleted client) s
  unfolding ensure_load_balancer_deleted delete_found
  found-Returns s t nlb removable h =
      Returns-then (attempt (fetch_load_balancer client)) _ s (ok nlb) t
        (λ i. (ok (h i).0, (h i).1))
        (Returns-then (gets (λ s. s.service)) _ t t.service t refl
          (delete_of-Returns nlb removable t.service t))

  named-Returns :
      (s : Session W)
      → (get_annotation s.service annotation_id "" == "") ≡ false
      → IsRemovable client (get_annotation s.service annotation_id "")
      → Returns (ensure_load_balancer_deleted client) s
  named-Returns s given removable = elim (removable.fetched s.world) [
    | inl (nlb, v, same, told) ↦
        found-Returns s (record s { world = v }) nlb
          (subst (IsRemovable client) (sym same) removable)
          (fetched_named client s (given_text _ given) told)
    | inr (e, v, absent, told) ↦
        absent-Returns s (record s { world = v }) (fetched_absent s given absent told)
  ]

  -- Whatever the Service: if the API accepts every call that takes down the NLB that the Service names,
  -- if it names one, and answers, when it is asked for that NLB, with an NLB of that ID or by saying
  -- that there is none, then `EnsureLoadBalancerDeleted` returns no error.
  pub ensure_load_balancer_deleted-Returns :
      (s : Session W)
      → (get_annotation s.service annotation_id "" ≢ ""
          → IsRemovable client (get_annotation s.service annotation_id ""))
      → (t : Session W) × (ensure_load_balancer_deleted client s ≡ (ok tt, t))
  unfolding Returns
  ensure_load_balancer_deleted-Returns s removable =
      let (_, t, ran) : Returns (ensure_load_balancer_deleted client) s =
        elim (Bool-cases (get_annotation s.service annotation_id "" == "")) [
          | inl e ↦ absent-Returns s s (fetched_none s e)
          | inr e ↦ named-Returns s e (removable (given_text _ e))
        ] in
      (t, ran)

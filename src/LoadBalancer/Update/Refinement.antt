-- ===== src/LoadBalancer/Update/Refinement.antt =====
-- The loops of `updateLoadBalancer` send what the plan says.
use exoscale_cloud_controlle.Base.{
  ◌≢◌, All, ◌≡◌, refl, ◌∙◌, sym, Bool, true, false, Option, none, some, List, [], ◌∷◌, ◌==◌,
  string_eq, ok, ◌>>=◌, arith, Bool-cases, inl, inr, concat_map, wrapf,
}
use exoscale_cloud_controlle.Base.Dict.{lookup, insert}
use exoscale_cloud_controlle.Cloud.Exoscale.{Client, LoadBalancerService, LoadBalancer}
use exoscale_cloud_controlle.LoadBalancer.Session.{Request, Session, add_service, delete_service}
use exoscale_cloud_controlle.LoadBalancer.Annotations.{is_external}
use exoscale_cloud_controlle.LoadBalancer.Sends.{Sends, Any}
use exoscale_cloud_controlle.LoadBalancer.Runs.{
  Obeys, Runs, NoEffect, no_view, blind-Obeys, Runs-Sends, Runs-pure, Runs-call, Runs-send,
  Runs-bind, Runs-fail_if, Runs-map_error, Runs-deref, Runs-when,
}
use exoscale_cloud_controlle.LoadBalancer.Build.{build_load_balancer}
use exoscale_cloud_controlle.LoadBalancer.Update.{
  key_eq, key_of, is_desired, Kept, add_request, pool_id, create_service, send_delete, delete_loop,
  update_existing, ensure_service, ensure_loop, update_fields, reconcile, update_load_balancer,
}
use exoscale_cloud_controlle.LoadBalancer.Update.Plan.{
  current_for, field_requests, delete_requests, change_requests, requests_for, service_requests,
  plan,
}
use exoscale_cloud_controlle.LoadBalancer.Update.Collected.{
  keep_all, keep_all_desired, keep_all_other, kept-All,
}

module _ {W : Type 0} {X : Type 1} (E : Request → X → X → Type 0) (V : W → X) (client : Client W)
    (current update : LoadBalancer) (obeys : Obeys E V client current.id update.id) where
  create_service-Runs :
      (u : LoadBalancerService) (s : Session W)
      → Runs E V Any
          (add_service current.id (add_request u (pool_id u.instance_pool)) ∷ [])
          (create_service client current u)
          s
  unfolding create_service
  create_service-Runs u s =
      Runs-bind E V (λ p. u.instance_pool ≡ some p) Any [] _ s _ _
        (Runs-deref E V u.instance_pool s)
        λ pool t e. rw e (
          Runs-bind E V Any Any _ [] t _ _
            (Runs-send E V _ _ t λ op w h. obeys.added _ op t.world w h)
            λ op t1 _.
              Runs-bind E V Any Any [] [] t1 _ _
                (Runs-call E V _ t1 λ nlb w h. obeys.fetched nlb t1.world w h)
                λ nlb t2 _. Runs-fail_if E V _ _ t2)

  send_delete-Runs :
      (x : LoadBalancerService) (s : Session W)
      → Runs E V Any (delete_service current.id x.id ∷ []) (send_delete client current x) s
  unfolding send_delete
  send_delete-Runs x s = Runs-send E V _ _ s λ op w h. obeys.deleted x.id op s.world w h

  delete_loop-Runs :
      (external : Bool) (desired services : List LoadBalancerService) (kept all : Kept)
      (s : Session W)
      → keep_all desired services kept ≡ all
      → Runs E V
          (λ kept'. kept' ≡ all)
          (delete_requests external current.id desired services)
          (delete_loop client external current desired services kept)
          s
  unfolding delete_loop keep_all
  delete_loop-Runs true desired [] kept all s h = Runs-pure E V (λ k. k ≡ all) kept s h
  delete_loop-Runs false desired [] kept all s h = Runs-pure E V (λ k. k ≡ all) kept s h
  delete_loop-Runs true desired (x ∷ services) kept all s h =
      elim (Bool-cases (is_desired desired (key_of x))) [
        | inl e ↦
            rw (e, delete_loop)
              (delete_loop-Runs true desired services (insert (key_of x) x kept) all s
                (sym (keep_all_desired desired services kept x e) ∙ h))
        | inr e ↦
            rw (e, delete_loop)
              (delete_loop-Runs true desired services kept all s
                (sym (keep_all_other desired services kept x e) ∙ h))
      ]
  delete_loop-Runs false desired (x ∷ services) kept all s h =
      elim (Bool-cases (is_desired desired (key_of x))) [
        | inl e ↦
            rw (e, delete_loop)
              (delete_loop-Runs false desired services (insert (key_of x) x kept) all s
                (sym (keep_all_desired desired services kept x e) ∙ h))
        | inr e ↦
            rw (e, delete_loop)
              (Runs-bind E V Any (λ k. k ≡ all) (delete_service current.id x.id ∷ [])
                (delete_requests false current.id desired services) s _ _ (send_delete-Runs x s)
                λ op t _.
                  delete_loop-Runs false desired services kept all t
                    (sym (keep_all_other desired services kept x e) ∙ h))
      ]

  update_existing-Runs :
      (x u : LoadBalancerService) (s : Session W)
      → Runs E V Any
          (change_requests current update x u)
          (update_existing client current update x u)
          s
  unfolding update_existing
  update_existing-Runs x u s =
      elim (Bool-cases (pool_id x.instance_pool == pool_id u.instance_pool)) [
        | inl e ↦
            rw (e, update_existing)
              (Runs-when E V _ _ _ s (
                Runs-bind E V Any Any _ [] s _ _
                  (Runs-send E V _ _ s λ op w h. obeys.changed x.id _ op s.world w h)
                  λ op t _. Runs-pure E V Any tt t tt))
        | inr moved ↦
            rw (moved, update_existing)
              (Runs-bind E V Any Any (delete_service current.id x.id ∷ []) _ s _ _
                (Runs-map_error E V Any _ (wrapf "failed deleting NLB service: %w") _ s
                  (send_delete-Runs x s))
                λ op t _. create_service-Runs (record u { id = x.id }) t)
      ]

  ensure_service-Runs :
      (u : LoadBalancerService) (o : Option LoadBalancerService) (s : Session W)
      → Runs E V Any (requests_for current update u o) (ensure_service client current update u o) s
  unfolding ensure_service
  ensure_service-Runs u none s = create_service-Runs u s
  ensure_service-Runs u (some x) s = update_existing-Runs x u s

  ensure_loop-Runs :
      (kept : Kept) (desired : List LoadBalancerService) (s : Session W)
      → All (λ u. lookup (key_of u) kept ≡ current_for (key_of u) current.services) desired
      → Runs E V Any
          (concat_map (service_requests current update) desired)
          (ensure_loop client current update kept desired)
          s
  unfolding ensure_loop
  ensure_loop-Runs kept [] s h = Runs-pure E V Any tt s tt
  ensure_loop-Runs kept (u ∷ desired) s h =
      Runs-bind E V Any Any _ _ s _ _
        (rw h.0 (ensure_service-Runs u (current_for (key_of u) current.services) s))
        λ _ t _. ensure_loop-Runs kept desired t h.1

  update_fields-Runs :
      (external : Bool) (s : Session W)
      → Runs E V Any
          (field_requests external current update)
          (update_fields client external current update)
          s
  unfolding update_fields
  update_fields-Runs external s = Runs-when E V _ _ _ s (
      Runs-bind E V Any Any _ [] s _ _
        (Runs-send E V _ _ s λ op w h. obeys.renamed _ op s.world w h)
        λ op t _. Runs-pure E V Any tt t tt)

  pub reconcile-Runs :
      (external : Bool) (s : Session W)
      → Runs E V Any (plan external current update) (reconcile client external current update) s
  unfolding reconcile plan
  reconcile-Runs external s =
      Runs-bind E V Any Any _ _ s _ _ (update_fields-Runs external s) λ _ t _.
        Runs-bind E V (λ k. k ≡ keep_all update.services current.services []) Any _ _ t _ _
          (delete_loop-Runs external update.services current.services [] _ t refl)
          λ kept t' e. ensure_loop-Runs kept update.services t' (kept-All current update kept e)

module _ {W : Type 0} (client : Client W) where
  pub reconcile-Sends :
      (external : Bool) (current update : LoadBalancer) (s : Session W)
      → Sends Any (plan external current update) (reconcile client external current update) s
  reconcile-Sends external current update s =
      Runs-Sends NoEffect no_view Any (plan external current update) _ s (
        reconcile-Runs NoEffect no_view client current update
          (blind-Obeys client current.id update.id) external s)

  pub update_load_balancer-reconcile :
      (s : Session W) {update current : LoadBalancer} {w : W}
      → build_load_balancer s.service ≡ ok update
      → update.id ≢ ""
      → client.get_load_balancer update.id s.world ≡ (ok current, w)
      → update_load_balancer client s
        ≡ reconcile client (is_external s.service) current update (record s { world = w })
  unfolding update_load_balancer ◌>>=◌
  update_load_balancer-reconcile s built id fetched = ground arith

  -- When the Service's annotations can be read and its NLB exists, `updateLoadBalancer` sends exactly
  -- the requests of the plan, in its order, if it returns no error, and a first part of them if it
  -- returns one; it leaves the Service object as it is.
  pub update_load_balancer-Sends :
      (s : Session W) {update current : LoadBalancer} {w : W}
      → build_load_balancer s.service ≡ ok update
      → update.id ≢ ""
      → client.get_load_balancer update.id s.world ≡ (ok current, w)
      → Sends Any (plan (is_external s.service) current update) (update_load_balancer client) s
  unfolding Sends
  update_load_balancer-Sends s {update} {current} {w} built id fetched =
      rw (update_load_balancer-reconcile s built id fetched)
        (reconcile-Sends (is_external s.service) current update (record s { world = w }))

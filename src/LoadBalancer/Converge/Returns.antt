-- ===== src/LoadBalancer/Converge/Returns.antt =====
-- `updateLoadBalancer` returns no error where no call of the API does.
use exoscale_cloud_controlle.Base.{
  String, ◌≡◌, refl, ◌∙◌, sym, ap, subst, ◌≢◌, Bool, true, false, ◌==◌, Option, none, some, List,
  [], ◌∷◌, ◌++◌, ok, string_eq, All, Member, inl, inr, Bool-cases, Option-cases, arith, Action,
  deref, find_last,
}
use exoscale_cloud_controlle.Base.Dict.{lookup, insert}
use exoscale_cloud_controlle.Cloud.Exoscale.{
  Client, InstancePool, LoadBalancer, LoadBalancerService, LoadBalancerRequest, ServiceRequest,
}
use exoscale_cloud_controlle.LoadBalancer.Annotations.{is_external}
use exoscale_cloud_controlle.LoadBalancer.Build.{build_load_balancer}
use exoscale_cloud_controlle.LoadBalancer.Lawful.{Services, IsLawful}
use exoscale_cloud_controlle.LoadBalancer.Session.{Session, Request, send, call, add_service}
use exoscale_cloud_controlle.LoadBalancer.Update.{
  key_eq, key_of, is_desired, Kept, add_request, update_request, nlb_request, found_name, pool_id,
  create_service, send_delete, delete_loop, update_existing, ensure_service, ensure_loop,
  update_fields, reconcile, update_load_balancer,
}
use exoscale_cloud_controlle.LoadBalancer.Update.Refinement.{update_load_balancer-reconcile}
use exoscale_cloud_controlle.Base.Returns.{
  Returns, Returns-bind, Returns-then, Returns-map_error, Returns-pure, Returns-when,
}
use exoscale_cloud_controlle.Base.Found.{find_last-passes, find_last-none}

-- No call that `updateLoadBalancer` makes for the NLB fails.
pub record IsReliable {W : Type 0} (client : Client W) (id : String) : Type 0 where
  pub fetched : (w : W) → Returns (client.get_load_balancer id) w
  pub renamed : (req : LoadBalancerRequest) (w : W) → Returns (client.update_load_balancer id req) w
  pub added :
      (req : ServiceRequest) (w : W) → Returns (client.add_service_to_load_balancer id req) w
  pub changed :
      (sid : String) (req : ServiceRequest) (w : W)
      → Returns (client.update_load_balancer_service id sid req) w
  pub deleted : (sid : String) (w : W) → Returns (client.delete_load_balancer_service id sid) w

-- A service that can be added: it has a pool to be added to, and a name to be found by.
abbrev pub Addable : LoadBalancerService → Type 0
Addable u = (u.name ≢ "") × ((p : InstancePool) × (u.instance_pool ≡ some p))

pub Returns-send :
    {W A : Type 0} (q : Request) (m : Action W A) (s : Session W)
    → Returns m s.world
    → Returns (send q m) s
unfolding Returns
Returns-send q m s (a, w, e) =
    (a, record s { world = w; requests = s.requests ++ (q ∷ []) }, rw e refl)

-- A service that the NLB lists is found by its name.
found_name-Member :
    (name : String) (services : List LoadBalancerService) (s : LoadBalancerService)
    → Member s services
    → s.name ≡ name
    → name ≢ ""
    → (found_name name services == "") ≡ false
found_name-Member name services s m e n =
    elim (Option-cases (find_last (λ item. item.name == name) services)) [
      | inl f ↦
          let g = find_last-none (λ item. item.name == name) services s f m in
          let t : (s.name == name) ≡ true = ground arith in cc
      | inr (y, f) ↦
          let g = find_last-passes (λ item. item.name == name) services y f in
          rw (found_name, f) (ground arith)
    ]

module _ {W : Type 0} (client : Client W) (view : String → W → Services)
    (lawful : IsLawful client view) (current update : LoadBalancer) (same : current.id ≡ update.id)
    (reliable : IsReliable client current.id) where
  create_service-Returns :
      (u : LoadBalancerService) (s : Session W)
      → Addable u
      → Returns (create_service client current u) s
  unfolding create_service Returns
  create_service-Returns u s (named, (p, pool)) =
      let req = add_request u p.id in
      let (op, w, sent) = reliable.added req s.world in
      let (nlb, v, got) = reliable.fetched w in
      let (x, added, _, all) = lawful.added current.id req op s.world w sent in
      let (_, _, listed) = lawful.fetched current.id nlb w v got in
      let (y, m, e) = (listed x).0 ((all x).1 (inr refl)) in
      let found =
        found_name-Member u.name nlb.services y m (ap (λ z. z.name) (sym e) ∙ added.name) named in
      let s1 = record s { world = w; requests = s.requests ++ (add_service current.id req ∷ []) } in
      let s2 = record s1 { world = v } in
      Returns-then (deref u.instance_pool) _ s p s (rw pool refl) (
        Returns-then
          (send (add_service current.id req) (client.add_service_to_load_balancer current.id req)) _
          s op s1 (rw sent refl)
          (Returns-then (call (client.get_load_balancer current.id)) _ s1 nlb s2 (rw got refl)
            (tt, s2, rw found refl)))

  send_delete-Returns :
      (x : LoadBalancerService) (s : Session W) → Returns (send_delete client current x) s
  unfolding send_delete
  send_delete-Returns x s =
      Returns-send _ (client.delete_load_balancer_service current.id x.id) s
        (reliable.deleted x.id s.world)

  delete_loop-Returns :
      (external : Bool) (desired services : List LoadBalancerService) (kept : Kept) (s : Session W)
      → Returns (delete_loop client external current desired services kept) s
  unfolding delete_loop
  delete_loop-Returns external desired [] kept s = Returns-pure kept s
  delete_loop-Returns true desired (x ∷ services) kept s =
      elim (Bool-cases (is_desired desired (key_of x))) [
        | inl e ↦
            rw (e, delete_loop)
              (delete_loop-Returns true desired services (insert (key_of x) x kept) s)
        | inr e ↦ rw (e, delete_loop) (delete_loop-Returns true desired services kept s)
      ]
  delete_loop-Returns false desired (x ∷ services) kept s =
      elim (Bool-cases (is_desired desired (key_of x))) [
        | inl e ↦
            rw (e, delete_loop)
              (delete_loop-Returns false desired services (insert (key_of x) x kept) s)
        | inr e ↦
            rw (e, delete_loop)
              (Returns-bind _ _ s (send_delete-Returns x s)
                λ op t _. delete_loop-Returns false desired services kept t)
      ]

  update_existing-Returns :
      (x u : LoadBalancerService) (s : Session W)
      → Addable u
      → Returns (update_existing client current update x u) s
  unfolding update_existing
  update_existing-Returns x u s h =
      elim (Bool-cases (pool_id x.instance_pool == pool_id u.instance_pool)) [
        | inl e ↦
            rw (e, update_existing)
              (Returns-when _ _ s (
                Returns-bind _ _ s
                  (Returns-send _
                    (client.update_load_balancer_service update.id x.id (update_request u)) s
                    (rw same at (reliable.changed x.id (update_request u) s.world)))
                  λ op t _. Returns-pure tt t))
        | inr moved ↦
            rw (moved, update_existing)
              (Returns-bind _ _ s (Returns-map_error _ _ s (send_delete-Returns x s))
                λ op t _. create_service-Returns (record u { id = x.id }) t h)
      ]

  ensure_service-Returns :
      (u : LoadBalancerService) (o : Option LoadBalancerService) (s : Session W)
      → Addable u
      → Returns (ensure_service client current update u o) s
  unfolding ensure_service
  ensure_service-Returns u none s h = create_service-Returns u s h
  ensure_service-Returns u (some x) s h = update_existing-Returns x u s h

  ensure_loop-Returns :
      (kept : Kept) (desired : List LoadBalancerService) (s : Session W)
      → All Addable desired
      → Returns (ensure_loop client current update kept desired) s
  unfolding ensure_loop
  ensure_loop-Returns kept [] s h = Returns-pure tt s
  ensure_loop-Returns kept (u ∷ desired) s h =
      Returns-bind _ _ s (ensure_service-Returns u (lookup (key_of u) kept) s h.0)
        λ _ t _. ensure_loop-Returns kept desired t h.1

  update_fields-Returns :
      (external : Bool) (s : Session W) → Returns (update_fields client external current update) s
  unfolding update_fields
  update_fields-Returns external s = Returns-when _ _ s (
      Returns-bind _ _ s
        (Returns-send _ (client.update_load_balancer update.id (nlb_request current update)) s (
          subst (λ j. Returns (client.update_load_balancer j (nlb_request current update)) s.world)
            same (reliable.renamed (nlb_request current update) s.world)))
        λ op t _. Returns-pure tt t)

  reconcile-Returns :
      (external : Bool) (s : Session W)
      → All Addable update.services
      → Returns (reconcile client external current update) s
  unfolding reconcile
  reconcile-Returns external s h = Returns-bind _ _ s (update_fields-Returns external s) λ _ t _.
      Returns-bind _ _ t (delete_loop-Returns external update.services current.services [] t)
        λ kept v _. ensure_loop-Returns kept update.services v h

module _ {W : Type 0} (client : Client W) (view : String → W → Services)
    (lawful : IsLawful client view) where
  -- If the API tells an NLB as it is, applies the requests that it accepts and accepts every call for
  -- the NLB that the Service's annotations name, the annotations can be read, and each service that the
  -- Service asks for has a name and a pool, then `updateLoadBalancer` returns no error.
  pub update_load_balancer-Returns :
      (s : Session W) {update : LoadBalancer}
      → build_load_balancer s.service ≡ ok update
      → update.id ≢ ""
      → IsReliable client update.id
      → All Addable update.services
      → (t : Session W) × (update_load_balancer client s ≡ (ok tt, t))
  unfolding Returns
  update_load_balancer-Returns s {update} built id reliable addable =
      let (current, w, fetched) = reliable.fetched s.world in
      let (same, _, _) = lawful.fetched update.id current s.world w fetched in
      let (_, t, ran) =
        reconcile-Returns client view lawful current update same (rw same reliable)
          (is_external s.service) (record s { world = w }) addable in
      (t, update_load_balancer-reconcile client s built id fetched ∙ ran)

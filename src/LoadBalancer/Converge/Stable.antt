-- ===== src/LoadBalancer/Converge/Stable.antt =====
-- What a second run of `updateLoadBalancer` sends after one that returned no error.
use exoscale_cloud_controlle.Base.{
  String, ◌≡◌, refl, ◌∙◌, sym, ap, ◌≢◌, Bool, true, false, not, ◌&&◌, ◌==◌, Option, none, some,
  List, [], ◌∷◌, ◌++◌, ok, string_eq, All, All-append, inl, inr, Bool-cases, map, concat_map, arith,
  Result,
}
use exoscale_cloud_controlle.Cloud.Exoscale.{Client, LoadBalancerService, LoadBalancer}
use exoscale_cloud_controlle.LoadBalancer.Annotations.{is_external}
use exoscale_cloud_controlle.LoadBalancer.Build.{
  build_load_balancer, without_status, is_load_balancer_updated, is_load_balancer_service_updated,
}
use exoscale_cloud_controlle.LoadBalancer.Lawful.{Services, IsLawful}
use exoscale_cloud_controlle.LoadBalancer.Session.{
  Request, Session, create_nlb, update_nlb, delete_nlb, add_service, update_service, delete_service,
  patch_service,
}
use exoscale_cloud_controlle.LoadBalancer.Sends.{Sends, Ends, Any}
use exoscale_cloud_controlle.LoadBalancer.Update.{
  key_eq, key_of, pool_id, is_desired, update_load_balancer,
}
use exoscale_cloud_controlle.LoadBalancer.Update.Plan.{
  current_for, plan, field_requests, delete_requests, requests_for, service_requests,
}
use exoscale_cloud_controlle.LoadBalancer.Update.Refinement.{update_load_balancer-Sends}
use exoscale_cloud_controlle.LoadBalancer.Update.Requested.{current_for-Member}
use exoscale_cloud_controlle.LoadBalancer.Update.Safety.{sent_of_plan}
use exoscale_cloud_controlle.LoadBalancer.Converge.Rounds.{IsOrderly, IsSettled}
use exoscale_cloud_controlle.LoadBalancer.Converge.Loops.{DistinctKeys, AllSettled}
use exoscale_cloud_controlle.LoadBalancer.Converge.Kept.{
  IsReached, Lists, current_for-none, All-keep_if,
}
use exoscale_cloud_controlle.LoadBalancer.Converge.Reached.{update_load_balancer-IsReached}

-- A request that changes settings in place: it neither adds a service nor takes one away.
abbrev pub InPlace : Request → Type 0
InPlace (update_nlb id req) = Unit {0}
InPlace (update_service id sid req) = Unit {0}
InPlace (create_nlb req) = ⊥
InPlace (delete_nlb id) = ⊥
InPlace (add_service id req) = ⊥
InPlace (delete_service id sid) = ⊥
InPlace (patch_service ns name p) = ⊥

module _ (current update : LoadBalancer) (T : Services) (orderly : IsOrderly T)
    (listed : Lists T current.services) where
  -- A wanted service that is there, settled, takes at most an update in place.
  settled-InPlace :
      (u : LoadBalancerService) (o : Option LoadBalancerService)
      → current_for (key_of u) current.services ≡ o
      → (x : LoadBalancerService) × T x × IsSettled x u
      → All InPlace (requests_for current update u o)
  settled-InPlace u none e (x, m, done) =
      let (s, ms, f) = (listed x).0 m in
      absurd (current_for-none (key_of u) current.services s e ms (ap key_of (sym f) ∙ done.key))
  settled-InPlace u (some s) e (x, m, done) =
      let (ms, k) = current_for-Member (key_of u) current.services s e in
      let same : without_status s ≡ x =
        orderly.keys (without_status s) x ((listed (without_status s)).1 (s, ms, refl)) m
          (k ∙ sym done.key) in
      let pools : pool_id s.instance_pool ≡ pool_id u.instance_pool =
        ap (λ z. pool_id z.instance_pool) same ∙ done.pool in
      let still : (pool_id s.instance_pool == pool_id u.instance_pool) ≡ true = ground arith in
      elim (Bool-cases (is_load_balancer_service_updated s (record u { id = s.id }))) [
        | inl changed ↦ rw (still, changed) (tt, tt)
        | inr equal ↦ rw (still, equal) tt
      ]

  services-InPlace :
      (us : List LoadBalancerService)
      → AllSettled us T
      → All InPlace (concat_map (service_requests current update) us)
  services-InPlace [] h = tt
  services-InPlace (u ∷ us) h =
      All-append InPlace (service_requests current update u) _
        (settled-InPlace u (current_for (key_of u) current.services) refl h.0)
        (services-InPlace us h.1)

  deleted-InPlace :
      (xs : List LoadBalancerService)
      → All (λ _. ⊥) xs
      → All InPlace (map (λ s. delete_service current.id s.id) xs)
  deleted-InPlace [] h = tt
  deleted-InPlace (x ∷ xs) h = absurd h.0

  delete-InPlace :
      {S : Services} (external : Bool)
      → IsReached external update.services S T
      → All InPlace (delete_requests external current.id update.services current.services)
  delete-InPlace true h = tt
  delete-InPlace false h = deleted-InPlace _ (
      All-keep_if (λ _. ⊥) _ current.services
        λ x m e.
          let unwanted : is_desired update.services (key_of x) ≡ false = ground arith in
          let kept =
            (h.others (without_status x) unwanted).0 ((listed (without_status x)).1 (x, m, refl)) in
          cc)

  field-InPlace : (external : Bool) → All InPlace (field_requests external current update)
  field-InPlace external =
      elim (Bool-cases (not external && is_load_balancer_updated current update)) [
        | inl e ↦ rw e (tt, tt)
        | inr e ↦ rw e tt
      ]

  plan-InPlace :
      {S : Services} (external : Bool)
      → IsReached external update.services S T
      → All InPlace (plan external current update)
  unfolding plan
  plan-InPlace external h =
      All-append InPlace (field_requests external current update) _ (field-InPlace external) (
        All-append InPlace (delete_requests external current.id update.services current.services) _
          (delete-InPlace external h) (services-InPlace update.services h.settled))

module _ {W : Type 0} (client : Client W) where
  Ends-service :
      (P : Unit {0} → Type 0) (p : List Request) (s t : Session W)
      (x : Result (Unit {0}) × Session W)
      → Ends P p s x
      → x ≡ (ok tt, t)
      → t.service ≡ s.service
  Ends-service P p s t x h e = (rw e at h).2

  pub update_load_balancer-service :
      (s t : Session W) {update current : LoadBalancer} {w : W}
      → build_load_balancer s.service ≡ ok update
      → update.id ≢ ""
      → client.get_load_balancer update.id s.world ≡ (ok current, w)
      → update_load_balancer client s ≡ (ok tt, t)
      → t.service ≡ s.service
  unfolding Sends
  update_load_balancer-service s t built id fetched h =
      Ends-service Any _ s t (update_load_balancer client s)
        (update_load_balancer-Sends client s built id fetched) h

module _ {W : Type 0} (client : Client W) (view : String → W → Services)
    (lawful : IsLawful client view) where
  -- Where the services are as wanted, a run sends only updates in place.
  pub reached-InPlace :
      (t : Session W) {update next : LoadBalancer} {v : W} {S : Services}
      → build_load_balancer t.service ≡ ok update
      → update.id ≢ ""
      → IsReached (is_external t.service) update.services S (view update.id t.world)
      → client.get_load_balancer update.id t.world ≡ (ok next, v)
      → (sent : List Request) × ((update_load_balancer client t).1.requests ≡ t.requests ++ sent)
        × All InPlace sent
  unfolding Sends
  reached-InPlace t {update} {next} {v} {S} built id reached again =
      let (_, _, listed) = lawful.fetched update.id next t.world v again in
      sent_of_plan client InPlace (plan (is_external t.service) next update) t
        (update_load_balancer client t)
        (plan-InPlace next update (view update.id t.world) reached.orderly listed {S = S}
          (is_external t.service) reached)
        (update_load_balancer-Sends client t built id again)

  -- If the API tells the NLB as it is and applies the requests that it accepts, no two services of the
  -- NLB have one ID or one port number and protocol, and no two services that the Service asks for have
  -- one port number and protocol: once a run of `updateLoadBalancer` has returned no error, the next
  -- run, for the same Service and over the world that the first left, in which the NLB can be fetched,
  -- neither adds nor deletes a service: whether or not it succeeds, it sends only updates of the NLB's
  -- own fields and of services in place.
  pub second_update-InPlace :
      (s t : Session W) {update current next : LoadBalancer} {w v : W}
      → build_load_balancer s.service ≡ ok update
      → update.id ≢ ""
      → client.get_load_balancer update.id s.world ≡ (ok current, w)
      → IsOrderly (view update.id s.world)
      → DistinctKeys update.services
      → update_load_balancer client s ≡ (ok tt, t)
      → client.get_load_balancer update.id t.world ≡ (ok next, v)
      → (sent : List Request) × ((update_load_balancer client t).1.requests ≡ t.requests ++ sent)
        × All InPlace sent
  second_update-InPlace s t {update} built id fetched orderly distinct h again =
      let reached =
        update_load_balancer-IsReached client view lawful s t built id fetched orderly distinct h in
      let same = update_load_balancer-service client s t built id fetched h in
      reached-InPlace t {S = view update.id s.world} (ap build_load_balancer same ∙ built) id
        (rw same reached) again

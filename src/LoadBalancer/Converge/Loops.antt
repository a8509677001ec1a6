-- ===== src/LoadBalancer/Converge/Loops.antt =====
-- The effect of the requests of a whole plan: first the deletions, then one round for each wanted
-- service.
use exoscale_cloud_controlle.Base.{
  ◌≡◌, refl, sym, ◌∙◌, ap, subst, ◌≢◌, ◌↔◌, inl, inr, Option, none, some, List, [], ◌∷◌, ◌==◌,
  string_eq, All, arith, Bool-cases, concat_map,
}
use exoscale_cloud_controlle.Cloud.Exoscale.{LoadBalancer, LoadBalancerService}
use exoscale_cloud_controlle.LoadBalancer.Build.{without_status, is_load_balancer_service_updated}
use exoscale_cloud_controlle.LoadBalancer.Converge.Settled.{
  not_updated, added-IsSettled, updated-key, updated-IsSettled, same-IsSettled,
}
use exoscale_cloud_controlle.LoadBalancer.Converge.Rounds.{
  IsOrderly, IsSettled, Replaces, Replaces-IsOrderly, added-Replaces, changed-Replaces,
  kept-Replaces, moved-Replaces,
}
use exoscale_cloud_controlle.LoadBalancer.Lawful.{Services, Effects, Effects-split, updated}
use exoscale_cloud_controlle.LoadBalancer.Update.{
  ServiceKey, key_eq, key_of, update_request, pool_id,
}
use exoscale_cloud_controlle.LoadBalancer.Update.Plan.{current_for, requests_for, service_requests}

-- What the look-up of a key says about the services: the one that it found is there, or none is.
abbrev pub Found : ServiceKey → Option LoadBalancerService → Services → Type 0
Found k none S = (y : LoadBalancerService) → S y → key_of y ≢ k
Found k (some s) S = S (without_status s) × (key_of s ≡ k)

module _ {W : Type 0} (V : W → Services) (current update : LoadBalancer) where
  -- After the requests for a wanted service, a settled one is in the place of its key.
  abbrev Settles : LoadBalancerService → W → W → Type 0
  Settles u w w' = (x : LoadBalancerService) × Replaces (key_of u) x (V w) (V w') × IsSettled x u

  round :
      (u : LoadBalancerService) (o : Option LoadBalancerService) (w w' : W)
      → IsOrderly (V w)
      → Found (key_of u) o (V w)
      → Effects V (requests_for current update u o) w w'
      → Settles u w w'
  round u none w w' o h (w1, e, same) = (
    e.0,
    subst (Replaces (key_of u) e.0 (V w)) (sym same) (added-Replaces current.id h refl e),
    added-IsSettled u e.0 e.1,
  )
  round u (some s) w w' o (mine, k) h =
      elim (Bool-cases (pool_id s.instance_pool == pool_id u.instance_pool)) [
        | inr moved ↦
            let (w1, gone, rest) = rw moved at h in
            let (w2, e, same) = rest in
            (
              e.0,
              subst (λ j. Replaces j e.0 (V w) (V w')) k
                  (subst (Replaces (key_of s) e.0 (V w)) (sym same) (
                    moved-Replaces current.id current.id (without_status s) o mine (sym k) gone e)),
              added-IsSettled u e.0 e.1,
            )
        | inl still ↦
            let pools : pool_id s.instance_pool ≡ pool_id u.instance_pool = ground arith in
            elim (Bool-cases (is_load_balancer_service_updated s (record u { id = s.id }))) [
              | inl changed ↦
                  let (w1, e, same) = rw (still, changed) at h in
                  (
                    updated (update_request u) (without_status s),
                    subst
                        (λ j.
                          Replaces j (updated (update_request u) (without_status s)) (V w) (V w'))
                        k
                        (subst
                          (Replaces (key_of s) (updated (update_request u) (without_status s))
                            (V w))
                          (sym same)
                          (changed-Replaces update.id (update_request u) (without_status s) o mine
                            (updated-key u (without_status s) k ∙ sym k) e)),
                    updated-IsSettled u (without_status s) k pools,
                  )
              | inr equal ↦
                  let same = rw (still, equal) at h in
                  (
                    without_status s,
                    subst (λ j. Replaces j (without_status s) (V w) (V w')) k
                        (kept-Replaces (without_status s) o mine same),
                    same-IsSettled u s (not_updated s (record u { id = s.id }) equal),
                  )
            ]
      ]

  -- What a look-up has found stays found if another key is replaced.
  Found-Replaces :
      {k : ServiceKey} {x : LoadBalancerService} {S T : Services} (j : ServiceKey)
      (o : Option LoadBalancerService)
      → j ≢ k
      → Replaces k x S T
      → Found j o S
      → Found j o T
  Found-Replaces j none n r h = λ y ty e. elim ((r.all y).0 ty) [
    | inl (sy, _) ↦ h y sy e
    | inr d ↦ n (sym e ∙ ap key_of d ∙ r.key)
  ]
  Found-Replaces j (some s) n r (m, e) =
      ((r.all (without_status s)).1 (inl (m, λ d. n (sym e ∙ d))), e)

-- No two of the services have one key.
abbrev pub DistinctKeys : List LoadBalancerService → Type 0
DistinctKeys [] = Unit {0}
DistinctKeys (u ∷ us) = All (λ v. key_of v ≢ key_of u) us × DistinctKeys us

-- None of the services has the key.
abbrev pub Lacks : ServiceKey → List LoadBalancerService → Type 0
Lacks k = All (λ u. k ≢ key_of u)

-- Each of the services is there, settled.
abbrev pub AllSettled : List LoadBalancerService → Services → Type 0
AllSettled us T = All (λ u. (x : LoadBalancerService) × T x × IsSettled x u) us

module _ {W : Type 0} (V : W → Services) (current update : LoadBalancer) where
  abbrev AllFound : List LoadBalancerService → W → Type 0
  AllFound us w = All (λ u. Found (key_of u) (current_for (key_of u) current.services) (V w)) us

  AllFound-Replaces :
      {k : ServiceKey} {x : LoadBalancerService} (w w' : W) (us : List LoadBalancerService)
      → All (λ v. key_of v ≢ k) us
      → Replaces k x (V w) (V w')
      → AllFound us w
      → AllFound us w'
  AllFound-Replaces w w' [] d r h = tt
  AllFound-Replaces w w' (u ∷ us) d r h = (
    Found-Replaces V current update (key_of u) (current_for (key_of u) current.services) d.0 r h.0,
    AllFound-Replaces w w' us d.1 r h.1,
  )

  Lacks-flip :
      (k : ServiceKey) (us : List LoadBalancerService) → All (λ v. key_of v ≢ k) us → Lacks k us
  Lacks-flip k [] h = tt
  Lacks-flip k (u ∷ us) h = (λ e. h.0 (sym e), Lacks-flip k us h.1)

  -- The second loop's requests settle every wanted service, and leave the services of other keys.
  pub settled_all :
      (us : List LoadBalancerService) (w w' : W)
      → IsOrderly (V w)
      → DistinctKeys us
      → AllFound us w
      → Effects V (concat_map (service_requests current update) us) w w'
      → IsOrderly (V w')
        × AllSettled us (V w')
        × ((y : LoadBalancerService) → Lacks (key_of y) us → V w' y ↔ V w y)
  settled_all [] w w' o d f h = (rw h o, tt, λ y _. rw h (λ m. m, λ m. m))
  settled_all (u ∷ us) w w' o d f h =
      let (w1, mine, rest) =
        Effects-split V (service_requests current update u)
          (concat_map (service_requests current update) us) w w' h in
      let (x, r, done) =
        round V current update u (current_for (key_of u) current.services) w w1 o f.0 mine in
      let (o', all, frame) =
        settled_all us w1 w' (Replaces-IsOrderly r o) d.1 (AllFound-Replaces w w1 us d.0 r f.1)
          rest in
      (
        o',
        (
          (x, (frame x (Lacks-flip (key_of x) us (rw r.key d.0))).1 ((r.all x).1 (inr refl)), done),
          all,
        ),
        λ y n. (
          (λ m. elim ((r.all y).0 ((frame y n.1).0 m)) [
            | inl (sy, _) ↦ sy
            | inr e ↦ absurd (n.0 (ap key_of e ∙ r.key))
          ]),
          λ m. (frame y n.1).1 ((r.all y).1 (inl (m, n.0))),
        ),
      )

-- ===== src/LoadBalancer/Delete/Cleared.antt =====
-- What `EnsureLoadBalancerDeleted` does to the services of an NLB, over an API that obeys the laws.
use exoscale_cloud_controlle.Base.{
  ◌≡◌, refl, ◌∙◌, sym, ap, ◌≢◌, ◌↔◌, Bool, true, false, not, ◌&&◌, List, ◌==◌, string_eq, nat_eq,
  int_eq, arith, Bool-cases, inl, inr, keep_if, concat_map, length, All-Member, All-intro,
}
use exoscale_cloud_controlle.Cloud.Exoscale.{LoadBalancer, LoadBalancerService}
use exoscale_cloud_controlle.Cloud.Kubernetes.{ServicePort}
use exoscale_cloud_controlle.LoadBalancer.Build.{without_status}
use exoscale_cloud_controlle.LoadBalancer.Converge.Kept.{Lists}
use exoscale_cloud_controlle.LoadBalancer.Converge.Rounds.{IsOrderly}
use exoscale_cloud_controlle.LoadBalancer.Delete.{matches_port}
use exoscale_cloud_controlle.LoadBalancer.Delete.Plan.{deletions, delete_plan}
use exoscale_cloud_controlle.LoadBalancer.Lawful.{Services, Effects, Effects-split}
use exoscale_cloud_controlle.LoadBalancer.Delete.Counted.{
  matches_any, Apart, Spared, all_deleted, matches_any-none, spared-All, all_matched, IsCleared,
  matches_any-some, matches_any-without_status,
}

module _ {W : Type 0} (V : W → Services) where
  Spared-matches_any :
      (ports : List ServicePort) (services : List LoadBalancerService) (w : W)
      → IsOrderly (V w)
      → Lists (V w) services
      → (y : LoadBalancerService) → V w y
      → Spared V ports y services ↔ (matches_any ports y ≡ false)
  Spared-matches_any ports services w o listed y here = (
    λ spared. elim (Bool-cases (matches_any ports y)) [
      | inr e ↦ e
      | inl e ↦
          let (s, m, f) = (listed y).0 here in
          let matched =
            sym (matches_any-without_status ports s) ∙ ap (matches_any ports) (sym f) ∙ e in
          absurd (
            matches_any-some ports s (y.id ≢ s.id) matched (All-Member _ services s spared m)
              (ap (λ z. z.id) f))
    ],
    λ e. All-intro _ services λ s m. elim (Bool-cases (matches_any ports s)) [
      | inr f ↦ rw (matches_any-none ports s f) tt
      | inl f ↦
          let differ : y.id ≢ s.id = λ k.
            let same =
              o.ids y (without_status s) here ((listed (without_status s)).1 (s, m, refl)) k in
            let g : matches_any ports y ≡ true =
              ap (matches_any ports) same ∙ matches_any-without_status ports s ∙ f in
            cc in
          spared-All (y.id ≢ s.id) (keep_if (matches_port s) ports) differ
    ],
  )

  -- The effect of a whole plan: whether or not it ends with the NLB, exactly the services of the ports
  -- are gone, for the NLB goes only if they were all that it had.
  pub delete_plan-IsCleared :
      (external : Bool) (ports : List ServicePort) (nlb : LoadBalancer) (w w' : W)
      → IsOrderly (V w)
      → Lists (V w) nlb.services
      → Apart ports
      → Effects V (delete_plan external ports nlb) w w'
      → IsCleared ports (V w) (V w')
  unfolding delete_plan
  delete_plan-IsCleared external ports nlb w w' o listed apart h y =
      let gone = concat_map (deletions nlb.id ports) nlb.services in
      let (w1, deleted, last) = Effects-split V gone _ w w' h in
      let all = all_deleted V nlb.id ports nlb.services w w1 deleted y in
      let cleared : V w1 y ↔ (V w y × (matches_any ports y ≡ false)) = (
        λ m. (
          (all.0 m).0,
          (Spared-matches_any ports nlb.services w o listed y (all.0 m).0).0 (all.0 m).1,
        ),
        λ (m, e). all.1 (m, (Spared-matches_any ports nlb.services w o listed y m).1 e),
      ) in
      elim (Bool-cases (length gone == length nlb.services && not external)) [
        | inr e ↦ rw (rw e at last) cleared
        | inl e ↦
            let (w2, removed, same) = rw e at last in
            let counted : length gone ≡ length nlb.services = ground arith in
            (
              λ m. absurd (removed y (rw same at m)),
              λ (m, f).
                  let (s, ms, g) = (listed y).0 m in
                  let matched = all_matched nlb.id ports nlb.services apart counted s ms in
                  let k : matches_any ports y ≡ true =
                    ap (matches_any ports) g ∙ matches_any-without_status ports s ∙ matched in
                  cc,
            )
      ]

-- ===== src/LoadBalancer/Converge/Planned.antt =====
-- The effect of a whole plan on the services of an NLB that is told as it is.
use exoscale_cloud_controlle.Base.{
  ◌≡◌, refl, ◌↔◌, ◌⊎◌, inl, inr, Bool, true, false, string_eq, concat_map,
}
use exoscale_cloud_controlle.Cloud.Exoscale.{LoadBalancer, LoadBalancerService}
use exoscale_cloud_controlle.LoadBalancer.Converge.Rounds.{IsOrderly}
use exoscale_cloud_controlle.LoadBalancer.Converge.Loops.{Found, DistinctKeys, settled_all}
use exoscale_cloud_controlle.LoadBalancer.Lawful.{Services, Effects, Effects-split}
use exoscale_cloud_controlle.LoadBalancer.Update.{key_eq, key_of, is_desired}
use exoscale_cloud_controlle.LoadBalancer.Update.Collected.{All-desired}
use exoscale_cloud_controlle.LoadBalancer.Update.Plan.{
  current_for, plan, field_requests, delete_requests, service_requests,
}
use exoscale_cloud_controlle.LoadBalancer.Converge.Kept.{
  Lists, IsReached, is_desired-Lacks, deleted_others, fields_alone, Found-current, Found-fewer,
}

module _ {W : Type 0} (V : W → Services) (current update : LoadBalancer) where
  -- From what the first loop has left, the second loop reaches what the NLB is to have.
  second_loop :
      (external : Bool) (w w1 w' : W)
      → IsOrderly (V w)
      → Lists (V w) current.services
      → DistinctKeys update.services
      → ((y : LoadBalancerService)
          → V w1 y ↔ (V w y × ((is_desired update.services (key_of y) ≡ true) ⊎ (external ≡ true))))
      → Effects V (concat_map (service_requests current update) update.services) w1 w'
      → IsReached external update.services (V w) (V w')
  second_loop external w w1 w' o listed distinct left h =
      let o1 : IsOrderly (V w1) = record {
        ids = λ x y sx sy. o.ids x y ((left x).0 sx).0 ((left y).0 sy).0;
        keys = λ x y sx sy. o.keys x y ((left x).0 sx).0 ((left y).0 sy).0;
      } in
      let found =
        All-desired (λ u. Found (key_of u) (current_for (key_of u) current.services) (V w1))
          update.services update.services
          (λ u d.
            Found-fewer update.services (key_of u) _ (λ y m. ((left y).0 m).0)
              (λ y m e. (left y).1 (m, inl e)) d (Found-current (key_of u) current.services listed))
          λ k d. d in
      let (o', all, frame) =
        settled_all V current update update.services w1 w' o1 distinct found h in
      record {
        orderly = o';
        settled = all;
        others = λ y n.
            let f = frame y (is_desired-Lacks update.services (key_of y) n) in
            (
              λ m. let (s, c) = (left y).0 (f.0 m) in (s, elim c [ inl e ↦ cc | inr e ↦ e ]),
              λ (s, e). f.1 ((left y).1 (s, inr e)),
            );
      }

  -- What the first two parts of a plan leave.
  left_by :
      (external : Bool) (w w0 w1 : W)
      → IsOrderly (V w)
      → Lists (V w) current.services
      → ((y : LoadBalancerService) → V w0 y ↔ V w y)
      → Effects V (delete_requests external current.id update.services current.services) w0 w1
      → (y : LoadBalancerService)
      → V w1 y ↔ (V w y × ((is_desired update.services (key_of y) ≡ true) ⊎ (external ≡ true)))
  left_by true w w0 w1 o listed f h y = rw h (λ m. ((f y).0 m, inr refl), λ m. (f y).1 m.0)
  left_by false w w0 w1 o listed f h y =
      let o0 : IsOrderly (V w0) = record {
        ids = λ x z sx sz. o.ids x z ((f x).0 sx) ((f z).0 sz);
        keys = λ x z sx sz. o.keys x z ((f x).0 sx) ((f z).0 sz);
      } in
      let l0 : Lists (V w0) current.services =
        λ z. (λ m. (listed z).0 ((f z).0 m), λ m. (f z).1 ((listed z).1 m)) in
      let d = deleted_others V current.id update.services current.services w0 w1 o0 l0 h y in
      (
        λ m. let (n, e) = d.0 m in ((f y).0 n, inl e),
        λ (m, c). d.1 ((f y).1 m, elim c [ inl e ↦ e | inr e ↦ cc ]),
      )

  -- A plan whose requests all succeed brings the NLB to what it is to have.
  pub plan-IsReached :
      (external : Bool) (w w' : W)
      → IsOrderly (V w)
      → Lists (V w) current.services
      → DistinctKeys update.services
      → Effects V (plan external current update) w w'
      → IsReached external update.services (V w) (V w')
  unfolding plan
  plan-IsReached external w w' o listed distinct h =
      let (w0, fields, h0) = Effects-split V (field_requests external current update) _ w w' h in
      let (w1, gone, h1) =
        Effects-split V (delete_requests external current.id update.services current.services) _ w0
          w' h0 in
      let f = fields_alone V external current update w w0 fields in
      second_loop external w w1 w' o listed distinct (left_by external w w0 w1 o listed f gone) h1

-- ===== src/LoadBalancer/Ensure/External.antt =====
-- `EnsureLoadBalancer` and `EnsureLoadBalancerDeleted` on an external NLB.
use exoscale_cloud_controlle.Base.{
  ◌≡◌, refl, ◌∙◌, true, List, string_eq, Bool-cases, Result-cases, inl, inr,
  is_load_balancer_not_found,
}
use exoscale_cloud_controlle.Cloud.Exoscale.{Client, Finders, LoadBalancer}
use exoscale_cloud_controlle.Cloud.Kubernetes.{Kube, Node}
use exoscale_cloud_controlle.LoadBalancer.Annotations.{is_external}
use exoscale_cloud_controlle.LoadBalancer.Emits.{
  Adds, Emits, Emits-silent, Emits-attempt, Emits-bind, Emits-gets,
}
use exoscale_cloud_controlle.LoadBalancer.Ensure.{fetch_or_create, ensure_load_balancer}
use exoscale_cloud_controlle.LoadBalancer.Session.{Session}
use exoscale_cloud_controlle.LoadBalancer.Delete.{ensure_load_balancer_deleted}
use exoscale_cloud_controlle.LoadBalancer.Update.{update_load_balancer}
use exoscale_cloud_controlle.LoadBalancer.Ensure.Resolving.{
  resolve_external-Emits, resolve_pool-Emits,
}
use exoscale_cloud_controlle.LoadBalancer.Ensure.Requests.{
  LeavesNlb, fetch-Emits, reconcile-Emits, deleted-Emits,
}

module _ {W : Type 0} (client : Client W) (finders : Finders) (kube : Kube W) where
  fetch_or_create-Emits :
      (spec : LoadBalancer) (s : Session W)
      → is_external s.service ≡ true
      → Emits LeavesNlb (fetch_or_create client finders kube spec) s
  unfolding fetch_or_create
  fetch_or_create-Emits spec s external =
      Emits-bind LeavesNlb _ _ s (Emits-attempt LeavesNlb _ s (fetch-Emits client s))
        λ fetched t same. Emits-gets LeavesNlb _ _ t (elim (Result-cases fetched) [
          | inl (nlb, e) ↦ rw e (Emits-silent LeavesNlb _ t refl refl)
          | inr (x, e) ↦ elim (Bool-cases (is_load_balancer_not_found x)) [
            | inl f ↦ rw (e, f, same ∙ external) (Emits-silent LeavesNlb _ t refl refl)
            | inr f ↦ rw (e, f) (Emits-silent LeavesNlb _ t refl refl)
          ]
        ])

  update-Emits :
      (s : Session W)
      → is_external s.service ≡ true
      → Emits LeavesNlb (update_load_balancer client) s
  unfolding update_load_balancer
  update-Emits s external = Emits-gets LeavesNlb _ _ s (
      Emits-bind LeavesNlb _ _ s (Emits-silent LeavesNlb _ s refl refl) λ update t k.
        Emits-bind LeavesNlb _ _ t (Emits-silent LeavesNlb _ t refl refl) λ _ t1 k1.
          Emits-bind LeavesNlb _ _ t1 (Emits-silent LeavesNlb _ t1 refl refl)
            λ current t2 k2. rw external (reconcile-Emits client current update t2))

  ensure-Emits :
      (nodes : List Node) (s : Session W)
      → is_external s.service ≡ true
      → Emits LeavesNlb (ensure_load_balancer client finders kube nodes) s
  unfolding ensure_load_balancer
  ensure-Emits nodes s external =
      Emits-bind LeavesNlb _ _ s
        (resolve_external-Emits LeavesNlb (λ _ _ _. tt) client finders kube s)
        λ _ t k.
          Emits-bind LeavesNlb _ _ t
            (resolve_pool-Emits LeavesNlb (λ _ _ _. tt) client finders kube nodes t)
            λ _ t1 k1.
              Emits-bind LeavesNlb _ _ t1 (Emits-silent LeavesNlb _ t1 refl refl) λ service t2 k2.
                Emits-bind LeavesNlb _ _ t2 (Emits-silent LeavesNlb _ t2 refl refl) λ spec t3 k3.
                  let external3 = k3 ∙ k2 ∙ k1 ∙ k ∙ external in
                  Emits-bind LeavesNlb _ _ t3 (fetch_or_create-Emits spec t3 external3) λ nlb t4 k4.
                    Emits-bind LeavesNlb _ _ t4 (update-Emits t4 (k4 ∙ external3))
                      λ _ t5 _. Emits-silent LeavesNlb _ t5 refl refl

  -- On an external NLB neither `EnsureLoadBalancer` nor `EnsureLoadBalancerDeleted` creates, updates
  -- or deletes an NLB, in any run and however it ends: they only send requests about the services of
  -- an NLB and patches of the Service, and the Service stays external and keeps its ports.
  pub external_nlb_left_alone :
      (nodes : List Node) (s : Session W)
      → is_external s.service ≡ true
      → Adds LeavesNlb s (ensure_load_balancer client finders kube nodes s).1
        × Adds LeavesNlb s (ensure_load_balancer_deleted client s).1
  unfolding Emits
  external_nlb_left_alone nodes s external =
      (ensure-Emits nodes s external, deleted-Emits client s external)

-- ===== src/LoadBalancer/Delete/Plan.antt =====
-- The specification of `EnsureLoadBalancerDeleted`: the requests that take a Service's ports off an
-- NLB, and the loops' refinement of it.
use exoscale_cloud_controlle.Base.{
  ℕ, zero, suc, ◌+◌, String, ◌≡◌, refl, ◌∙◌, sym, Bool, false, not, ◌&&◌, List, [], ◌∷◌, ◌++◌, map,
  ◌==◌, int_eq, nat_eq, if◌then◌else◌, ok, ◌>>=◌, arith, Bool-cases, inl, inr, keep_if, concat_map,
  length, ℤ, pos, negsuc, pred_ℤ,
}
use exoscale_cloud_controlle.Cloud.Exoscale.{Client, LoadBalancer, LoadBalancerService}
use exoscale_cloud_controlle.Cloud.Kubernetes.{Service, ServicePort}
use exoscale_cloud_controlle.LoadBalancer.Annotations.{is_external}
use exoscale_cloud_controlle.LoadBalancer.Delete.{
  matches_port, delete_matching, delete_services, delete_found, delete_of,
  ensure_load_balancer_deleted,
}
use exoscale_cloud_controlle.LoadBalancer.Fetch.{fetch_load_balancer}
use exoscale_cloud_controlle.LoadBalancer.Sends.{Sends, Any}
use exoscale_cloud_controlle.LoadBalancer.Runs.{
  Obeys, Runs, NoEffect, no_view, blind-Obeys, Runs-Sends, Runs-pure, Runs-send, Runs-bind,
  Runs-when,
}
use exoscale_cloud_controlle.LoadBalancer.Session.{Request, Session, delete_service, delete_nlb}

-- One deletion for each port that the NLB service matches.
abbrev pub deletions : String → List ServicePort → LoadBalancerService → List Request
deletions id ports s = map (λ _. delete_service id s.id) (keep_if (matches_port s) ports)

-- The NLB goes too where it is not external and as many deletions were sent as it had services.
unfoldable pub delete_plan : Bool → List ServicePort → LoadBalancer → List Request
delete_plan external ports nlb =
    let gone = concat_map (deletions nlb.id ports) nlb.services in
    gone
    ++ (if length gone == length nlb.services && not external then delete_nlb nlb.id ∷ [] else [])

abbrev pub minus : ℤ → ℕ → ℤ
minus z zero = z
minus z (suc n) = minus (pred_ℤ z) n

pub minus_add : (z : ℤ) (m n : ℕ) → minus z (m + n) ≡ minus (minus z m) n
minus_add z zero n = ground arith
minus_add z (suc m) n =
    let e : suc m + n ≡ suc (m + n) = omega arith in rw e (minus_add (pred_ℤ z) m n)

minus-negsuc : (k n : ℕ) → (minus (negsuc k) n == pos 0) ≡ false
minus-negsuc k zero = ground arith
minus-negsuc k (suc n) = minus-negsuc (suc k) n

pub minus-pos : (k n : ℕ) → (minus (pos k) n == pos 0) ≡ (n == k)
minus-pos zero zero = ground arith
minus-pos zero (suc n) = minus-negsuc 0 n ∙ ground arith
minus-pos (suc k) zero = ground arith
minus-pos (suc k) (suc n) = minus-pos k n ∙ ground arith

pub length-append : {A : Type 0} (xs ys : List A) → length (xs ++ ys) ≡ length xs + length ys
length-append [] ys = ground arith
length-append (x ∷ xs) ys = ground (arith, length-append xs ys)

module _ {W : Type 0} {X : Type 1} (E : Request → X → X → Type 0) (V : W → X) (client : Client W)
    (nlb : LoadBalancer) (obeys : Obeys E V client nlb.id nlb.id) where
  delete_matching-Runs :
      (x : LoadBalancerService) (ports : List ServicePort) (n : ℤ) (s : Session W)
      → Runs E V
          (λ left. left ≡ minus n (length (deletions nlb.id ports x)))
          (deletions nlb.id ports x)
          (delete_matching client nlb x ports n)
          s
  unfolding delete_matching
  delete_matching-Runs x [] n s = Runs-pure E V (λ left. left ≡ n) n s refl
  delete_matching-Runs x (p ∷ ports) n s = elim (Bool-cases (matches_port x p)) [
    | inl e ↦
        rw (e, delete_matching)
          (Runs-bind E V Any (λ left. left ≡ minus (pred_ℤ n) (length (deletions nlb.id ports x)))
            (delete_service nlb.id x.id ∷ []) (deletions nlb.id ports x) s _ _
            (Runs-send E V _ _ s λ op w h. obeys.deleted x.id op s.world w h)
            λ _ t _. delete_matching-Runs x ports (pred_ℤ n) t)
    | inr e ↦ rw (e, delete_matching) (delete_matching-Runs x ports n s)
  ]

  delete_services-Runs :
      (ports : List ServicePort) (services : List LoadBalancerService) (n : ℤ) (s : Session W)
      → Runs E V
          (λ left. left ≡ minus n (length (concat_map (deletions nlb.id ports) services)))
          (concat_map (deletions nlb.id ports) services)
          (delete_services client nlb ports services n)
          s
  unfolding delete_services
  delete_services-Runs ports [] n s = Runs-pure E V (λ left. left ≡ n) n s refl
  delete_services-Runs ports (x ∷ services) n s =
      Runs-bind E V _ _ (deletions nlb.id ports x) _ s _ _ (delete_matching-Runs x ports n s)
        λ left t e.
          rw
            (
              length-append (deletions nlb.id ports x),
              minus_add n (length (deletions nlb.id ports x)),
              sym e,
            )
            (delete_services-Runs ports services left t)

  pub delete_of-Runs :
      (service : Service) (s : Session W)
      → Runs E V Any
          (delete_plan (is_external service) service.ports nlb)
          (delete_of client service nlb)
          s
  unfolding delete_of delete_plan
  delete_of-Runs service s =
      Runs-bind E V _ Any (concat_map (deletions nlb.id service.ports) nlb.services) _ s _ _
        (delete_services-Runs service.ports nlb.services (pos (length nlb.services)) s)
        λ left t e.
          rw (e, minus-pos (length nlb.services))
            (Runs-when E V _ _ _ t (
              Runs-bind E V Any Any _ [] t _ _
                (Runs-send E V _ _ t λ op w h. obeys.removed op t.world w h)
                λ op t' _. Runs-pure E V Any tt t' tt))

module _ {W : Type 0} (client : Client W) where
  pub delete_of-Sends :
      (service : Service) (nlb : LoadBalancer) (s : Session W)
      → Sends Any
          (delete_plan (is_external service) service.ports nlb)
          (delete_of client service nlb)
          s
  delete_of-Sends service nlb s =
      Runs-Sends NoEffect no_view Any (delete_plan (is_external service) service.ports nlb) _ s
        (delete_of-Runs NoEffect no_view client nlb (blind-Obeys client nlb.id nlb.id) service s)

  -- When the Service's NLB can be fetched, `EnsureLoadBalancerDeleted` sends exactly the deletions of
  -- the plan, in its order, if it returns no error, and a first part of them if it returns one: one
  -- deletion for each pair of an NLB service and a port that it matches, and then the deletion of the
  -- NLB, if it is not external and there were as many pairs as it has services.
  pub ensure_load_balancer_deleted-Sends :
      (s : Session W) {nlb : LoadBalancer} {w : W}
      → fetch_load_balancer client s ≡ (ok nlb, record s { world = w })
      → Sends Any
          (delete_plan (is_external s.service) s.service.ports nlb)
          (ensure_load_balancer_deleted client)
          s
  unfolding Sends ensure_load_balancer_deleted delete_found ◌>>=◌ fetch_load_balancer
  ensure_load_balancer_deleted-Sends s {nlb} {w} fetched =
      rw fetched (delete_of-Sends s.service nlb (record s { world = w }))

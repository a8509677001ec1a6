-- ===== src/LoadBalancer/Ensure/Status.antt =====
-- `GetLoadBalancer` after `EnsureLoadBalancer` (exoscale/loadbalancer.go, lines 68-92 and 94-262).
use exoscale_cloud_controlle.Base.{
  String, ◌≡◌, refl, ◌∙◌, sym, ap, ◌≢◌, true, false, some, List, ◌==◌, string_eq, ok, arith,
  attempt, gets, map_error, bind-eq,
}
use exoscale_cloud_controlle.Base.Yields.{Yields, Yields-pure, Yields-run, Yields-bind, Yields-ok}
use exoscale_cloud_controlle.Cloud.Exoscale.{Client, Finders, LoadBalancer}
use exoscale_cloud_controlle.Cloud.Kubernetes.{Kube, Node}
use exoscale_cloud_controlle.LoadBalancer.Annotations.{get_annotation, annotation_id}
use exoscale_cloud_controlle.LoadBalancer.Build.Keys.{build_load_balancer-id}
use exoscale_cloud_controlle.LoadBalancer.Converge.Stable.{update_load_balancer-service}
use exoscale_cloud_controlle.LoadBalancer.Ensure.{ensure_load_balancer}
use exoscale_cloud_controlle.LoadBalancer.Ensure.Adopted.{IsAdopted, fetch_or_create-IsAdopted}
use exoscale_cloud_controlle.LoadBalancer.Ensure.Ensured.{ran_well}
use exoscale_cloud_controlle.LoadBalancer.Fetch.{
  fetch_load_balancer, fetch_error, get_load_balancer,
}
use exoscale_cloud_controlle.LoadBalancer.Lawful.{Services, IsLawful}
use exoscale_cloud_controlle.LoadBalancer.Session.{Session}
use exoscale_cloud_controlle.LoadBalancer.Update.{update_load_balancer}

-- Whenever the API tells an NLB, it tells the same address.
abbrev pub HasStaticAddresses : {W : Type 0} → Client W → Type 0
HasStaticAddresses {W} client =
    (id : String) (n m : LoadBalancer) (w w' v v' : W)
    → client.get_load_balancer id w ≡ (ok n, w')
    → client.get_load_balancer id v ≡ (ok m, v')
    → n.ip ≡ m.ip

-- The ID that the Service names.
abbrev pub named_id : {W : Type 0} → Session W → String
named_id s = get_annotation s.service annotation_id ""

module _ {W : Type 0} (client : Client W) where
  pub fetched_named :
      (t : Session W) {n : LoadBalancer} {v : W}
      → named_id t ≢ ""
      → client.get_load_balancer (named_id t) t.world ≡ (ok n, v)
      → fetch_load_balancer client t ≡ (ok n, record t { world = v })
  unfolding fetch_load_balancer
  fetched_named t {n} {v} given told =
      let e : (named_id t == "") ≡ false = ground arith in
      bind-eq (gets (λ s. s.service)) _ t t.service t refl
      ∙ rw e (ap (λ x. map_error fetch_error (λ s. (x.0, record s { world = x.1 })) t) told)

  get_load_balancer-told :
      (t : Session W) {n : LoadBalancer} {v : W}
      → named_id t ≢ ""
      → client.get_load_balancer (named_id t) t.world ≡ (ok n, v)
      → get_load_balancer client t ≡ (ok (some n.ip, true), record t { world = v })
  unfolding get_load_balancer
  get_load_balancer-told t {n} {v} given told =
      let h = fetched_named t given told in
      bind-eq (attempt (fetch_load_balancer client)) _ t (ok n) (record t { world = v })
        (λ i. (ok (h i).0, (h i).1))

module _ {W : Type 0} (client : Client W) (view : String → W → Services)
    (lawful : IsLawful client view) (finders : Finders) (kube : Kube W) where
  -- What is known of the address that is returned.
  abbrev Answered : String → Session W → Type 0
  Answered ip t = (nlb : LoadBalancer) × IsAdopted client nlb t × (ip ≡ nlb.ip) × (named_id t ≢ "")

  updated-Answered :
      (nlb : LoadBalancer) (s t : Session W)
      → IsAdopted client nlb s
      → update_load_balancer client s ≡ (ok tt, t)
      → Answered nlb.ip t
  updated-Answered nlb s t adopted h =
      let (update, (built, given, (current, w, fetched))) = ran_well client s t h in
      let same = update_load_balancer-service client s t built given fetched h in
      let kept = ap (λ v. get_annotation v annotation_id "") same in
      (
        nlb,
        (kept ∙ adopted.0, adopted.1),
        refl,
        λ e. given (build_load_balancer-id s.service update built ∙ sym kept ∙ e),
      )

  ensure_load_balancer-Answered :
      (nodes : List Node) (s : Session W)
      → Yields Answered (ensure_load_balancer client finders kube nodes) s
  unfolding ensure_load_balancer
  ensure_load_balancer-Answered nodes s = Yields-bind _ Answered _ _ s (Yields-run _ s) λ _ s1 _.
      Yields-bind _ Answered _ _ s1 (Yields-run _ s1) λ _ s2 _.
        Yields-bind _ Answered _ _ s2 (Yields-run _ s2) λ service s3 _.
          Yields-bind _ Answered _ _ s3 (Yields-run _ s3) λ spec s4 _.
            Yields-bind (IsAdopted client) Answered _ _ s4
              (fetch_or_create-IsAdopted client view lawful finders kube spec s4)
              λ nlb s5 adopted.
                Yields-bind _ Answered _ _ s5 (Yields-run (update_load_balancer client) s5)
                  λ _ u ran. Yields-pure Answered nlb.ip u (updated-Answered nlb s5 u adopted ran)

  -- Over an API that tells an NLB as it is and always with one address: once `EnsureLoadBalancer` has
  -- returned an address, `GetLoadBalancer`, for the Service as it was left, answers with that address
  -- and says that the NLB exists, in every world in which the API tells the NLB that the Service names.
  pub get_load_balancer-ensure_load_balancer :
      (nodes : List Node) (s t : Session W) (ip : String)
      → HasStaticAddresses client
      → ensure_load_balancer client finders kube nodes s ≡ (ok ip, t)
      → (u v : W) (n : LoadBalancer) → client.get_load_balancer (named_id t) u ≡ (ok n, v)
      → get_load_balancer client (record t { world = u })
        ≡ (ok (some ip, true), record t { world = v })
  get_load_balancer-ensure_load_balancer nodes s t ip static h u v n told =
      let (nlb, adopted, address, given) =
        Yields-ok Answered (ensure_load_balancer client finders kube nodes) s
          (ensure_load_balancer-Answered nodes s) h in
      let (w, w', first) = adopted.1 in
      let one : n.ip ≡ nlb.ip =
        static (named_id t) n nlb u v w w' told
          (ap (λ j. client.get_load_balancer j w) adopted.0 ∙ first) in
      get_load_balancer-told client (record t { world = u }) given told
      ∙ ap (λ a. (ok (some a, true), record t { world = v })) (one ∙ sym address)

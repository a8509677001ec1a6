-- ===== src/LoadBalancer/Converge/Kept.antt =====
-- What the first loop leaves of an NLB that is told as it is, and what the second loop finds.
use exoscale_cloud_controlle.Base.{
  String, ◌≡◌, refl, sym, ◌∙◌, ap, ◌≢◌, ◌↔◌, inl, inr, Bool, true, false, not, ◌&&◌, Option, none,
  some, List, [], ◌∷◌, map, string_eq, Member, All, arith, Bool-cases, Option-cases, keep_if,
}
use exoscale_cloud_controlle.Cloud.Exoscale.{LoadBalancer, LoadBalancerService}
use exoscale_cloud_controlle.LoadBalancer.Build.{without_status, is_load_balancer_updated}
use exoscale_cloud_controlle.LoadBalancer.Converge.Rounds.{IsOrderly}
use exoscale_cloud_controlle.LoadBalancer.Converge.Loops.{Found, Lacks, AllSettled}
use exoscale_cloud_controlle.LoadBalancer.Lawful.{Services, Effects}
use exoscale_cloud_controlle.LoadBalancer.Session.{delete_service}
use exoscale_cloud_controlle.LoadBalancer.Update.{ServiceKey, key_eq, key_of, is_desired}
use exoscale_cloud_controlle.LoadBalancer.Update.Requested.{current_for-Member}
use exoscale_cloud_controlle.LoadBalancer.Update.Plan.{current_for, field_requests, delete_requests}

-- The set has the services of the list, without their status.
abbrev pub Lists : Services → List LoadBalancerService → Type 0
Lists S services =
    (y : LoadBalancerService)
    → S y ↔ ((s : LoadBalancerService) × Member s services × (y ≡ without_status s))

-- What an NLB is to have: every wanted service is there, settled, and no two services have one ID or
-- one key; of the other keys an external NLB has what it had, and another NLB nothing.
pub record IsReached (external : Bool) (desired : List LoadBalancerService) (S T : Services)
    : Type 0 where
  pub orderly : IsOrderly T
  pub settled : AllSettled desired T
  pub others :
      (y : LoadBalancerService)
      → is_desired desired (key_of y) ≡ false
      → T y ↔ (S y × (external ≡ true))

pub All-keep_if :
    {A : Type 0} (P : A → Type 0) (p : A → Bool) (xs : List A)
    → ((x : A) → Member x xs → p x ≡ true → P x)
    → All P (keep_if p xs)
All-keep_if P p [] h = tt
All-keep_if P p (x ∷ xs) h =
    let rest = All-keep_if P p xs (λ y m. h y (inr m)) in
    elim (Bool-cases (p x)) [ inl e ↦ rw e (h x (inl refl) e, rest) | inr e ↦ rw e rest ]

pub keep_if-All :
    {A : Type 0} (P : A → Type 0) (p : A → Bool) (xs : List A) (x : A)
    → All P (keep_if p xs)
    → Member x xs
    → p x ≡ true
    → P x
keep_if-All P p [] x h m t = absurd m
keep_if-All P p (y ∷ xs) x h (inl e) t = (rw (sym e, t) at h).0
keep_if-All P p (y ∷ xs) x h (inr m) t = elim (Bool-cases (p y)) [
  | inl e ↦ keep_if-All P p xs x (rw e at h).1 m t
  | inr e ↦ keep_if-All P p xs x (rw e at h) m t
]

pub is_desired-Lacks :
    (desired : List LoadBalancerService) (k : ServiceKey)
    → is_desired desired k ≡ false
    → Lacks k desired
is_desired-Lacks [] k h = tt
is_desired-Lacks (u ∷ desired) k h = (ground arith, is_desired-Lacks desired k (ground arith))

module _ {W : Type 0} (V : W → Services) where
  deleted :
      (id : String) (xs : List LoadBalancerService) (w w' : W)
      → Effects V (map (λ s. delete_service id s.id) xs) w w'
      → (y : LoadBalancerService) → V w' y ↔ (V w y × All (λ s. y.id ≢ s.id) xs)
  deleted id [] w w' h y = rw h (λ m. (m, tt), λ m. m.0)
  deleted id (s ∷ xs) w w' (w1, e, h) y =
      let rest = deleted id xs w1 w' h y in
      (
        λ m. let (n, all) = rest.0 m in let (k, d) = (e y).0 n in (k, (d, all)),
        λ m. rest.1 ((e y).1 (m.0, m.1.0), m.1.1),
      )

  -- The first loop leaves the services of the keys that are asked for.
  pub deleted_others :
      (id : String) (desired services : List LoadBalancerService) (w w' : W)
      → IsOrderly (V w)
      → Lists (V w) services
      → Effects V (delete_requests false id desired services) w w'
      → (y : LoadBalancerService) → V w' y ↔ (V w y × (is_desired desired (key_of y) ≡ true))
  deleted_others id desired services w w' o listed h y =
      let xs = keep_if (λ s. not (is_desired desired (key_of s))) services in
      let d = deleted id xs w w' h y in
      (
        λ m. elim (Bool-cases (is_desired desired (key_of y))) [
          | inl e ↦ ((d.0 m).0, e)
          | inr e ↦
              let (s, ms, f) = (listed y).0 (d.0 m).0 in
              absurd (
                keep_if-All (λ x. y.id ≢ x.id) _ services s (d.0 m).1 ms
                  (ap (λ z. not (is_desired desired (key_of z))) (sym f) ∙ ap not e)
                  (ap (λ z. z.id) f))
        ],
        λ (m, e). d.1 (
          m,
          All-keep_if (λ x. y.id ≢ x.id) _ services
              λ x mx t f.
                let same =
                  o.ids y (without_status x) m ((listed (without_status x)).1 (x, mx, refl)) f in
                let k : is_desired desired (key_of x) ≡ true =
                  ap (λ z. is_desired desired (key_of z)) (sym same) ∙ e in
                cc,
        ),
      )

  pub fields_alone :
      (external : Bool) (current update : LoadBalancer) (w w' : W)
      → Effects V (field_requests external current update) w w'
      → (y : LoadBalancerService) → V w' y ↔ V w y
  fields_alone external current update w w' h y =
      elim (Bool-cases (not external && is_load_balancer_updated current update)) [
        | inl e ↦ let (w1, g, k) = rw e at h in rw k (g y)
        | inr e ↦ rw (rw e at h) (λ m. m, λ m. m)
      ]

pub current_for-none :
    (k : ServiceKey) (services : List LoadBalancerService) (s : LoadBalancerService)
    → current_for k services ≡ none
    → Member s services
    → key_of s ≢ k
current_for-none k [] s h m = absurd m
current_for-none k (x ∷ services) s h m = elim (Option-cases (current_for k services)) [
  | inr (y, e) ↦ ground arith
  | inl e ↦ elim m [ inl f ↦ ground arith | inr n ↦ current_for-none k services s e n ]
]

-- What the second loop looks up is what there is.
pub Found-current :
    {S : Services} (k : ServiceKey) (services : List LoadBalancerService)
    → Lists S services
    → Found k (current_for k services) S
Found-current {S} k services listed = elim (Option-cases (current_for k services)) [
  | inl e ↦ rw e λ y m f.
      let (s, ms, g) = (listed y).0 m in current_for-none k services s e ms (ap key_of (sym g) ∙ f)
  | inr (s, e) ↦
      let (ms, f) = current_for-Member k services s e in
      rw e ((listed (without_status s)).1 (s, ms, refl), f)
]

pub Found-fewer :
    {S T : Services} (desired : List LoadBalancerService) (k : ServiceKey)
    (o : Option LoadBalancerService)
    → ((y : LoadBalancerService) → T y → S y)
    → ((y : LoadBalancerService) → S y → is_desired desired (key_of y) ≡ true → T y)
    → is_desired desired k ≡ true
    → Found k o S
    → Found k o T
Found-fewer desired k none sub stays d h = λ y m. h y (sub y m)
Found-fewer desired k (some s) sub stays d (m, e) =
    (stays (without_status s) m (ap (is_desired desired) e ∙ d), e)

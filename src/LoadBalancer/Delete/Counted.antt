-- ===== src/LoadBalancer/Delete/Counted.antt =====
-- The deletions of a plan, counted and carried out.
use exoscale_cloud_controlle.Base.{
  suc, ◌≤◌, String, ◌≡◌, refl, ◌∙◌, sym, ap, ◌≢◌, ◌↔◌, Bool, true, false, List, [], ◌∷◌, map,
  string_eq, nat_eq, int_eq, arith, Bool-cases, inl, inr, keep_if, any, concat_map, length, All,
  Member,
}
use exoscale_cloud_controlle.Cloud.Exoscale.{LoadBalancerService}
use exoscale_cloud_controlle.Cloud.Kubernetes.{ServicePort}
use exoscale_cloud_controlle.LoadBalancer.Build.{without_status}
use exoscale_cloud_controlle.LoadBalancer.Delete.{matches_port}
use exoscale_cloud_controlle.LoadBalancer.Delete.Plan.{deletions, length-append}
use exoscale_cloud_controlle.LoadBalancer.Lawful.{Services, Effects, Effects-split}
use exoscale_cloud_controlle.LoadBalancer.Session.{delete_service}

-- Does the service match one of the ports?
abbrev pub matches_any : List ServicePort → LoadBalancerService → Bool
matches_any ports s = any (matches_port s) ports

-- No service can match two of the ports.
abbrev pub Apart : List ServicePort → Type 0
Apart [] = Unit {0}
Apart (p ∷ ports) =
    ((s : LoadBalancerService) → matches_port s p ≡ true → matches_any ports s ≡ false)
    × Apart ports

module _ {W : Type 0} (V : W → Services) where
  repeated :
      {A : Type 0} (id sid : String) (xs : List A) (w w' : W)
      → Effects V (map (λ _. delete_service id sid) xs) w w'
      → (y : LoadBalancerService) → V w' y ↔ (V w y × All (λ _. y.id ≢ sid) xs)
  repeated id sid [] w w' h y = rw h (λ m. (m, tt), λ m. m.0)
  repeated id sid (x ∷ xs) w w' (w1, e, h) y =
      let rest = repeated id sid xs w1 w' h y in
      (
        λ m. let (n, all) = rest.0 m in let (k, d) = (e y).0 n in (k, (d, all)),
        λ m. rest.1 ((e y).1 (m.0, m.1.0), m.1.1),
      )

  -- The ID is that of no service that matches a port.
  abbrev pub Spared : List ServicePort → LoadBalancerService → List LoadBalancerService → Type 0
  Spared ports y = All (λ s. All (λ _. y.id ≢ s.id) (keep_if (matches_port s) ports))

  pub all_deleted :
      (id : String) (ports : List ServicePort) (services : List LoadBalancerService) (w w' : W)
      → Effects V (concat_map (deletions id ports) services) w w'
      → (y : LoadBalancerService) → V w' y ↔ (V w y × Spared ports y services)
  all_deleted id ports [] w w' h y = rw h (λ m. (m, tt), λ m. m.0)
  all_deleted id ports (s ∷ services) w w' h y =
      let (w1, mine, others) =
        Effects-split V (deletions id ports s) (concat_map (deletions id ports) services) w w' h in
      let one = repeated id s.id (keep_if (matches_port s) ports) w w1 mine y in
      let rest = all_deleted id ports services w1 w' others y in
      (
        λ m. let (n, all) = rest.0 m in let (k, d) = one.0 n in (k, (d, all)),
        λ m. rest.1 (one.1 (m.0, m.1.0), m.1.1),
      )

pub matches_any-none :
    (ports : List ServicePort) (s : LoadBalancerService)
    → matches_any ports s ≡ false
    → keep_if (matches_port s) ports ≡ []
matches_any-none [] s h = refl
matches_any-none (p ∷ ports) s h = elim (Bool-cases (matches_port s p)) [
  | inl e ↦ ground arith
  | inr e ↦ let rest = matches_any-none ports s (ground arith) in rw e rest
]

-- A service that matches a port is deleted at least once, and at most once if the ports are apart.
deleted_once :
    (ports : List ServicePort) (s : LoadBalancerService)
    → Apart ports
    → length (keep_if (matches_port s) ports) ≤ 1
deleted_once [] s a = omega arith
deleted_once (p ∷ ports) s a = elim (Bool-cases (matches_port s p)) [
  | inl e ↦ rw (e, matches_any-none ports s (a.0 s e)) (omega arith)
  | inr e ↦ rw e (deleted_once ports s a.1)
]

pub spared-All : {A : Type 0} (P : Type 0) (xs : List A) → P → All (λ _. P) xs
spared-All P [] p = tt
spared-All P (x ∷ xs) p = (p, spared-All P xs p)

length-deletions :
    {A : Type 0} (sid id : String) (xs : List A)
    → length (map (λ _. delete_service id sid) xs) ≡ length xs
length-deletions sid id [] = refl
length-deletions sid id (x ∷ xs) = ap suc (length-deletions sid id xs)

deletions-bound :
    (id : String) (ports : List ServicePort) (s : LoadBalancerService)
    → Apart ports
    → length (deletions id ports s) ≤ 1
deletions-bound id ports s a =
    rw (length-deletions s.id id (keep_if (matches_port s) ports)) (deleted_once ports s a)

total-bound :
    (id : String) (ports : List ServicePort) (services : List LoadBalancerService)
    → Apart ports
    → length (concat_map (deletions id ports) services) ≤ length services
total-bound id ports [] a = omega arith
total-bound id ports (s ∷ services) a =
    let one = deletions-bound id ports s a in
    let rest = total-bound id ports services a in
    rw (length-append (deletions id ports s)) (omega arith)

-- As many deletions as services means that every service matches a port.
pub all_matched :
    (id : String) (ports : List ServicePort) (services : List LoadBalancerService)
    → Apart ports
    → length (concat_map (deletions id ports) services) ≡ length services
    → (s : LoadBalancerService) → Member s services
    → matches_any ports s ≡ true
all_matched id ports [] a h s m = absurd m
all_matched id ports (x ∷ services) a h s m =
    let split =
      sym (length-append (deletions id ports x) (concat_map (deletions id ports) services)) ∙ h in
    let rest = total-bound id ports services a in
    elim (Bool-cases (matches_any ports x)) [
      | inr e ↦
          let none_sent : length (deletions id ports x) ≡ 0 =
            ap (λ l. length (map (λ _. delete_service id x.id) l)) (matches_any-none ports x e) in
          absurd (omega arith)
      | inl e ↦ elim m [
        | inl f ↦ rw f e
        | inr n ↦
            let one = deletions-bound id ports x a in
            let same : length (concat_map (deletions id ports) services) ≡ length services =
              omega arith in
            all_matched id ports services a same s n
      ]
    ]

-- What an NLB has lost and kept: exactly the services of the ports are gone.
abbrev pub IsCleared : List ServicePort → Services → Services → Type 0
IsCleared ports S T = (y : LoadBalancerService) → T y ↔ (S y × (matches_any ports y ≡ false))

pub matches_any-some :
    (ports : List ServicePort) (s : LoadBalancerService) (P : Type 0)
    → matches_any ports s ≡ true
    → All (λ _. P) (keep_if (matches_port s) ports)
    → P
matches_any-some [] s P h all = cc
matches_any-some (p ∷ ports) s P h all = elim (Bool-cases (matches_port s p)) [
  | inl e ↦ (rw e at all).0
  | inr e ↦ matches_any-some ports s P (ground arith) (rw e at all)
]

pub matches_any-without_status :
    (ports : List ServicePort) (s : LoadBalancerService)
    → matches_any ports (without_status s) ≡ matches_any ports s
unfolding matches_port
matches_any-without_status ports s = refl

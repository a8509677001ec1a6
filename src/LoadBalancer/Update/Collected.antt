-- ===== src/LoadBalancer/Update/Collected.antt =====
-- What the first loop of `updateLoadBalancer` collects for the second.
use exoscale_cloud_controlle.Base.{
  All, ◌≡◌, refl, ap, true, false, Option, none, some, List, [], ◌∷◌, ◌==◌, string_eq,
  if◌then◌else◌, arith,
}
use exoscale_cloud_controlle.Base.Dict.{lookup, insert, lookup-insert}
use exoscale_cloud_controlle.Cloud.Exoscale.{LoadBalancerService, LoadBalancer}
use exoscale_cloud_controlle.LoadBalancer.Update.{ServiceKey, key_eq, key_of, is_desired, Kept}
use exoscale_cloud_controlle.LoadBalancer.Update.Plan.{current_for}

-- What the first loop collects.
unfoldable pub keep_all : List LoadBalancerService → List LoadBalancerService → Kept → Kept
keep_all desired [] kept = kept
keep_all desired (s ∷ services) kept =
    keep_all desired services
      (if is_desired desired (key_of s) then insert (key_of s) s kept else kept)

abbrev or_else :
    Option LoadBalancerService → Option LoadBalancerService → Option LoadBalancerService
or_else none o = o
or_else (some s) o = some s

pub lookup-keep_all :
    (desired services : List LoadBalancerService) (kept : Kept) (k : ServiceKey)
    → is_desired desired k ≡ true
    → lookup k (keep_all desired services kept) ≡ or_else (current_for k services) (lookup k kept)
unfolding keep_all
lookup-keep_all desired [] kept k h = refl
lookup-keep_all desired (s ∷ services) kept k h =
    rw
      (lookup-keep_all desired services
        (if is_desired desired (key_of s) then insert (key_of s) s kept else kept) k h)
      (ground (arith, lookup-insert k (key_of s) s kept))

pub keep_all_desired :
    (desired services : List LoadBalancerService) (kept : Kept) (x : LoadBalancerService)
    → is_desired desired (key_of x) ≡ true
    → keep_all desired (x ∷ services) kept ≡ keep_all desired services (insert (key_of x) x kept)
unfolding keep_all
keep_all_desired desired services kept x e = ap (keep_all desired services) (rw e)

pub keep_all_other :
    (desired services : List LoadBalancerService) (kept : Kept) (x : LoadBalancerService)
    → is_desired desired (key_of x) ≡ false
    → keep_all desired (x ∷ services) kept ≡ keep_all desired services kept
unfolding keep_all
keep_all_other desired services kept x e = ap (keep_all desired services) (rw e)

or_else-none : (o : Option LoadBalancerService) → or_else o none ≡ o
or_else-none none = refl
or_else-none (some s) = refl

key_refl : (k : ServiceKey) → (k == k) ≡ true
key_refl k = ground arith

-- To prove a property of every element, it may be used that a test holds of each.
pub All-desired :
    (P : LoadBalancerService → Type 0) (all desired : List LoadBalancerService)
    → ((u : LoadBalancerService) → is_desired all (key_of u) ≡ true → P u)
    → ((k : ServiceKey) → is_desired desired k ≡ true → is_desired all k ≡ true)
    → All P desired
All-desired P all [] h sub = tt
All-desired P all (u ∷ desired) h sub =
    (h u (sub (key_of u) (ground arith)), All-desired P all desired h λ k e. sub k (ground arith))

-- What the first loop has collected is what the second loop asks it for.
pub kept-All :
    (current update : LoadBalancer) (kept : Kept)
    → kept ≡ keep_all update.services current.services []
    → All (λ u. lookup (key_of u) kept ≡ current_for (key_of u) current.services) update.services
unfolding lookup
kept-All current update kept e =
    All-desired _ update.services update.services
      (λ u d.
        rw (e, lookup-keep_all update.services current.services [] (key_of u) d) (or_else-none _))
      λ k d. d

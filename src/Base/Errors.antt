-- ===== src/Base/Errors.antt =====
-- Go's errors as values, and calls that read and change a state. A call that fails keeps the changes
-- that it made before it failed.
use exoscale_cloud_controlle.Base.Equality.{if◌then◌else◌}
use Prim.Native.String.{String}
use mathlib.Core.Path.{◌≡◌, refl, ap}
use mathlib.Core.Logic.{◌⊎◌, inl, inr}
use mathlib.Core.Bool.{Bool, true, false}
use mathlib.Core.List.{List}
use mathlib.Core.Option.{Option, none, some}

-- The sentinel values that the program compares with, and the errors that are made on the way:
-- `errorf` has a format and its arguments, `wrapf` also an error under `%w`, and `hidef` an error
-- under `%s` or `%v`, which `errors.Is` does not see. `nil_dereference` is the run-time panic.
pub data Error : Type 0 where
  not_found : Error
  not_implemented : Error
  load_balancer_not_found : Error
  load_balancer_id_annotation_not_found : Error
  nil_dereference : Error
  errorf : String → List String → Error
  wrapf : String → Error → Error
  hidef : String → List String → Error → Error

-- `errors.Is(err, v3.ErrNotFound)`
abbrev pub is_not_found : Error → Bool
is_not_found not_found = true
is_not_found (wrapf f e) = is_not_found e
is_not_found _ = false

-- `errors.Is(err, errLoadBalancerNotFound)`
abbrev pub is_load_balancer_not_found : Error → Bool
is_load_balancer_not_found load_balancer_not_found = true
is_load_balancer_not_found (wrapf f e) = is_load_balancer_not_found e
is_load_balancer_not_found _ = false

-- `err == errLoadBalancerNotFound`
abbrev pub same_load_balancer_not_found : Error → Bool
same_load_balancer_not_found load_balancer_not_found = true
same_load_balancer_not_found _ = false

pub data Result (A : Type 0) : Type 0 where
  ok : A → Result A
  err : Error → Result A

pub Result-cases :
    {A : Type 0} (r : Result A) → ((a : A) × (r ≡ ok a)) ⊎ ((e : Error) × (r ≡ err e))
Result-cases (ok a) = inl (a, refl)
Result-cases (err e) = inr (e, refl)

abbrev pub Action : Type 0 → Type 0 → Type 0
Action S A = S → Result A × S

module _ {S A : Type 0} where
  abbrev pub pure : A → Action S A
  pure a s = (ok a, s)

  abbrev pub fail : Error → Action S A
  fail e s = (err e, s)

  abbrev pub lift : Result A → Action S A
  lift r s = (r, s)

  abbrev pub gets : (S → A) → Action S A
  gets f s = (ok (f s), s)

  -- The two ends of `if err != nil`.
  abbrev pub attempt : Action S A → Action S (Result A)
  attempt m s = let (r, s') = m s in (ok r, s')

  -- A pointer that is followed.
  abbrev pub deref : Option A → Action S A
  deref none = fail nil_dereference
  deref (some a) = pure a

  abbrev pub or_fail : Option A → Error → Action S A
  or_fail none e = fail e
  or_fail (some a) e = pure a

  -- `return nil, fmt.Errorf(…, err)`
  abbrev pub map_error : (Error → Error) → Action S A → Action S A
  map_error f m s = let (r, s') = m s in elim r [ ok a ↦ (ok a, s') | err e ↦ (err (f e), s') ]

-- Shut, so that a rule about a chain of calls can match on it.
infixl 5 ◌>>=◌ ◌>>◌
unfoldable pub ◌>>=◌ : {S A B : Type 0} → Action S A → (A → Action S B) → Action S B
◌>>=◌ m f s = let (r, s') = m s in elim r [ ok a ↦ f a s' | err e ↦ (err e, s') ]

bind-ok_cases :
    {S A B : Type 0} (x : Result A × S) (f : A → Action S B) (b : B) (t : S)
    → ◌≡◌ {A = Result B × S} (elim x.0 [ ok a ↦ f a x.1 | err e ↦ (err e, x.1) ]) (ok b, t)
    → (a : A) × (s' : S) × ◌≡◌ {A = Result A × S} x (ok a, s') × (f a s' ≡ (ok b, t))
bind-ok_cases (ok a, s') f b t h = (a, s', refl, h)
bind-ok_cases {S} {A} {B} (err e, s') f b t h =
    let k : ◌≡◌ {A = Result B} (err e) (ok b) = ap (λ r. r.0) h in cc

-- A chain of two calls succeeds only if both do.
pub bind-ok :
    {S A B : Type 0} (m : Action S A) (f : A → Action S B) (s : S) (b : B) (t : S)
    → (m >>= f) s ≡ (ok b, t)
    → (a : A) × (s' : S) × (m s ≡ (ok a, s')) × (f a s' ≡ (ok b, t))
unfolding ◌>>=◌
bind-ok m f s b t h = bind-ok_cases (m s) f b t h

pub bind-eq :
    {S A B : Type 0} (m : Action S A) (f : A → Action S B) (s : S) (a : A) (s' : S)
    → m s ≡ (ok a, s')
    → (m >>= f) s ≡ f a s'
unfolding ◌>>=◌
bind-eq {S} {A} {B} m f s a s' h =
    ap (λ x. elim x.0 as (λ _. Result B × S) [ ok a ↦ f a x.1 | err e ↦ (err e, x.1) ]) h

pub map_error-eq :
    {S A : Type 0} (f : Error → Error) (m : Action S A) (s : S) (a : A) (t : S)
    → m s ≡ (ok a, t)
    → map_error f m s ≡ (ok a, t)
map_error-eq {S} {A} f m s a t h =
    ap (λ x. elim x.0 as (λ _. Result A × S) [ ok a ↦ (ok a, x.1) | err e ↦ (err (f e), x.1) ]) h

abbrev pub ◌>>◌ : {S A B : Type 0} → Action S A → Action S B → Action S B
m >> k = m >>= λ _. k

abbrev pub done : {S : Type 0} → Action S (Unit {0})
done = pure tt

-- `if b { return err }`
abbrev pub fail_if : {S : Type 0} → Bool → Error → Action S (Unit {0})
fail_if b e s = (if b then err e else ok tt, s)

abbrev pub when : {S : Type 0} → Bool → Action S (Unit {0}) → Action S (Unit {0})
when b m s = if b then m s else (ok tt, s)

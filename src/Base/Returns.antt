-- ===== src/Base/Returns.antt =====
-- That a call returns a value, and how this composes along a chain of calls.
use exoscale_cloud_controlle.Base.{
  ◌≡◌, refl, ◌∙◌, ap, Bool, true, false, ok, Error, Result, Action, ◌>>=◌, bind-eq, map_error-eq,
  pure, map_error, when, lift,
}

-- The call returns a value. Shut, so that the rules below match on the call.
unfoldable pub Returns : {S A : Type 0} → Action S A → S → Type 0
Returns {S} {A} m s = (a : A) × (t : S) × (m s ≡ (ok a, t))

pub Returns-bind :
    {S A B : Type 0} (m : Action S A) (f : A → Action S B) (s : S)
    → Returns m s
    → ((a : A) (t : S) → m s ≡ (ok a, t) → Returns (f a) t)
    → Returns (m >>= f) s
unfolding Returns
Returns-bind m f s (a, t, e) next = let (b, u, d) = next a t e in (b, u, bind-eq m f s a t e ∙ d)

-- The same, where what the first call returns is known.
pub Returns-then :
    {S A B : Type 0} (m : Action S A) (f : A → Action S B) (s : S) (a : A) (t : S)
    → m s ≡ (ok a, t)
    → Returns (f a) t
    → Returns (m >>= f) s
unfolding Returns
Returns-then m f s a t e (b, u, d) = (b, u, bind-eq m f s a t e ∙ d)

pub Returns-map_error :
    {S A : Type 0} (f : Error → Error) (m : Action S A) (s : S)
    → Returns m s
    → Returns (map_error f m) s
unfolding Returns
Returns-map_error f m s (a, t, e) = (a, t, map_error-eq f m s a t e)

pub Returns-pure : {S A : Type 0} (a : A) (s : S) → Returns (pure a) s
unfolding Returns
Returns-pure a s = (a, s, refl)

pub Returns-when :
    {S : Type 0} (b : Bool) (m : Action S (Unit {0})) (s : S) → Returns m s → Returns (when b m) s
unfolding Returns
Returns-when true m s h = h
Returns-when false m s h = (tt, s, refl)

pub Returns-lift : {S A : Type 0} (r : Result A) (s : S) → (a : A) × (r ≡ ok a) → Returns (lift r) s
unfolding Returns
Returns-lift r s (a, e) = (a, s, ap (λ x. (x, s)) e)

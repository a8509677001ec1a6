-- ===== src/LoadBalancer/Keeps.antt =====
-- That a call keeps a property of the outside world, whether or not it succeeds.
use exoscale_cloud_controlle.Base.{
  ◌≡◌, Bool, true, false, string_eq, Result, ok, err, Action, Error, ◌>>=◌, map_error, when,
  attempt,
}
use exoscale_cloud_controlle.LoadBalancer.Session.{Request, Session, call, send}

-- Shut, so that the rules below match on the call.
unfoldable pub Keeps : {W A : Type 0} → (W → Type 0) → Action (Session W) A → Session W → Type 0
Keeps P m s = P s.world → P (m s).1.world

module _ {W A : Type 0} (P : W → Type 0) where
  -- A call that does not touch the outside world.
  pub Keeps-inner :
      (m : Action (Session W) A) (s : Session W) → (m s).1.world ≡ s.world → Keeps P m s
  unfolding Keeps
  Keeps-inner m s e h = rw e h

  pub Keeps-call :
      (m : Action W A) (s : Session W) → (P s.world → P (m s.world).1) → Keeps P (call m) s
  unfolding Keeps
  Keeps-call m s h = h

  pub Keeps-send :
      (q : Request) (m : Action W A) (s : Session W)
      → (P s.world → P (m s.world).1)
      → Keeps P (send q m) s
  unfolding Keeps
  Keeps-send q m s h = h

  pub Keeps-attempt :
      (m : Action (Session W) A) (s : Session W) → Keeps P m s → Keeps P (attempt m) s
  unfolding Keeps
  Keeps-attempt m s h = h

  pub Keeps-map_error :
      (f : Error → Error) (m : Action (Session W) A) (s : Session W)
      → Keeps P m s
      → Keeps P (map_error f m) s
  unfolding Keeps
  Keeps-map_error f m s h p = by_result (m s) (h p)
    where
      by_result :
          (x : Result A × Session W)
          → P x.1.world
          → P
              (elim x.0 as (λ _. Result A × Session W) [
                | ok a ↦ (ok a, x.1)
                | err e ↦ (err (f e), x.1)
              ]).1.world
      by_result (ok a, t) k = k
      by_result (err e, t) k = k

module _ {W A B : Type 0} (P : W → Type 0) where
  pub Keeps-bind :
      (m : Action (Session W) A) (f : A → Action (Session W) B) (s : Session W)
      → Keeps P m s
      → ((a : A) (t : Session W) → Keeps P (f a) t)
      → Keeps P (m >>= f) s
  unfolding Keeps ◌>>=◌
  Keeps-bind m f s h next p = by_result (m s) (h p)
    where
      by_result :
          (x : Result A × Session W)
          → P x.1.world
          → P
              (elim x.0 as (λ _. Result B × Session W) [
                | ok a ↦ f a x.1
                | err e ↦ (err e, x.1)
              ]).1.world
      by_result (ok a, t) k = next a t k
      by_result (err e, t) k = k

module _ {W : Type 0} (P : W → Type 0) where
  pub Keeps-when :
      (b : Bool) (m : Action (Session W) (Unit {0})) (s : Session W)
      → Keeps P m s
      → Keeps P (when b m) s
  unfolding Keeps
  Keeps-when true m s h = h
  Keeps-when false m s h = λ p. p

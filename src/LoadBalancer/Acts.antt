-- ===== src/LoadBalancer/Acts.antt =====
-- What a call that succeeds has done to a view of the world, by the requests that it sent, and how
-- this composes along a chain of calls.
use exoscale_cloud_controlle.Base.{
  ◌≡◌, refl, Bool, true, false, List, [], ◌∷◌, ◌++◌, Result, ok, err, Action, Error, ◌>>=◌, Option,
  none, some, pure, deref, map_error, when, fail_if, if◌then◌else◌,
}
use exoscale_cloud_controlle.LoadBalancer.Done.{Done, Done-append}
use exoscale_cloud_controlle.LoadBalancer.Session.{Request, Session, call, send}

module _ {W : Type 0} {X : Type 1} (E : Request → X → X → Type 0) (V : W → X) where
  abbrev pub Did : {A : Type 0} → (A → Type 0) → List Request → W → Result A × Session W → Type 1
  Did P qs w (ok a, t) = P a × Done E V qs w t.world
  Did P qs w (err e, t) = Unit {1}

  -- If the call succeeds, its value has the property, and the requests have had their effect. Shut, so
  -- that the rules below match on the call.
  unfoldable pub Acts :
      {A : Type 0} → (A → Type 0) → List Request → Action (Session W) A → Session W → Type 1
  Acts P qs m s = Did P qs s.world (m s)

module _ {W A : Type 0} {X : Type 1} (E : Request → X → X → Type 0) (V : W → X) where
  pub Acts-pure : (P : A → Type 0) (a : A) (s : Session W) → P a → Acts E V P [] (pure a) s
  unfolding Acts
  Acts-pure P a s h = (h, refl)

  pub Acts-deref : (o : Option A) (s : Session W) → Acts E V (λ a. o ≡ some a) [] (deref o) s
  unfolding Acts
  Acts-deref none s = tt
  Acts-deref (some a) s = (refl, refl)

  -- A call that changes nothing in view.
  pub Acts-call :
      (m : Action W A) (s : Session W)
      → ((a : A) (w : W) → m s.world ≡ (ok a, w) → V w ≡ V s.world)
      → Acts E V (λ _. Unit {0}) [] (call m) s
  unfolding Acts
  Acts-call m s h = by_result (m s.world) h
    where
      by_result :
          (x : Result A × W)
          → ((a : A) (w : W) → x ≡ (ok a, w) → V w ≡ V s.world)
          → Did E V (λ _. Unit {0}) [] s.world (x.0, record s { world = x.1 })
      by_result (ok a, w) h = (tt, h a w refl)
      by_result (err e, w) h = tt

  -- A call that has the effect of its request.
  pub Acts-send :
      (q : Request) (m : Action W A) (s : Session W)
      → ((a : A) (w : W) → m s.world ≡ (ok a, w) → E q (V s.world) (V w))
      → Acts E V (λ _. Unit {0}) (q ∷ []) (send q m) s
  unfolding Acts
  Acts-send q m s h = by_result (m s.world) h
    where
      by_result :
          (x : Result A × W)
          → ((a : A) (w : W) → x ≡ (ok a, w) → E q (V s.world) (V w))
          → Did E V
              (λ _. Unit {0})
              (q ∷ [])
              s.world
              (x.0, record s { world = x.1; requests = s.requests ++ (q ∷ []) })
      by_result (ok a, w) h = (tt, (w, h a w refl, refl))
      by_result (err e, w) h = tt

  pub Acts-map_error :
      (P : A → Type 0) (qs : List Request) (f : Error → Error) (m : Action (Session W) A)
      (s : Session W)
      → Acts E V P qs m s
      → Acts E V P qs (map_error f m) s
  unfolding Acts
  Acts-map_error P qs f m s h = by_result (m s) h
    where
      by_result :
          (x : Result A × Session W)
          → Did E V P qs s.world x
          → Did E V P qs s.world (elim x.0 [ ok a ↦ (ok a, x.1) | err e ↦ (err (f e), x.1) ])
      by_result (ok a, t) h = h
      by_result (err e, t) h = tt

module _ {W A B : Type 0} {X : Type 1} (E : Request → X → X → Type 0) (V : W → X) where
  Did-bind :
      (P : A → Type 0) (Q : B → Type 0) (p q : List Request) (w : W) (x : Result A × Session W)
      (f : A → Action (Session W) B)
      → Did E V P p w x
      → ((a : A) (t : Session W) → P a → Did E V Q q t.world (f a t))
      → Did E V Q (p ++ q) w (elim x.0 [ ok a ↦ f a x.1 | err e ↦ (err e, x.1) ])
  Did-bind P Q p q w (ok a, t) f (h, e) next = after (f a t) (next a t h)
    where
      after : (y : Result B × Session W) → Did E V Q q t.world y → Did E V Q (p ++ q) w y
      after (ok b, u) (k, d) = (k, Done-append E V p q w t.world u.world e d)
      after (err x, u) k = tt
  Did-bind P Q p q w (err e, t) f h next = tt

  pub Acts-bind :
      (P : A → Type 0) (Q : B → Type 0) (p q : List Request) (s : Session W)
      (m : Action (Session W) A) (f : A → Action (Session W) B)
      → Acts E V P p m s
      → ((a : A) (t : Session W) → P a → Acts E V Q q (f a) t)
      → Acts E V Q (p ++ q) (m >>= f) s
  unfolding Acts ◌>>=◌
  Acts-bind P Q p q s m f h next = Did-bind P Q p q s.world (m s) f h next

module _ {W : Type 0} {X : Type 1} (E : Request → X → X → Type 0) (V : W → X) where
  pub Acts-fail_if :
      (b : Bool) (e : Error) (s : Session W) → Acts E V (λ _. Unit {0}) [] (fail_if b e) s
  unfolding Acts
  Acts-fail_if true e s = tt
  Acts-fail_if false e s = (tt, refl)

  pub Acts-when :
      (b : Bool) (qs : List Request) (m : Action (Session W) (Unit {0})) (s : Session W)
      → Acts E V (λ _. Unit {0}) qs m s
      → Acts E V (λ _. Unit {0}) (if b then qs else []) (when b m) s
  unfolding Acts
  Acts-when true qs m s h = h
  Acts-when false qs m s h = (tt, refl)

  -- What a call that succeeded has done.
  pub Acts-ok :
      {A : Type 0} (P : A → Type 0) (qs : List Request) (m : Action (Session W) A) (s t : Session W)
      (a : A)
      → Acts E V P qs m s
      → m s ≡ (ok a, t)
      → Done E V qs s.world t.world
  unfolding Acts
  Acts-ok P qs m s t a h e = (rw e at h).1

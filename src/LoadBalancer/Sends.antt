-- ===== src/LoadBalancer/Sends.antt =====
-- What a call has sent: all of a list of requests if it succeeds, and the first of them if it fails;
-- and how this composes along a chain of calls.
use mathlib.Core.List.{append_assoc, append-nil}
use exoscale_cloud_controlle.Base.{
  ◌≡◌, refl, ◌∙◌, Bool, true, false, List, [], ◌∷◌, ◌++◌, Result, ok, err, Action, Error, ◌>>=◌,
  Option, none, some, pure, fail, deref, map_error, when, fail_if, if◌then◌else◌,
}
use exoscale_cloud_controlle.LoadBalancer.Session.{Request, Session, call, send}

-- How a call that began at `s` ended. If it succeeded, it sent exactly the plan, in its order, and its
-- value has the property; if it failed, it sent a first part of the plan. Either way it left the
-- Service object alone.
abbrev pub Ends :
    {W A : Type 0} → (A → Type 0) → List Request → Session W → Result A × Session W → Type 0
Ends P plan s (ok a, s') = P a × (s'.requests ≡ s.requests ++ plan) × (s'.service ≡ s.service)
Ends P plan s (err e, s') =
    (sent : List Request) × (rest : List Request) × (plan ≡ sent ++ rest)
    × (s'.requests ≡ s.requests ++ sent)
    × (s'.service ≡ s.service)

-- Shut, so that the rules below match on the call.
unfoldable pub Sends :
    {W A : Type 0} → (A → Type 0) → List Request → Action (Session W) A → Session W → Type 0
Sends P plan m s = Ends P plan s (m s)

abbrev pub Any : {A : Type 0} → A → Type 0
Any _ = Unit {0}

module _ {W A : Type 0} where
  pub Sends-pure : (P : A → Type 0) (a : A) (s : Session W) → P a → Sends P [] (pure a) s
  unfolding Sends
  Sends-pure P a s h = (h, rw append-nil, refl)

  pub Sends-fail :
      (P : A → Type 0) (e : Error) (plan : List Request) (s : Session W) → Sends P plan (fail e) s
  unfolding Sends
  Sends-fail P e plan s = ([], plan, refl, rw append-nil, refl)

  pub Sends-deref : (o : Option A) (s : Session W) → Sends (λ a. o ≡ some a) [] (deref o) s
  unfolding Sends
  Sends-deref none s = ([], [], refl, rw append-nil, refl)
  Sends-deref (some a) s = (refl, rw append-nil, refl)

  Ends-call : (s : Session W) (x : Result A × W) → Ends Any [] s (x.0, record s { world = x.1 })
  Ends-call s (ok a, w) = (tt, rw append-nil, refl)
  Ends-call s (err e, w) = ([], [], refl, rw append-nil, refl)

  pub Sends-call : (m : Action W A) (s : Session W) → Sends Any [] (call m) s
  unfolding Sends
  Sends-call m s = Ends-call s (m s.world)

  Ends-send :
      (q : Request) (s : Session W) (x : Result A × W)
      → Ends Any (q ∷ []) s (x.0, record s { world = x.1; requests = s.requests ++ (q ∷ []) })
  Ends-send q s (ok a, w) = (tt, refl, refl)
  Ends-send q s (err e, w) = (q ∷ [], [], refl, refl, refl)

  pub Sends-send : (q : Request) (m : Action W A) (s : Session W) → Sends Any (q ∷ []) (send q m) s
  unfolding Sends
  Sends-send q m s = Ends-send q s (m s.world)

  Ends-map_error :
      (P : A → Type 0) (p : List Request) (s : Session W) (f : Error → Error)
      (x : Result A × Session W)
      → Ends P p s x
      → Ends P p s (elim x.0 [ ok a ↦ (ok a, x.1) | err e ↦ (err (f e), x.1) ])
  Ends-map_error P p s f (ok a, t) h = h
  Ends-map_error P p s f (err e, t) h = h

  -- An error that is wrapped on its way up has sent the same.
  pub Sends-map_error :
      (P : A → Type 0) (p : List Request) (f : Error → Error) (m : Action (Session W) A)
      (s : Session W)
      → Sends P p m s
      → Sends P p (map_error f m) s
  unfolding Sends
  Sends-map_error P p f m s h = Ends-map_error P p s f (m s) h

  Ends-shift :
      (P : A → Type 0) (p q : List Request) (s s' : Session W) (r : Result A × Session W)
      → s'.requests ≡ s.requests ++ p
      → s'.service ≡ s.service
      → Ends P q s' r
      → Ends P (p ++ q) s r
  Ends-shift P p q s s' (ok a, t) e f (h, g, k) = (h, rw (g, e, append_assoc), k ∙ f)
  Ends-shift P p q s s' (err x, t) e f (sent, rest, d, g, k) =
      (p ++ sent, rest, rw (d, append_assoc), rw (g, e, append_assoc), k ∙ f)

module _ {W A B : Type 0} where
  Ends-bind :
      (P : A → Type 0) (Q : B → Type 0) (p q : List Request) (s : Session W)
      (x : Result A × Session W) (f : A → Action (Session W) B)
      → Ends P p s x
      → ((a : A) (t : Session W) → P a → Ends Q q t (f a t))
      → Ends Q (p ++ q) s (elim x.0 [ ok a ↦ f a x.1 | err e ↦ (err e, x.1) ])
  Ends-bind P Q p q s (ok a, t) f (h, e, k) next = Ends-shift Q p q s t (f a t) e k (next a t h)
  Ends-bind P Q p q s (err x, t) f (sent, rest, d, g, k) next =
      (sent, rest ++ q, rw (d, append_assoc), g, k)

  -- A chain of two calls sends the one plan and then the other.
  pub Sends-bind :
      (P : A → Type 0) (Q : B → Type 0) (p q : List Request) (s : Session W)
      (m : Action (Session W) A) (f : A → Action (Session W) B)
      → Sends P p m s
      → ((a : A) (t : Session W) → P a → Sends Q q (f a) t)
      → Sends Q (p ++ q) (m >>= f) s
  unfolding Sends ◌>>=◌
  Sends-bind P Q p q s m f h next = Ends-bind P Q p q s (m s) f h next

module _ {W : Type 0} where
  pub Sends-fail_if : (b : Bool) (e : Error) (s : Session W) → Sends Any [] (fail_if b e) s
  unfolding Sends
  Sends-fail_if true e s = ([], [], refl, rw append-nil, refl)
  Sends-fail_if false e s = (tt, rw append-nil, refl)

  pub Sends-when :
      (b : Bool) (p : List Request) (m : Action (Session W) (Unit {0})) (s : Session W)
      → Sends Any p m s
      → Sends Any (if b then p else []) (when b m) s
  unfolding Sends
  Sends-when true p m s h = h
  Sends-when false p m s h = (tt, rw append-nil, refl)

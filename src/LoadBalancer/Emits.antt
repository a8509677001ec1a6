-- ===== src/LoadBalancer/Emits.antt =====
-- What every request that a call sends satisfies, whether or not it succeeds, for calls that may change
-- the Service's annotations but neither its ports nor whether it is external.
use mathlib.Core.List.{append_assoc, append-nil}
use exoscale_cloud_controlle.Base.{
  ◌≡◌, refl, ◌∙◌, Bool, true, false, List, [], ◌∷◌, ◌++◌, Result, ok, err, Action, Error, ◌>>=◌,
  All, All-append, map_error, when, attempt, gets,
}
use exoscale_cloud_controlle.LoadBalancer.Annotations.{is_external}
use exoscale_cloud_controlle.LoadBalancer.Session.{Request, Session, send}

-- From `s` to `t` only requests with the property were sent, and the Service kept its ports and stayed
-- external or not.
abbrev pub Adds : {W : Type 0} → (Request → Type 0) → Session W → Session W → Type 0
Adds P s t =
    (sent : List Request) × (t.requests ≡ s.requests ++ sent)
    × All P sent
    × (is_external t.service ≡ is_external s.service)
    × (t.service.ports ≡ s.service.ports)

-- Shut, so that the rules below match on the call.
unfoldable pub Emits :
    {W A : Type 0} → (Request → Type 0) → Action (Session W) A → Session W → Type 0
Emits P m s = Adds P s (m s).1

module _ {W : Type 0} (P : Request → Type 0) where
  pub Adds-refl : (s : Session W) → Adds P s s
  Adds-refl s = ([], rw append-nil, tt, refl, refl)

  pub Adds-trans : (s t u : Session W) → Adds P s t → Adds P t u → Adds P s u
  Adds-trans s t u (a, e, h, k, m) (b, f, i, l, n) =
      (a ++ b, rw (f, e, append_assoc), All-append P a b h i, l ∙ k, n ∙ m)

module _ {W A : Type 0} (P : Request → Type 0) where
  -- A call that neither sends anything nor changes the Service.
  pub Emits-silent :
      (m : Action (Session W) A) (s : Session W)
      → (m s).1.requests ≡ s.requests
      → (m s).1.service ≡ s.service
      → Emits P m s
  unfolding Emits
  Emits-silent m s e f = ([], rw (e, append-nil), tt, rw f, rw f)

  pub Emits-send : (q : Request) (m : Action W A) (s : Session W) → P q → Emits P (send q m) s
  unfolding Emits
  Emits-send q m s h = (q ∷ [], refl, (h, tt), refl, refl)

  pub Emits-attempt :
      (m : Action (Session W) A) (s : Session W) → Emits P m s → Emits P (attempt m) s
  unfolding Emits
  Emits-attempt m s h = h

  Adds-map_error :
      (s : Session W) (f : Error → Error) (x : Result A × Session W)
      → Adds P s x.1
      → Adds P s
          (elim x.0 as (λ _. Result A × Session W) [
            | ok a ↦ (ok a, x.1)
            | err e ↦ (err (f e), x.1)
          ]).1
  Adds-map_error s f (ok a, t) h = h
  Adds-map_error s f (err e, t) h = h

  pub Emits-map_error :
      (f : Error → Error) (m : Action (Session W) A) (s : Session W)
      → Emits P m s
      → Emits P (map_error f m) s
  unfolding Emits
  Emits-map_error f m s h = Adds-map_error s f (m s) h

module _ {W A B : Type 0} (P : Request → Type 0) where
  Adds-bind :
      (s : Session W) (x : Result A × Session W) (f : A → Action (Session W) B)
      → Adds P s x.1
      → ((a : A) (t : Session W) → Adds P s t → Adds P t (f a t).1)
      → Adds P s
          (elim x.0 as (λ _. Result B × Session W) [ ok a ↦ f a x.1 | err e ↦ (err e, x.1) ]).1
  Adds-bind s (ok a, t) f h next = Adds-trans P s t (f a t).1 h (next a t h)
  Adds-bind s (err e, t) f h next = h

  -- What follows a call may use that the Service is external where it was so before.
  pub Emits-bind :
      (m : Action (Session W) A) (f : A → Action (Session W) B) (s : Session W)
      → Emits P m s
      → ((a : A) (t : Session W) → is_external t.service ≡ is_external s.service → Emits P (f a) t)
      → Emits P (m >>= f) s
  unfolding Emits ◌>>=◌
  Emits-bind m f s h next = Adds-bind s (m s) f h λ a t d. next a t d.3

module _ {W A B : Type 0} (P : Request → Type 0) where
  -- What follows a look at the session knows what was seen.
  pub Emits-gets :
      (g : Session W → A) (f : A → Action (Session W) B) (s : Session W)
      → Emits P (f (g s)) s
      → Emits P (gets g >>= f) s
  unfolding Emits ◌>>=◌
  Emits-gets g f s h = h

module _ {W : Type 0} (P : Request → Type 0) where
  pub Emits-when :
      (b : Bool) (m : Action (Session W) (Unit {0})) (s : Session W)
      → Emits P m s
      → Emits P (when b m) s
  unfolding Emits
  Emits-when true m s h = h
  Emits-when false m s h = Adds-refl P s

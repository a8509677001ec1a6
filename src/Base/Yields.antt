-- ===== src/Base/Yields.antt =====
-- What holds of the value and of the state that a call leaves if it succeeds, and how this composes
-- along a chain of calls.
use exoscale_cloud_controlle.Base.{
  ◌≡◌, ap, subst, Result, ok, err, Action, Error, ◌>>=◌, bind-ok, pure, fail, map_error, attempt,
  gets,
}

-- Shut, so that the rules below match on the call.
unfoldable pub Yields {ℓ} : {S A : Type 0} → (A → S → Type ℓ) → Action S A → S → Type ℓ
Yields {S} {A} Q m s = (a : A) (t : S) → m s ≡ (ok a, t) → Q a t

module _ {ℓ} {S A : Type 0} (Q : A → S → Type ℓ) where
  pub Yields-pure : (a : A) (s : S) → Q a s → Yields Q (pure a) s
  unfolding Yields
  Yields-pure a s q b t h =
      let e : ◌≡◌ {A = Result A} (ok a) (ok b) = ap (λ r. r.0) h in
      let f : a ≡ b = cc in subst (λ x. x) (λ i. Q (f i) (h i).1) q

  pub Yields-gets : (g : S → A) (s : S) → Q (g s) s → Yields Q (gets g) s
  unfolding Yields
  Yields-gets g s q = Yields-pure (g s) s q

  pub Yields-fail : (e : Error) (s : S) → Yields Q (fail e) s
  unfolding Yields
  Yields-fail e s b t h = let f : ◌≡◌ {A = Result A} (err e) (ok b) = ap (λ r. r.0) h in cc

  by_result :
      (f : Error → Error) (x : Result A × S) (a : A) (t : S)
      → ◌≡◌ {A = Result A × S}
          (elim x.0 [ ok b ↦ (ok b, x.1) | err e ↦ (err (f e), x.1) ])
          (ok a, t)
      → ◌≡◌ {A = Result A × S} x (ok a, t)
  by_result f (ok b, u) a t h = h
  by_result f (err e, u) a t h =
      let k : ◌≡◌ {A = Result A} (err (f e)) (ok a) = ap (λ r. r.0) h in cc

  pub Yields-map_error :
      (f : Error → Error) (m : Action S A) (s : S) → Yields Q m s → Yields Q (map_error f m) s
  unfolding Yields
  Yields-map_error f m s q a t h = q a t (by_result f (m s) a t h)

module _ {ℓ} {S A : Type 0} (Q : Result A → S → Type ℓ) where
  pub Yields-attempt :
      (m : Action S A) (s : S)
      → ((r : Result A) (t : S) → m s ≡ (r, t) → Q r t)
      → Yields Q (attempt m) s
  unfolding Yields
  Yields-attempt m s q r t h =
      let e : ◌≡◌ {A = Result (Result A)} (ok (m s).0) (ok r) = ap (λ x. x.0) h in
      let f : (m s).0 ≡ r = cc in q r t (λ i. (f i, (h i).1))

module _ {ℓ κ} {S A B : Type 0} (P : A → S → Type ℓ) (Q : B → S → Type κ) where
  pub Yields-bind :
      (m : Action S A) (f : A → Action S B) (s : S)
      → Yields P m s
      → ((a : A) (t : S) → P a t → Yields Q (f a) t)
      → Yields Q (m >>= f) s
  unfolding Yields
  Yields-bind m f s p next b u h =
      let (a, t, e, k) = bind-ok m f s b u h in next a t (p a t e) b u k

pub Yields-weaken {ℓ κ} :
    {S A : Type 0} (P : A → S → Type ℓ) (Q : A → S → Type κ) (m : Action S A) (s : S)
    → ((a : A) (t : S) → P a t → Q a t)
    → Yields P m s
    → Yields Q m s
unfolding Yields
Yields-weaken P Q m s sub p a t h = sub a t (p a t h)

-- It is known of a call's end that the call has it.
pub Yields-run : {S A : Type 0} (m : Action S A) (s : S) → Yields (λ a t. m s ≡ (ok a, t)) m s
unfolding Yields
Yields-run m s a t h = h

pub Yields-ok {ℓ} :
    {S A : Type 0} (Q : A → S → Type ℓ) (m : Action S A) (s : S) {a : A} {t : S}
    → Yields Q m s
    → m s ≡ (ok a, t)
    → Q a t
unfolding Yields
Yields-ok Q m s {a} {t} q h = q a t h

pub Yields-both {ℓ κ} :
    {S A : Type 0} (P : A → S → Type ℓ) (Q : A → S → Type κ) (m : Action S A) (s : S)
    → Yields P m s
    → Yields Q m s
    → Yields (λ a t. P a t × Q a t) m s
unfolding Yields
Yields-both P Q m s p q a t h = (p a t h, q a t h)

-- ===== src/LoadBalancer/Runs.antt =====
-- What a call has sent and what it has done to a view of the world, in one: the rules of Sends and of
-- Acts together, so that a function of the program is gone through once.
use exoscale_cloud_controlle.Base.{
  String, ◌≡◌, refl, Bool, List, [], ◌∷◌, ◌++◌, ok, Action, Error, ◌>>=◌, Option, some, pure, deref,
  map_error, when, fail_if, if◌then◌else◌,
}
use exoscale_cloud_controlle.Cloud.Exoscale.{
  Client, LoadBalancer, LoadBalancerRequest, ServiceRequest, Operation,
}
use exoscale_cloud_controlle.LoadBalancer.Acts.{
  Acts, Acts-pure, Acts-deref, Acts-call, Acts-send, Acts-map_error, Acts-bind, Acts-fail_if,
  Acts-when, Acts-ok,
}
use exoscale_cloud_controlle.LoadBalancer.Done.{Done}
use exoscale_cloud_controlle.LoadBalancer.Sends.{
  Sends, Any, Sends-pure, Sends-deref, Sends-call, Sends-send, Sends-map_error, Sends-bind,
  Sends-fail_if, Sends-when,
}
use exoscale_cloud_controlle.LoadBalancer.Session.{
  Request, Session, call, send, update_nlb, delete_nlb, add_service, update_service, delete_service,
}

-- The calls of the API for an NLB do to the view what their requests say; it is called by the one ID
-- for its services and by the other for changes of itself and of a service in place.
pub record Obeys {W : Type 0} {X : Type 1} (E : Request → X → X → Type 0) (V : W → X)
    (client : Client W) (a b : String) : Type 1 where
  pub fetched :
      (nlb : LoadBalancer) (w w' : W) → client.get_load_balancer a w ≡ (ok nlb, w') → V w' ≡ V w
  pub added :
      (req : ServiceRequest) (op : Operation) (w w' : W)
      → client.add_service_to_load_balancer a req w ≡ (ok op, w')
      → E (add_service a req) (V w) (V w')
  pub deleted :
      (sid : String) (op : Operation) (w w' : W)
      → client.delete_load_balancer_service a sid w ≡ (ok op, w')
      → E (delete_service a sid) (V w) (V w')
  pub removed :
      (op : Operation) (w w' : W)
      → client.delete_load_balancer a w ≡ (ok op, w')
      → E (delete_nlb a) (V w) (V w')
  pub changed :
      (sid : String) (req : ServiceRequest) (op : Operation) (w w' : W)
      → client.update_load_balancer_service b sid req w ≡ (ok op, w')
      → E (update_service b sid req) (V w) (V w')
  pub renamed :
      (req : LoadBalancerRequest) (op : Operation) (w w' : W)
      → client.update_load_balancer b req w ≡ (ok op, w')
      → E (update_nlb b req) (V w) (V w')

-- Every API does so for a view that shows nothing.
abbrev pub NoEffect : Request → Unit {1} → Unit {1} → Type 0
NoEffect q x y = Unit {0}

abbrev pub no_view : {W : Type 0} → W → Unit {1}
no_view w = tt

pub blind-Obeys :
    {W : Type 0} (client : Client W) (a b : String) → Obeys NoEffect no_view client a b
blind-Obeys client a b = record {
  fetched = λ nlb w w' h. refl;
  added = λ req op w w' h. tt;
  deleted = λ sid op w w' h. tt;
  removed = λ op w w' h. tt;
  changed = λ sid req op w w' h. tt;
  renamed = λ req op w w' h. tt;
}

module _ {W : Type 0} {X : Type 1} (E : Request → X → X → Type 0) (V : W → X) where
  -- Shut, so that the rules below match on the call.
  unfoldable pub Runs :
      {A : Type 0} → (A → Type 0) → List Request → Action (Session W) A → Session W → Type 1
  Runs P qs m s = Sends P qs m s × Acts E V P qs m s

module _ {W A : Type 0} {X : Type 1} (E : Request → X → X → Type 0) (V : W → X) where
  pub Runs-Sends :
      (P : A → Type 0) (qs : List Request) (m : Action (Session W) A) (s : Session W)
      → Runs E V P qs m s
      → Sends P qs m s
  unfolding Runs
  Runs-Sends P qs m s h = h.0

  pub Runs-ok :
      (P : A → Type 0) (qs : List Request) (m : Action (Session W) A) (s t : Session W) (a : A)
      → Runs E V P qs m s
      → m s ≡ (ok a, t)
      → Done E V qs s.world t.world
  unfolding Runs
  Runs-ok P qs m s t a h e = Acts-ok E V P qs m s t a h.1 e

  pub Runs-pure : (P : A → Type 0) (a : A) (s : Session W) → P a → Runs E V P [] (pure a) s
  unfolding Runs
  Runs-pure P a s h = (Sends-pure P a s h, Acts-pure E V P a s h)

  pub Runs-deref : (o : Option A) (s : Session W) → Runs E V (λ a. o ≡ some a) [] (deref o) s
  unfolding Runs
  Runs-deref o s = (Sends-deref o s, Acts-deref E V o s)

  pub Runs-call :
      (m : Action W A) (s : Session W)
      → ((a : A) (w : W) → m s.world ≡ (ok a, w) → V w ≡ V s.world)
      → Runs E V Any [] (call m) s
  unfolding Runs
  Runs-call m s h = (Sends-call m s, Acts-call E V m s h)

  pub Runs-send :
      (q : Request) (m : Action W A) (s : Session W)
      → ((a : A) (w : W) → m s.world ≡ (ok a, w) → E q (V s.world) (V w))
      → Runs E V Any (q ∷ []) (send q m) s
  unfolding Runs
  Runs-send q m s h = (Sends-send q m s, Acts-send E V q m s h)

  pub Runs-map_error :
      (P : A → Type 0) (qs : List Request) (f : Error → Error) (m : Action (Session W) A)
      (s : Session W)
      → Runs E V P qs m s
      → Runs E V P qs (map_error f m) s
  unfolding Runs
  Runs-map_error P qs f m s h = (Sends-map_error P qs f m s h.0, Acts-map_error E V P qs f m s h.1)

module _ {W A B : Type 0} {X : Type 1} (E : Request → X → X → Type 0) (V : W → X) where
  pub Runs-bind :
      (P : A → Type 0) (Q : B → Type 0) (p q : List Request) (s : Session W)
      (m : Action (Session W) A) (f : A → Action (Session W) B)
      → Runs E V P p m s
      → ((a : A) (t : Session W) → P a → Runs E V Q q (f a) t)
      → Runs E V Q (p ++ q) (m >>= f) s
  unfolding Runs
  Runs-bind P Q p q s m f h next = (
    Sends-bind P Q p q s m f h.0 (λ a t k. (next a t k).0),
    Acts-bind E V P Q p q s m f h.1 (λ a t k. (next a t k).1),
  )

module _ {W : Type 0} {X : Type 1} (E : Request → X → X → Type 0) (V : W → X) where
  pub Runs-fail_if : (b : Bool) (e : Error) (s : Session W) → Runs E V Any [] (fail_if b e) s
  unfolding Runs
  Runs-fail_if b e s = (Sends-fail_if b e s, Acts-fail_if E V b e s)

  pub Runs-when :
      (b : Bool) (qs : List Request) (m : Action (Session W) (Unit {0})) (s : Session W)
      → Runs E V Any qs m s
      → Runs E V Any (if b then qs else []) (when b m) s
  unfolding Runs
  Runs-when b qs m s h = (Sends-when b qs m s h.0, Acts-when E V b qs m s h.1)

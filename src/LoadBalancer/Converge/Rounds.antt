-- ===== src/LoadBalancer/Converge/Rounds.antt =====
-- The effect of the requests for one wanted service, whichever they are.
use exoscale_cloud_controlle.Base.{
  String, ◌≡◌, refl, sym, ◌∙◌, ap, subst, ◌≢◌, ◌↔◌, ◌⊎◌, inl, inr, Option, none, some, ◌==◌,
  string_eq, int_eq, ℤ, pos, arith, Bool-cases,
}
use exoscale_cloud_controlle.Cloud.Exoscale.{Healthcheck, LoadBalancerService, ServiceRequest}
use exoscale_cloud_controlle.LoadBalancer.Build.{service_eq}
use exoscale_cloud_controlle.LoadBalancer.Lawful.{
  Services, Effect, updated, over, over_number, over_healthcheck,
}
use exoscale_cloud_controlle.LoadBalancer.Session.{add_service, update_service, delete_service}
use exoscale_cloud_controlle.LoadBalancer.Update.{ServiceKey, key_eq, key_of, pool_id}

-- No two services have one ID, or one key.
pub record IsOrderly (S : Services) : Type 0 where
  pub ids : (x y : LoadBalancerService) → S x → S y → x.id ≡ y.id → x ≡ y
  pub keys : (x y : LoadBalancerService) → S x → S y → key_of x ≡ key_of y → x ≡ y

-- The service is what was asked for. What was asked for empty an update cannot set.
pub record IsSettled (x u : LoadBalancerService) : Type 0 where
  pub key : key_of x ≡ key_of u
  pub name : u.name ≢ "" → x.name ≡ u.name
  pub description : u.description ≢ "" → x.description ≡ u.description
  pub target_port : u.target_port ≢ pos 0 → x.target_port ≡ u.target_port
  pub strategy : u.strategy ≢ "" → x.strategy ≡ u.strategy
  pub healthcheck : u.healthcheck ≢ none → x.healthcheck ≡ u.healthcheck
  pub pool : pool_id x.instance_pool ≡ pool_id u.instance_pool

-- `x` takes the place of whatever has the key, and the rest stays.
pub record Replaces (k : ServiceKey) (x : LoadBalancerService) (S T : Services) : Type 0 where
  pub key : key_of x ≡ k
  pub fresh : (y : LoadBalancerService) → S y → key_of y ≢ k → y.id ≢ x.id
  pub all : (y : LoadBalancerService) → T y ↔ ((S y × (key_of y ≢ k)) ⊎ (y ≡ x))

pub Replaces-IsOrderly :
    {k : ServiceKey} {x : LoadBalancerService} {S T : Services}
    → Replaces k x S T
    → IsOrderly S
    → IsOrderly T
Replaces-IsOrderly {k} {x} {S} {T} r o = record { ids = ids; keys = keys }
  where
    ids : (y z : LoadBalancerService) → T y → T z → y.id ≡ z.id → y ≡ z
    ids y z ty tz e = elim ((r.all y).0 ty) [
      | inl (sy, ny) ↦ elim ((r.all z).0 tz) [
        | inl (sz, nz) ↦ o.ids y z sy sz e
        | inr ez ↦ absurd (r.fresh y sy ny (e ∙ ap (λ s. s.id) ez))
      ]
      | inr ey ↦ elim ((r.all z).0 tz) [
        | inl (sz, nz) ↦ absurd (r.fresh z sz nz (sym e ∙ ap (λ s. s.id) ey))
        | inr ez ↦ ey ∙ sym ez
      ]
    ]

    keys : (y z : LoadBalancerService) → T y → T z → key_of y ≡ key_of z → y ≡ z
    keys y z ty tz e = elim ((r.all y).0 ty) [
      | inl (sy, ny) ↦ elim ((r.all z).0 tz) [
        | inl (sz, nz) ↦ o.keys y z sy sz e
        | inr ez ↦ absurd (ny (e ∙ ap key_of ez ∙ r.key))
      ]
      | inr ey ↦ elim ((r.all z).0 tz) [
        | inl (sz, nz) ↦ absurd (nz (sym e ∙ ap key_of ey ∙ r.key))
        | inr ez ↦ ey ∙ sym ez
      ]
    ]

-- A service that was added where none had the key.
pub added-Replaces :
    (id : String) {req : ServiceRequest} {k : ServiceKey} {S T : Services}
    → ((y : LoadBalancerService) → S y → key_of y ≢ k)
    → (record { port = req.port; protocol = req.protocol } ≡ k)
    → (e : Effect (add_service id req) S T) → Replaces k e.0 S T
added-Replaces id {req} {k} none_had key (x, added, fresh, all) = record {
  key = (λ i. record { port = added.port i; protocol = added.protocol i }) ∙ key;
  fresh = λ y sy n. fresh y sy;
  all = λ y. (
    (λ t. elim ((all y).0 t) [ inl sy ↦ inl (sy, none_had y sy) | inr e ↦ inr e ]),
    λ c. (all y).1 (elim c [ inl d ↦ inl d.0 | inr e ↦ inr e ]),
  );
}

-- The service that is left by an update in place.
pub changed-Replaces :
    (id : String) (req : ServiceRequest) {S T : Services} (s : LoadBalancerService)
    → IsOrderly S
    → S s
    → key_of (updated req s) ≡ key_of s
    → Effect (update_service id s.id req) S T
    → Replaces (key_of s) (updated req s) S T
unfolding updated
changed-Replaces id req {S} {T} s o mine same all = record {
  key = same;
  fresh = λ y sy n e. n (ap key_of (o.ids y s sy mine e));
  all = λ y. (
    (λ t. elim ((all y).0 t) [
      | inl (sy, n) ↦ inl (sy, λ e. n (ap (λ z. z.id) (o.keys y s sy mine e)))
      | inr (old, so, e, f) ↦ inr (f ∙ ap (updated req) (o.ids old s so mine e))
    ]),
    λ c. (all y).1 (elim c [
      | inl (sy, n) ↦ inl (sy, λ e. n (ap key_of (o.ids y s sy mine e)))
      | inr e ↦ inr (s, mine, refl, e)
    ]),
  );
}

-- The service that is as it should be already.
pub kept-Replaces :
    {S T : Services} (s : LoadBalancerService)
    → IsOrderly S
    → S s
    → T ≡ S
    → Replaces (key_of s) s S T
kept-Replaces {S} {T} s o mine same = record {
  key = refl;
  fresh = λ y sy n e. n (ap key_of (o.ids y s sy mine e));
  all = λ y. (
    (λ t. elim (Bool-cases (key_of y == key_of s)) [
      | inl e ↦
          let e' : key_of y ≡ key_of s = ground arith in
          inr (o.keys y s (subst (λ V. V y) same t) mine e')
      | inr n ↦ let n' : key_of y ≢ key_of s = ground arith in inl (subst (λ V. V y) same t, n')
    ]),
    λ c. subst (λ V. V y) (sym same) (elim c [ inl d ↦ d.0 | inr e ↦ subst S (sym e) mine ]),
  );
}

-- A service that was deleted, and another that was added in its place.
pub moved-Replaces :
    (id id' : String) {req : ServiceRequest} {S M T : Services} (s : LoadBalancerService)
    → IsOrderly S
    → S s
    → (record { port = req.port; protocol = req.protocol } ≡ key_of s)
    → Effect (delete_service id s.id) S M
    → (e : Effect (add_service id' req) M T) → Replaces (key_of s) e.0 S T
moved-Replaces id id' {req} {S} {M} {T} s o mine key gone (x, added, fresh, all) = record {
  key = (λ i. record { port = added.port i; protocol = added.protocol i }) ∙ key;
  fresh = λ y sy n. fresh y (stays y sy n);
  all = λ y. (
    (λ t. elim ((all y).0 t) [
      | inl m ↦
          let (sy, n) = (gone y).0 m in inl (sy, λ e. n (ap (λ z. z.id) (o.keys y s sy mine e)))
      | inr e ↦ inr e
    ]),
    λ c. (all y).1 (elim c [ inl (sy, n) ↦ inl (stays y sy n) | inr e ↦ inr e ]),
  );
}
  where
    stays : (y : LoadBalancerService) → S y → key_of y ≢ key_of s → M y
    stays y sy n = (gone y).1 (sy, λ e. n (ap key_of (o.ids y s sy mine e)))

pub over_same : (new old : String) → new ≡ old → over new old ≡ new
over_same new old e = ground arith

pub over_number_same : (new old : ℤ) → new ≡ old → over_number new old ≡ new
over_number_same new old e = ground arith

pub over_healthcheck_some :
    (new old : Option Healthcheck) → new ≢ none → over_healthcheck new old ≡ new
over_healthcheck_some none old n = absurd (n refl)
over_healthcheck_some (some h) old n = refl

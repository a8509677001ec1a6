-- ===== src/Tests/LawfulCloud.antt =====
-- An API with one NLB that applies what it is asked, for the runs that rely on the API's laws.
use Prim.Native.String.{count}
use text.Mathlib.TextLemmas.{length-append}
use exoscale_cloud_controlle.Base.{
  String, ◌≡◌, refl, sym, ap, ◌∙◌, subst, ◌≢◌, ◌↔◌, inl, inr, Bool, true, false, not, List, [], ◌∷◌,
  map, ◌==◌, string_eq, if◌then◌else◌, ok, err, Error, not_found, Member, keep_if, Bool-cases, ◌<>◌,
  ◌<◌, arith,
}
use exoscale_cloud_controlle.Cloud.Exoscale.{Client, LoadBalancerService, ServiceRequest}
use exoscale_cloud_controlle.LoadBalancer.Build.{without_status}
use exoscale_cloud_controlle.LoadBalancer.Lawful.{Services, IsLawful, Effect, updated}
use exoscale_cloud_controlle.LoadBalancer.Converge.Returns.{IsReliable}
use exoscale_cloud_controlle.Base.Returns.{Returns}
use exoscale_cloud_controlle.LoadBalancer.Session.{add_service, update_service, delete_service}
use exoscale_cloud_controlle.Tests.World.{account_nlb, op, service_of}

abbrev pub World : Type 0
World = List LoadBalancerService

abbrev pub seen : String → World → Services
seen id w y = (s : LoadBalancerService) × Member s w × (y ≡ without_status s)

-- An ID that is longer than all the others.
abbrev fresh_id : World → String
fresh_id [] = "svc"
fresh_id (s ∷ w) = s.id <> ("-" <> fresh_id w)

-- What an addition makes.
abbrev pub made : ServiceRequest → World → LoadBalancerService
made req w = record (service_of req) { id = fresh_id w }

abbrev pub change : String → ServiceRequest → LoadBalancerService → LoadBalancerService
change sid req s = if s.id == sid then updated req s else s

unfoldable pub cloud : Client World
unfolding string_eq
cloud = record {
  create_load_balancer = λ req w. (err not_found, w);
  add_service_to_load_balancer = λ id req w. (ok op, made req w ∷ w);
  delete_load_balancer = λ id w. (ok op, []);
  delete_load_balancer_service = λ id sid w. (ok op, keep_if (λ s. not (s.id == sid)) w);
  get_instance = λ id w. (err not_found, w);
  get_instance_type = λ id w. (err not_found, w);
  get_load_balancer = λ id w.
      (if id == "nlb-1" then ok (record account_nlb { services = w }) else err not_found, w);
  list_instances = λ w. (ok [], w);
  list_load_balancers = λ w. (ok (record account_nlb { services = w } ∷ []), w);
  list_sks_clusters = λ w. (ok [], w);
  update_load_balancer = λ id req w. (ok op, w);
  update_load_balancer_service = λ id sid req w. (ok op, map (change sid req) w);
  wait = λ o state w. (ok o, w);
}

Member-keep_if :
    (p : LoadBalancerService → Bool) (w : World) (s : LoadBalancerService)
    → Member s (keep_if p w) ↔ (Member s w × (p s ≡ true))
Member-keep_if p [] s = (λ m. absurd m, λ m. absurd m.0)
Member-keep_if p (x ∷ w) s =
    let rest = Member-keep_if p w s in
    elim (Bool-cases (p x)) [
      | inl e ↦ rw e (
        λ m. elim m [ inl f ↦ (inl f, ap p f ∙ e) | inr n ↦ (inr (rest.0 n).0, (rest.0 n).1) ],
        λ (m, t). elim m [ inl f ↦ inl f | inr n ↦ inr (rest.1 (n, t)) ],
      )
      | inr e ↦ rw e (
        λ m. (inr (rest.0 m).0, (rest.0 m).1),
        λ (m, t). elim m [ inl f ↦ cc | inr n ↦ rest.1 (n, t) ],
      )
    ]

Member-map :
    (f : LoadBalancerService → LoadBalancerService) (w : World) (y : LoadBalancerService)
    → Member y (map f w) ↔ ((s : LoadBalancerService) × Member s w × (y ≡ f s))
Member-map f [] y = (λ m. absurd m, λ (s, m, e). absurd m)
Member-map f (x ∷ w) y =
    let rest = Member-map f w y in
    (
      λ m. elim m [ inl e ↦ (x, inl refl, e) | inr n ↦ let (s, k, e) = rest.0 n in (s, inr k, e) ],
      λ (s, m, e). elim m [ inl g ↦ inl (e ∙ ap f g) | inr k ↦ inr (rest.1 (s, k, e)) ],
    )

fresh_id-longer :
    (w : World) (s : LoadBalancerService) → Member s w → count s.id < count (fresh_id w)
fresh_id-longer [] s m = absurd m
fresh_id-longer (x ∷ w) s m = elim m [
  | inl e ↦
      let f : count s.id ≡ count x.id = ap (λ z. count z.id) e in
      rw (length-append, length-append) (omega arith)
  | inr n ↦ let h = fresh_id-longer w s n in rw (length-append, length-append) (omega arith)
]

-- The services as a set, before and after each kind of change.
pub added_set :
    (id : String) (req : ServiceRequest) (w : World)
    → Effect (add_service id req) (seen id w) (seen id (made req w ∷ w))
added_set id req w = (
  without_status (made req w),
  record {
    name = refl;
    description = refl;
    port = refl;
    target_port = refl;
    protocol = refl;
    strategy = refl;
    healthcheck = refl;
    pool = refl;
  },
  λ y (s, m, e) f.
      let g : s.id ≡ fresh_id w = ap (λ z. z.id) (sym e) ∙ f in
      let h : count s.id ≡ count (fresh_id w) = ap count g in
      let k = fresh_id-longer w s m in omega arith,
  λ y. (
    λ (s, m, e). elim m [ inl f ↦ inr (e ∙ ap without_status f) | inr n ↦ inl (s, n, e) ],
    λ c. elim c [ inl (s, m, e) ↦ (s, inr m, e) | inr e ↦ (made req w, inl refl, e) ],
  ),
)

pub changed_set :
    (id sid : String) (req : ServiceRequest) (w : World)
    → Effect (update_service id sid req) (seen id w) (seen id (map (change sid req) w))
unfolding updated
changed_set id sid req w y = (
  λ (s, m, e).
      let (old, n, f) = (Member-map (change sid req) w s).0 m in
      elim (Bool-cases (old.id == sid)) [
        | inl t ↦
            let g : s ≡ updated req old = f ∙ rw t refl in
            inr (without_status old, (old, n, refl), ground arith, e ∙ ap without_status g)
        | inr t ↦
            let g : s ≡ old = f ∙ rw t refl in
            let d : old.id ≢ sid = ground arith in
            inl (
              (old, n, e ∙ ap without_status g),
              λ k. d (ap (λ z. z.id) (sym (e ∙ ap without_status g)) ∙ k),
            )
      ],
  λ c. elim c [
    | inl ((s, m, e), n) ↦
        let t : (s.id == sid) ≡ false = ground arith in
        (s, (Member-map (change sid req) w s).1 (s, m, rw t refl), e)
    | inr (old, (s, m, e), k, f) ↦
        let t : (s.id == sid) ≡ true = ground arith in
        (
          updated req s,
          (Member-map (change sid req) w (updated req s)).1 (s, m, rw t refl),
          f ∙ ap (updated req) e,
        )
  ],
)

pub deleted_set :
    (id sid : String) (w : World)
    → Effect (delete_service id sid) (seen id w) (seen id (keep_if (λ s. not (s.id == sid)) w))
deleted_set id sid w y = (
  λ (s, m, e).
      let (n, t) = (Member-keep_if (λ x. not (x.id == sid)) w s).0 m in
      let d : s.id ≢ sid = ground arith in ((s, n, e), λ k. d (ap (λ z. z.id) (sym e) ∙ k)),
  λ ((s, m, e), n).
      let t : not (s.id == sid) ≡ true = ground arith in
      (s, (Member-keep_if (λ x. not (x.id == sid)) w s).1 (m, t), e),
)

pub ok_inj : {A : Type 0} {a b : A} → ok a ≡ ok b → a ≡ b
ok_inj h = cc

pub err_ok : {A : Type 0} {e : Error} {a : A} → err e ≢ ok a
err_ok h = cc

pub cloud-IsLawful : IsLawful cloud seen
unfolding cloud
cloud-IsLawful = record {
  fetched = λ id nlb w w' h. elim (Bool-cases (id == "nlb-1")) [
    | inl e ↦
        let g : record account_nlb { services = w } ≡ nlb = ok_inj (rw e at (ap (λ r. r.0) h)) in
        let name : "nlb-1" ≡ id = ground arith in
        (
          ap (λ n. n.id) (sym g) ∙ name,
          ap (seen id) (sym (ap (λ r. r.1) h)),
          λ y.
              subst
                (λ n.
                  seen id w y
                  ↔ ((s : LoadBalancerService) × Member s n.services × (y ≡ without_status s)))
                g (λ m. m, λ m. m),
        )
    | inr e ↦ absurd (err_ok (rw e at (ap (λ r. r.0) h)))
  ];
  renamed = λ id req op w w' h y.
      subst (λ v. seen id v y ↔ seen id w y) (ap (λ r. r.1) h) (λ m. m, λ m. m);
  added = λ id req op w w' h.
      subst (λ v. Effect (add_service id req) (seen id w) (seen id v)) (ap (λ r. r.1) h)
        (added_set id req w);
  changed = λ id sid req op w w' h.
      subst (λ v. Effect (update_service id sid req) (seen id w) (seen id v)) (ap (λ r. r.1) h)
        (changed_set id sid req w);
  removed = λ id op w w' h y. subst (λ v. seen id v y → ⊥) (ap (λ r. r.1) h) (λ (s, m, e). m);
  deleted = λ id sid op w w' h.
      subst (λ v. Effect (delete_service id sid) (seen id w) (seen id v)) (ap (λ r. r.1) h)
        (deleted_set id sid w);
}

pub cloud-IsReliable : IsReliable cloud "nlb-1"
unfolding cloud Returns string_eq
cloud-IsReliable = record {
  fetched = λ w. (record account_nlb { services = w }, w, refl);
  renamed = λ req w. (op, w, refl);
  added = λ req w. (op, made req w ∷ w, refl);
  changed = λ sid req w. (op, map (change sid req) w, refl);
  deleted = λ sid w. (op, keep_if (λ s. not (s.id == sid)) w, refl);
}

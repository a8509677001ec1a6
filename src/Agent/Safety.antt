-- ===== src/Agent/Safety.antt =====
-- Which certificate signing requests the agent approves, and what its loop makes of the events
-- (exoscale/sks_agent_runner_node_csr_validation.go).
use exoscale_cloud_controlle.Base.{
  String, ◌≡◌, refl, ap, ◌≢◌, Bool, true, false, List, [], ◌∷◌, ◌++◌, string_eq, contains, Result,
  ok, err, Error, ◌>>=◌, arith, Member, All, Bool-cases, bind-ok, inl, inr, ◌⊎◌,
}
use exoscale_cloud_controlle.Base.Text.{equal_fold}
use exoscale_cloud_controlle.Cloud.Exoscale.{Instance}
use exoscale_cloud_controlle.Instances.Provider.{Provider}
use exoscale_cloud_controlle.Agent.Validation.{
  Condition, Csr, ParsedCsr, Certificates, approval, is_decided, required_groups, has_groups,
  has_required_groups, all_known, Verdict, ignored, rejected, approved, parse_csr, node_addresses,
  match_instances, approve, no_instance, check_instances, check_names, check_parsed, handle_csr,
}

not_true : false ≢ true
not_true e = cc

contains-Member : (xs : List String) (a : String) → contains xs a ≡ true → Member a xs
contains-Member [] a h = cc
contains-Member (x ∷ xs) a h = ground (arith, contains-Member xs a)

has_groups-All :
    (expected actual : List String)
    → has_groups expected actual ≡ true
    → All (λ g. Member g actual) expected
unfolding has_groups
has_groups-All [] actual h = tt
has_groups-All (g ∷ more) actual h = elim (Bool-cases (contains actual g)) [
  | inl e ↦ (contains-Member actual g e, has_groups-All more actual (rw e at h))
  | inr e ↦ absurd (not_true (rw e at h))
]

all_known-All :
    (addresses ips : List String)
    → all_known addresses ips ≡ true
    → All (λ ip. Member ip addresses) ips
unfolding all_known
all_known-All addresses [] h = tt
all_known-All addresses (ip ∷ ips) h = elim (Bool-cases (contains addresses ip)) [
  | inl e ↦ (contains-Member addresses ip e, all_known-All addresses ips (rw e at h))
  | inr e ↦ absurd (not_true (rw e at h))
]

rejected_approved :
    {W : Type 0} {e : Error} {w w' : W} → ¬ ◌≡◌ {A = Verdict × W} (rejected e, w) (approved, w')
rejected_approved {W} {e} h = let k : rejected e ≡ approved = ap (λ r. r.0) h in cc

ignored_approved : {W : Type 0} {w w' : W} → ¬ ◌≡◌ {A = Verdict × W} (ignored, w) (approved, w')
ignored_approved h = let k : ignored ≡ approved = ap (λ r. r.0) h in cc

decided :
    (csr : Csr) (conditions : List Condition)
    → is_decided (record csr { conditions = conditions ++ (approval ∷ []) }) ≡ true
unfolding is_decided
decided csr [] = refl
decided csr (x ∷ conditions) = refl

module _ {W : Type 0} (p : Provider W) (c : Certificates W) where
  -- An instance of the list with that name, whose addresses, as looked up, have all of those given.
  abbrev pub Backed : List Instance → String → List String → Type 0
  Backed instances dns ips =
      (instance : Instance) × (addresses : List String) × (w : W) × (w' : W) × Member instance
        instances
      × (equal_fold instance.name dns ≡ true)
      × (node_addresses p c instance w ≡ (ok addresses, w'))
      × All (λ ip. Member ip addresses) ips

  Backed-later :
      (instance : Instance) (instances : List Instance) (dns : String) (ips : List String)
      → Backed instances dns ips
      → Backed (instance ∷ instances) dns ips
  Backed-later instance instances dns ips (i, a, w, w', m, e, f, h) = (i, a, w, w', inr m, e, f, h)

  match_instances-Backed :
      (dns : String) (ips : List String) (so_far : Bool) (instances : List Instance) (w w' : W)
      → match_instances p c dns ips so_far instances w ≡ (ok true, w')
      → (so_far ≡ true) ⊎ Backed instances dns ips
  unfolding match_instances ◌>>=◌
  match_instances-Backed dns ips so_far [] w w' h = inl (ground arith)
  match_instances-Backed dns ips so_far (instance ∷ instances) w w' h =
      elim (Bool-cases (equal_fold instance.name dns)) [
        | inr e ↦
            elim (match_instances-Backed dns ips so_far instances w w'
              (rw (e, match_instances) at h)) [
                | inl k ↦ inl k
                | inr b ↦ inr (Backed-later instance instances dns ips b)
              ]
        | inl e ↦
            let (a, w1, f, k) =
              bind-ok (node_addresses p c instance)
                (λ a. match_instances p c dns ips (all_known a ips) instances) w true w'
                (rw (e, match_instances) at h) in
            elim (match_instances-Backed dns ips (all_known a ips) instances w1 w' k) [
              | inl k ↦ inr (instance, a, w, w1, inl refl, e, f, all_known-All a ips k)
              | inr b ↦ inr (Backed-later instance instances dns ips b)
            ]
      ]

  -- Why a request is approved: it has one DNS name, and some listed instance backs it.
  abbrev pub Justified : Csr → W → Type 0
  Justified csr w =
      (parsed : ParsedCsr) × (dns : String) × (instances : List Instance) × (w1 : W) × (parse_csr p
          c csr.request
        ≡ ok parsed)
      × (parsed.dns_names ≡ dns ∷ [])
      × (p.client.list_instances w ≡ (ok instances, w1))
      × Backed instances dns parsed.ip_addresses

  found-true :
      (csr : Csr) (x : Result Bool × W) (w' : W)
      → ◌≡◌ {A = Verdict × W}
          (elim x.0 [
            | err e ↦ (rejected e, x.1)
            | ok found ↦ elim found [
              | false ↦ (rejected (no_instance p c csr.name), x.1)
              | true ↦ approve p c csr x.1
            ]
          ])
          (approved, w')
      → x ≡ (ok true, x.1)
  found-true csr (ok true, w) w' h = refl
  found-true csr (ok false, w) w' h =
      let k : rejected (no_instance p c csr.name) ≡ approved = ap (λ r. r.0) h in cc
  found-true csr (err e, w) w' h = let k : rejected e ≡ approved = ap (λ r. r.0) h in cc

  check_instances-Justified :
      (csr : Csr) (parsed : ParsedCsr) (dns : String) (w w' : W)
      → parse_csr p c csr.request ≡ ok parsed
      → parsed.dns_names ≡ dns ∷ []
      → check_instances p c csr parsed dns w ≡ (approved, w')
      → Justified csr w
  unfolding check_instances
  check_instances-Justified csr parsed dns w w' e n h =
      let x =
        (p.client.list_instances >>= λ instances.
        match_instances p c dns parsed.ip_addresses false instances)
          w in
      let (instances, w1, l, k) =
        bind-ok p.client.list_instances
          (λ instances. match_instances p c dns parsed.ip_addresses false instances) w true x.1
          (found-true csr x w' h) in
      elim (match_instances-Backed dns parsed.ip_addresses false instances w1 x.1 k) [
        | inl f ↦ absurd (not_true f)
        | inr b ↦ (parsed, dns, instances, w1, e, n, l, b)
      ]

  check_names-Justified :
      (csr : Csr) (parsed : ParsedCsr) (names : List String) (w w' : W)
      → parse_csr p c csr.request ≡ ok parsed
      → parsed.dns_names ≡ names
      → check_names p c csr parsed names w ≡ (approved, w')
      → Justified csr w
  unfolding check_names
  check_names-Justified csr parsed [] w w' e n h = absurd (rejected_approved h)
  check_names-Justified csr parsed (dns ∷ []) w w' e n h =
      check_instances-Justified csr parsed dns w w' e n h
  check_names-Justified csr parsed (dns ∷ dns' ∷ more) w w' e n h = absurd (rejected_approved h)

  check_parsed-Justified :
      (csr : Csr) (r : Result ParsedCsr) (w w' : W)
      → parse_csr p c csr.request ≡ r
      → check_parsed p c csr r w ≡ (approved, w')
      → Justified csr w
  unfolding check_parsed
  check_parsed-Justified csr (err x) w w' e h = absurd (rejected_approved h)
  check_parsed-Justified csr (ok parsed) w w' e h =
      check_names-Justified csr parsed parsed.dns_names w w' e refl h

  -- A request is approved only if it was undecided, it comes from an authenticated node, its
  -- certificate request can be parsed and has exactly one DNS name, and some instance that the API
  -- lists has that name, up to case, and all the IP addresses of the request.
  pub approved_only :
      (csr : Csr) (w w' : W)
      → handle_csr p c csr w ≡ (approved, w')
      → (is_decided csr ≡ false) × All (λ g. Member g csr.groups) required_groups × Justified csr w
  unfolding handle_csr has_required_groups
  approved_only csr w w' h = elim (Bool-cases (is_decided csr)) [
    | inl e ↦ absurd (ignored_approved (rw e at h))
    | inr e ↦ elim (Bool-cases (has_groups required_groups csr.groups)) [
      | inr f ↦ absurd (ignored_approved (rw (e, f) at h))
      | inl f ↦ (
        e,
        has_groups-All required_groups csr.groups f,
        check_parsed-Justified csr (parse_csr p c csr.request) w w' refl (rw (e, f) at h),
      )
    ]
  ]

  -- Every request to which the agent has added its approval is left alone, in any world: the agent
  -- never approves a request twice.
  approved_once :
      (csr : Csr) (w : W)
      → handle_csr p c (record csr { conditions = csr.conditions ++ (approval ∷ []) }) w
        ≡ (ignored, w)
  unfolding handle_csr
  approved_once csr w = rw (decided csr csr.conditions) refl

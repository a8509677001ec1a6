-- ===== src/Instances/Overrides.antt =====
-- Which override a node gets (exoscale/instances_config.go), and the way back from the provider ID
-- that `InstanceMetadata` gives to an external node (exoscale/instances_v2.go).
use exoscale_cloud_controlle.Base.{
  String, ◌<>◌, ◌≡◌, refl, sym, ◌∙◌, ◌≢◌, ap, Bool, true, List, [], ◌∷◌, ◌==◌, string_eq, Option,
  none, some, arith, Member, find, Option-cases, Bool-cases, inl, inr, if◌then◌else◌, ◌⊎◌,
}
use exoscale_cloud_controlle.Base.Text.{trim_prefix-append}
use exoscale_cloud_controlle.Instances.Config.{
  Override, InstancesConfig, Matching, is_named, matches_pattern, has_external_id, has_default_id,
  get_instance_override, get_instance_override_by_provider_id, default_external_id, provider_prefix,
}
use exoscale_cloud_controlle.Instances.Provider.{Provider}
use exoscale_cloud_controlle.Instances.V2.{external_metadata}

-- What a search finds is in the list and passes the test, and it finds something if it can.
find-some :
    {A : Type 0} (p : A → Bool) (xs : List A) (x : A)
    → find p xs ≡ some x
    → Member x xs × (p x ≡ true)
find-some p [] x h = cc
find-some p (y ∷ ys) x h = elim (Bool-cases (p y)) [
  | inl e ↦ let same : y ≡ x = ground arith in (inl (sym same), ap p (sym same) ∙ e)
  | inr e ↦ let rest = find-some p ys x (ground arith) in (inr rest.0, rest.1)
]

find-finds :
    {A : Type 0} (p : A → Bool) (xs : List A) (x : A) → Member x xs → p x ≡ true → find p xs ≢ none
find-finds p [] x m h e = m
find-finds p (y ∷ ys) x (inl same) h e = ground arith
find-finds p (y ∷ ys) x (inr m) h e = let rest = find-finds p ys x m h in ground arith

-- One search and then another.
abbrev find_either : {A : Type 0} → (A → Bool) → (A → Bool) → List A → Option A
find_either p q xs = elim (find p xs) [ some c ↦ some c | none ↦ find q xs ]

find_either-first :
    {A : Type 0} (p q : A → Bool) (xs : List A) (x : A)
    → Member x xs
    → p x ≡ true
    → (found : A) × (find_either p q xs ≡ some found) × Member found xs × (p found ≡ true)
find_either-first p q xs x mem h = elim (Option-cases (find p xs)) [
  | inl e ↦ absurd (find-finds p xs x mem h e)
  | inr (c, e) ↦ let (mc, pc) = find-some p xs c e in (c, rw (e, find_either) refl, mc, pc)
]

find_either-some :
    {A : Type 0} (p q : A → Bool) (xs : List A) (x : A)
    → Member x xs
    → (p x ≡ true) ⊎ (q x ≡ true)
    → (found : A) × (find_either p q xs ≡ some found)
      × Member found xs
      × ((p found ≡ true) ⊎ (q found ≡ true))
find_either-some p q xs x mem h = elim (Option-cases (find p xs)) [
  | inr (c, e) ↦ let (mc, pc) = find-some p xs c e in (c, rw (e, find_either) refl, mc, inl pc)
  | inl e ↦ elim (Option-cases (find q xs)) [
    | inr (c, f) ↦ let (mc, qc) = find-some q xs c f in (c, rw (e, find_either) f, mc, inr qc)
    | inl f ↦ elim h [
      | inl px ↦ absurd (find-finds p xs x mem px e)
      | inr qx ↦ absurd (find-finds q xs x mem qx f)
    ]
  ]
]

module _ (m : Matching) where
  -- The ID that an override has or gets.
  abbrev pub effective_id : Override → String
  effective_id o = if o.external_id == "" then default_external_id m o.name else o.external_id

  has_external_id-effective :
      (id : String) (c : Override) → has_external_id m id c ≡ true → effective_id c ≡ id
  has_external_id-effective id c h = ground arith

  has_default_id-effective :
      (id : String) (c : Override) → has_default_id m id c ≡ true → effective_id c ≡ id
  unfolding has_default_id
  has_default_id-effective id c h = ground arith

  has_default :
      (c : Override) → (c.external_id == "") ≡ true → has_default_id m (effective_id c) c ≡ true
  unfolding has_default_id
  has_default c e = ground arith

  effective :
      (id : String) (c : Override)
      → (has_external_id m id c ≡ true) ⊎ (has_default_id m id c ≡ true)
      → effective_id c ≡ id
  effective id c (inl h) = has_external_id-effective id c h
  effective id c (inr h) = has_default_id-effective id c h

  has_effective :
      (c : Override)
      → (has_external_id m (effective_id c) c ≡ true) ⊎ (has_default_id m (effective_id c) c ≡ true)
  has_effective c = elim (Bool-cases (c.external_id == "")) [
    | inl e ↦ inr (has_default c e)
    | inr e ↦ inl (ground arith)
  ]

  either :
      (cfg : InstancesConfig) (id : String)
      → get_instance_override_by_provider_id m cfg (provider_prefix <> id)
        ≡ find_either (has_external_id m id) (has_default_id m id) cfg.overrides
  unfolding get_instance_override_by_provider_id
  either cfg id =
      ap (λ t. find_either (has_external_id m t) (has_default_id m t) cfg.overrides)
        (trim_prefix-append provider_prefix id)

  -- Both loops together find an override with the ID, if there is one.
  by_id-effective :
      (cfg : InstancesConfig) (o : Override)
      → Member o cfg.overrides
      → (found : Override) × (get_instance_override_by_provider_id m cfg
            (provider_prefix <> effective_id o)
          ≡ some found)
        × Member found cfg.overrides
        × (effective_id found ≡ effective_id o)
  by_id-effective cfg o mem =
      let (found, e, mf, h) =
        find_either-some (has_external_id m (effective_id o)) (has_default_id m (effective_id o))
          cfg.overrides o mem (has_effective o) in
      (found, either cfg (effective_id o) ∙ e, mf, effective (effective_id o) found h)

  by_name :
      (cfg : InstancesConfig) (name : String)
      → get_instance_override m cfg name
        ≡ find_either (is_named m name) (matches_pattern m name) cfg.overrides
  unfolding get_instance_override
  by_name cfg name = refl

  -- If an override of the list has exactly the node's name, which is not empty, then one with that
  -- name is found, whatever patterns match the name.
  pub get_instance_override-named :
      (cfg : InstancesConfig) (o : Override)
      → Member o cfg.overrides
      → o.name ≢ ""
      → (found : Override) × (get_instance_override m cfg o.name ≡ some found)
        × Member found cfg.overrides
        × (found.name ≡ o.name)
  get_instance_override-named cfg o mem named =
      let (found, e, mf, h) =
        find_either-first (is_named m o.name) (matches_pattern m o.name) cfg.overrides o mem
          (ground arith) in
      (found, by_name cfg o.name ∙ e, mf, ground arith)

module _ {W : Type 0} (p : Provider W) where
  external_metadata-id :
      (o : Override)
      → (external_metadata p o).provider_id ≡ provider_prefix <> effective_id p.matching o
  unfolding external_metadata
  external_metadata-id o = refl

  -- The provider ID that `InstanceMetadata` gives to the node of an override of the list leads back to
  -- an override of the list with the same ID, whether the ID is in the file or made from the name.
  pub provider_id_back :
      (o : Override)
      → Member o p.instances.overrides
      → (found : Override) × (get_instance_override_by_provider_id p.matching p.instances
            (external_metadata p o).provider_id
          ≡ some found)
        × Member found p.instances.overrides
        × (effective_id p.matching found ≡ effective_id p.matching o)
  provider_id_back o mem =
      rw (external_metadata-id o) (by_id-effective p.matching p.instances o mem)

-- ===== src/Client/Setup.antt =====
-- The set-up of the provider (exoscale/exoscale.go): the zone, the client and the agent's runners.
use exoscale_cloud_controlle.Base.{
  String, ◌≡◌, Bool, true, false, not, none, some, List, [], ◌∷◌, ◌==◌, string_eq, if◌then◌else◌,
  Result, ok, err, hidef, All, Bool-cases, Option-cases, ◌&&◌, Result-cases, inl, inr, arith,
}
use exoscale_cloud_controlle.Base.Text.{split}
use exoscale_cloud_controlle.Agent.Runner.{run_sks_agent, node_csr_validation}
use exoscale_cloud_controlle.Client.Config.{CloudConfig, GlobalConfig, Env}
use exoscale_cloud_controlle.Client.Credentials.{
  Egoscale, FileContent, Outcome, fatal, continues, RefreshableClient, ApiCredentials,
  no_credentials, new_refreshable_client, IsConsistent, client_for, refresh_credentials_from_file,
  refresh-Kept, Kept,
}
use exoscale_cloud_controlle.Instances.Zones.{ZoneMetadata, get_zone}

-- `os.Getenv`
abbrev getenv : Env → String → String
getenv env name = elim (env name) [ none ↦ "" | some v ↦ v ]

-- The zone of `newExoscaleCloud`.
unfoldable pub provider_zone : Env → ZoneMetadata → Result String
provider_zone env m =
    if not (getenv env "EXOSCALE_API_ZONE" == "")
    then ok (getenv env "EXOSCALE_API_ZONE")
    else if not (getenv env "EXOSCALE_ZONE" == "")
    then ok (getenv env "EXOSCALE_ZONE")
    else get_zone m

module _ {C : Type 0} (v3 : Egoscale C) (env : Env) where
  -- The runners that the environment asks for; an unknown one is fatal.
  unfoldable pub start_runners : RefreshableClient C → Outcome (RefreshableClient C × List String)
  start_runners c =
      let v = getenv env "EXOSCALE_SKS_AGENT_RUNNERS" in
      if v == "" then continues (c, []) else elim (run_sks_agent (split b',' v)).1 [
        | none ↦ continues (c, (run_sks_agent (split b',' v)).0)
        | some e ↦ fatal (hidef "SKS agent failed to start: %s" [] e)
      ]

  unfoldable pub with_client :
      Outcome (Result (RefreshableClient C × Bool)) → Outcome (RefreshableClient C × List String)
  with_client (fatal e) = fatal e
  with_client (continues (err e)) = fatal (hidef "could not create Exoscale client: %v" [] e)
  with_client (continues (ok (c, watched))) = start_runners c

  -- `Initialize`: the client, and the runners that were started.
  unfoldable pub initialize :
      String → CloudConfig → FileContent → Outcome (RefreshableClient C × List String)
  initialize zone cfg file = with_client (new_refreshable_client v3 zone cfg.global file)

  abbrev pub IsSetUp : String → Outcome (RefreshableClient C × List String) → Type 0
  IsSetUp zone (fatal e) = Unit {0}
  IsSetUp zone (continues (c, runners)) =
      IsConsistent v3 zone c × All (λ r. r ≡ node_csr_validation) runners

  runners-All :
      (names : List String)
      → (run_sks_agent names).1 ≡ none
      → All (λ r. r ≡ node_csr_validation) (run_sks_agent names).0
  unfolding run_sks_agent
  runners-All [] h = tt
  runners-All (r ∷ names) h = elim (Bool-cases (r == node_csr_validation)) [
    | inl e ↦
        let same : r ≡ node_csr_validation = ground arith in
        rw e (same, runners-All names (rw e at h))
    | inr e ↦ rw e tt
  ]

  abbrev IsMade : String → Outcome (Result (RefreshableClient C × Bool)) → Type 0
  IsMade zone (fatal e) = Unit {0}
  IsMade zone (continues (err e)) = Unit {0}
  IsMade zone (continues (ok (c, watched))) = IsConsistent v3 zone c

  abbrev watched : Outcome (RefreshableClient C) → Outcome (Result (RefreshableClient C × Bool))
  watched o = elim o [ fatal e ↦ fatal e | continues c ↦ continues (ok (c, true)) ]

  watched-IsMade :
      (zone : String) (made : Bool) (o : Outcome (RefreshableClient C))
      → Kept v3 zone made o
      → IsMade zone (watched o)
  watched-IsMade zone made (fatal e) h = tt
  watched-IsMade zone made (continues c) h = h.1

  new_refreshable_client-IsMade :
      (zone : String) (cfg : GlobalConfig) (file : FileContent)
      → IsMade zone (new_refreshable_client v3 zone cfg file)
  unfolding new_refreshable_client
  new_refreshable_client-IsMade zone cfg file =
      let credentials : ApiCredentials = record {
        api_key = cfg.api_key;
        api_secret = cfg.api_secret;
        name = "";
      } in
      let c : RefreshableClient C = record {
        exo = none;
        api_credentials = no_credentials;
        api_endpoint = cfg.api_endpoint;
      } in
      elim (Bool-cases (not (cfg.api_key == "") && not (cfg.api_secret == ""))) [
        | inl e ↦ elim (Result-cases (client_for v3 zone cfg.api_endpoint credentials)) [
          | inl (x, f) ↦ rw (e, f) f
          | inr (x, f) ↦ rw (e, f) tt
        ]
        | inr e ↦ elim (Bool-cases (not (cfg.api_credentials_file == ""))) [
          | inl f ↦
              rw (e, f)
                (watched-IsMade zone false (refresh_credentials_from_file v3 zone file c)
                  (refresh-Kept v3 zone file c tt))
          | inr f ↦ rw (e, f) tt
        ]
      ]

  start_runners-IsSetUp :
      (zone : String) (c : RefreshableClient C)
      → IsConsistent v3 zone c
      → IsSetUp zone (start_runners c)
  unfolding start_runners
  start_runners-IsSetUp zone c h =
      let v = getenv env "EXOSCALE_SKS_AGENT_RUNNERS" in
      elim (Bool-cases (v == "")) [
        | inl e ↦ rw e (h, tt)
        | inr e ↦ elim (Option-cases (run_sks_agent (split b',' v)).1) [
          | inl f ↦ rw (e, f) (h, runners-All (split b',' v) f)
          | inr (x, f) ↦ rw (e, f) tt
        ]
      ]

  with_client-IsSetUp :
      (zone : String) (o : Outcome (Result (RefreshableClient C × Bool)))
      → IsMade zone o
      → IsSetUp zone (with_client o)
  unfolding with_client
  with_client-IsSetUp zone (fatal e) h = tt
  with_client-IsSetUp zone (continues (err e)) h = tt
  with_client-IsSetUp zone (continues (ok (c, w))) h = start_runners-IsSetUp zone c h

  -- Whatever the configuration, the environment and the credentials file are: if `Initialize` does not
  -- end the program, a client that the provider has is the one that egoscale makes for its credentials,
  -- and the only runners that were started are those for node certificate requests.
  pub initialize-IsSetUp :
      (zone : String) (cfg : CloudConfig) (file : FileContent)
      → IsSetUp zone (initialize zone cfg file)
  unfolding initialize
  initialize-IsSetUp zone cfg file =
      with_client-IsSetUp zone (new_refreshable_client v3 zone cfg.global file)
        (new_refreshable_client-IsMade zone cfg.global file)

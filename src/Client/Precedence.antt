-- ===== src/Client/Precedence.antt =====
-- The environment goes before the configuration file (exoscale/exoscale_config.go, lines 35-51), and
-- the key and the secret before the credentials file (exoscale/client.go, lines 72-112).
use exoscale_cloud_controlle.Base.{
  String, ◌≡◌, refl, ◌∙◌, ap, ◌≢◌, Bool, true, false, not, ◌&&◌, Option, none, some, ◌==◌,
  string_eq, Result, ok, err, arith,
}
use exoscale_cloud_controlle.Client.Config.{
  GlobalConfig, CloudConfig, Env, from_environment, read_exoscale_config,
}
use exoscale_cloud_controlle.Client.Credentials.{
  Egoscale, FileContent, Outcome, continues, RefreshableClient, ApiCredentials, client_for,
  new_refreshable_client,
}

-- What is left of the environment in a configuration that was read.
read-from_environment :
    (env : Env) (empty cfg : CloudConfig) (decoder : Option (Result CloudConfig))
    → read_exoscale_config env empty decoder ≡ ok cfg
    → (read : CloudConfig) × (cfg ≡ from_environment env read)
unfolding read_exoscale_config
read-from_environment env empty cfg none h = (empty, cc)
read-from_environment env empty cfg (some (ok read)) h = (read, cc)
read-from_environment env empty cfg (some (err e)) h = absurd (cc)

from_environment-keys :
    (env : Env) (read : CloudConfig) (key secret : String)
    → env "EXOSCALE_API_KEY" ≡ some key
    → env "EXOSCALE_API_SECRET" ≡ some secret
    → ((from_environment env read).global.api_key ≡ key)
      × ((from_environment env read).global.api_secret ≡ secret)
unfolding from_environment
from_environment-keys env read key secret k s = (
  ap (λ o. elim o [ some v ↦ v | none ↦ read.global.api_key ]) k,
  ap (λ o. elim o [ some v ↦ v | none ↦ read.global.api_secret ]) s,
)

module _ {C : Type 0} (v3 : Egoscale C) (zone : String) where
  -- The answer of the constructor where the client was made for the key and the secret.
  abbrev pub by_key : GlobalConfig → String → String → Outcome (Result (RefreshableClient C × Bool))
  by_key cfg key secret =
      let credentials : ApiCredentials = record { api_key = key; api_secret = secret; name = "" } in
      elim (client_for v3 zone cfg.api_endpoint credentials) [
        | err e ↦ continues (err e)
        | ok exo ↦ continues (
            ok (
              record {
                exo = some exo;
                api_credentials = credentials;
                api_endpoint = cfg.api_endpoint;
              },
              false,
            ))
      ]

  made_by_key :
      (cfg : GlobalConfig) (file : FileContent)
      → (not (cfg.api_key == "") && not (cfg.api_secret == "")) ≡ true
      → new_refreshable_client v3 zone cfg file ≡ by_key cfg cfg.api_key cfg.api_secret
  unfolding new_refreshable_client
  made_by_key cfg file given = rw given refl

  -- If the environment has a key and a secret that are not empty, then, whatever the configuration
  -- file says, the client is made for them, and the credentials file is neither read nor watched.
  pub environment_first :
      (env : Env) (empty cfg : CloudConfig) (decoder : Option (Result CloudConfig))
      (file : FileContent) (key secret : String)
      → read_exoscale_config env empty decoder ≡ ok cfg
      → env "EXOSCALE_API_KEY" ≡ some key
      → env "EXOSCALE_API_SECRET" ≡ some secret
      → key ≢ ""
      → secret ≢ ""
      → new_refreshable_client v3 zone cfg.global file ≡ by_key cfg.global key secret
  environment_first env empty cfg decoder file key secret h k s nk ns =
      let (read, e) = read-from_environment env empty cfg decoder h in
      let (a, b) = from_environment-keys env read key secret k s in
      let key' : cfg.global.api_key ≡ key = ap (λ c. c.global.api_key) e ∙ a in
      let secret' : cfg.global.api_secret ≡ secret = ap (λ c. c.global.api_secret) e ∙ b in
      let given : (not (cfg.global.api_key == "") && not (cfg.global.api_secret == "")) ≡ true =
        ground arith in
      made_by_key cfg.global file given ∙ λ i. by_key cfg.global (key' i) (secret' i)

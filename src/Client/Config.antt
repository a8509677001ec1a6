-- ===== src/Client/Config.antt =====
-- `readExoscaleConfig` (exoscale/exoscale_config.go). The YAML decoder and the environment are
-- parameters.
use exoscale_cloud_controlle.Base.{
  String, Bool, Option, none, some, ◌==◌, string_eq, if◌then◌else◌, Result, ok, err,
}
use exoscale_cloud_controlle.Instances.Config.{InstancesConfig}

pub record GlobalConfig : Type 0 where
  pub api_key : String
  pub api_secret : String
  pub api_credentials_file : String
  pub api_endpoint : String

-- `cloudConfig`; the load balancer's configuration is its `Disabled`.
pub record CloudConfig : Type 0 where
  pub global : GlobalConfig
  pub instances : InstancesConfig
  pub load_balancer_disabled : Bool

abbrev pub Env : Type 0
Env = String → Option String

-- `if value, exists := os.LookupEnv(name); exists { field = value }`
abbrev pub env_or : Env → String → String → String
env_or env name value = elim (env name) [ some v ↦ v | none ↦ value ]

-- An endpoint goes before an environment, of which only `ppapi` means anything.
unfoldable pub endpoint_from : Env → String → String
unfolding string_eq
endpoint_from env value = elim (env "EXOSCALE_API_ENDPOINT") [
  | some v ↦ v
  | none ↦ elim (env "EXOSCALE_API_ENVIRONMENT") [
    | none ↦ value
    | some v ↦ if v == "ppapi" then "https://ppapi-ch-gva-2.exoscale.com/v2" else value
  ]
]

unfoldable pub from_environment : Env → CloudConfig → CloudConfig
unfolding endpoint_from
from_environment env cfg = record cfg {
  global = record {
    api_key = env_or env "EXOSCALE_API_KEY" cfg.global.api_key;
    api_secret = env_or env "EXOSCALE_API_SECRET" cfg.global.api_secret;
    api_credentials_file =
        env_or env "EXOSCALE_API_CREDENTIALS_FILE" cfg.global.api_credentials_file;
    api_endpoint = endpoint_from env cfg.global.api_endpoint;
  };
}

-- `readExoscaleConfig`, of what the decoder made of the file, if there is one.
unfoldable pub read_exoscale_config :
    Env → CloudConfig → Option (Result CloudConfig) → Result CloudConfig
unfolding from_environment
read_exoscale_config env empty none = ok (from_environment env empty)
read_exoscale_config env empty (some (ok cfg)) = ok (from_environment env cfg)
read_exoscale_config env empty (some (err e)) = err e

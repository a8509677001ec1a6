-- ===== src/Tests/Clients.antt =====
-- Runs of the client that refreshes its credentials.
use Prim.Native.Char.{Char}
use exoscale_cloud_controlle.Base.{
  false, string_eq, ℕ, String, ◌≡◌, refl, true, List, [], ◌∷◌, nat_eq, ok, err, some, none,
  not_found, ap, ◌≢◌, ◌==◌, if◌then◌else◌,
}
use exoscale_cloud_controlle.Agent.Runner.{run_sks_agent}
use exoscale_cloud_controlle.Base.Text.{split, is_empty}
use exoscale_cloud_controlle.Client.Config.{
  CloudConfig, Env, from_environment, read_exoscale_config,
}
use exoscale_cloud_controlle.Client.Precedence.{by_key, environment_first}
use exoscale_cloud_controlle.Instances.Zones.{ZoneMetadata}
use exoscale_cloud_controlle.Client.Entry.{
  CloudProvider, instances_controller, instances_v2_controller, load_balancer_controller,
  zones_controller,
}
use exoscale_cloud_controlle.Client.Setup.{
  IsSetUp, initialize, initialize-IsSetUp, with_client, start_runners,
}
use exoscale_cloud_controlle.Client.Credentials.{
  new_refreshable_client, refresh_credentials_from_file, continues, ApiCredentials,
  RefreshableClient, Egoscale, Input, event, watch_error, decoded, unreadable, undecodable,
  IsConsistent, Kept, watch_credentials_file, watch-Kept, client_for,
}
use exoscale_cloud_controlle.Client.Locking.{
  Caller, Writer, Shared, Reach, here, next, rlock, operate, wait, waited, set_caller,
  waited_same_client, locked, sent,
}

abbrev v3 : Egoscale String
v3 = record {
  new_client = λ key secret endpoint. ok key;
  zone_endpoint = λ c zone. ok zone;
  with_endpoint = λ c endpoint. c;
}

abbrev keys : ApiCredentials
keys = record { api_key = "key"; api_secret = "secret"; name = "" }

abbrev made : RefreshableClient String
made = record { exo = some "key"; api_credentials = keys; api_endpoint = "" }

abbrev inputs : List Input
inputs =
    event "/credentials" 2 (undecodable not_found)
    ∷ watch_error
    ∷ event "/credentials" 1 (decoded (record keys { api_key = "key-2" }))
    ∷ []

made-IsConsistent : IsConsistent v3 "ch-gva-2" made
unfolding client_for string_eq
made-IsConsistent = refl

watch-Kept_example :
    Kept v3 "ch-gva-2" true
      (watch_credentials_file v3 "ch-gva-2" (ok tt) (ok tt) "/credentials" inputs made)
watch-Kept_example =
    watch-Kept v3 "ch-gva-2" (ok tt) (ok tt) "/credentials" inputs made made-IsConsistent

abbrev Made : ℕ → ℕ → Type 0
Made k c = k ≡ c

abbrev quiet : Shared ℕ ℕ
quiet = record {
  exo = 1;
  api_credentials = 1;
  writer = Writer.outside;
  callers = λ _. Caller.outside;
}

abbrev with_caller : Caller ℕ ℕ → Shared ℕ ℕ → Shared ℕ ℕ
with_caller x s = record s { callers = set_caller s.callers 0 x }

abbrev called : Shared ℕ ℕ
called = with_caller (waited 1 1 1 1) (with_caller (sent 1 1) (with_caller locked quiet))

calls : Reach Made quiet called
unfolding nat_eq
calls =
    next (next (next here (rlock quiet 0 refl refl)) (operate (with_caller locked quiet) 0 refl))
      (wait (with_caller (sent 1 1) (with_caller locked quiet)) 0 1 1 refl)

called-waited : called.callers 0 ≡ waited 1 1 1 1
unfolding nat_eq
called-waited = refl

waited_same_client_example : (called.exo ≡ 1) × (called.api_credentials ≡ 1) × Made 1 1
waited_same_client_example =
    waited_same_client Made quiet called 0 {c = 1} {d = 1} {k = 1} {l = 1} ((λ _. refl), refl) refl
      calls called-waited

abbrev config : CloudConfig
config = record {
  global = record {
    api_key = "";
    api_secret = "";
    api_credentials_file = "/credentials";
    api_endpoint = "";
  };
  instances = record { disabled = false; overrides = []; external_only = false };
  load_balancer_disabled = false;
}

abbrev env : Env
env name = some "node-csr-validation"

initialize-IsSetUp_example :
    IsSetUp v3 env "ch-gva-2" (initialize v3 env "ch-gva-2" config (decoded keys))
initialize-IsSetUp_example = initialize-IsSetUp v3 env "ch-gva-2" config (decoded keys)

-- The client is made from the file, and the runner is started.
initialize_run :
    initialize v3 env "ch-gva-2" config (decoded keys)
    ≡ continues (made, "node-csr-validation" ∷ [])
unfolding initialize with_client start_runners new_refreshable_client refresh_credentials_from_file
    client_for string_eq run_sks_agent split
initialize_run = refl

abbrev keyed : Env
keyed name =
    if name == "EXOSCALE_API_KEY"
    then some "key"
    else if name == "EXOSCALE_API_SECRET"
    then some "secret"
    else none

keyed-read :
    read_exoscale_config keyed config (some (ok config)) ≡ ok (from_environment keyed config)
unfolding read_exoscale_config
keyed-read = refl

environment_first_example :
    new_refreshable_client v3 "ch-gva-2"
      (from_environment keyed config).global
      (unreadable not_found)
    ≡ by_key v3 "ch-gva-2" (from_environment keyed config).global "key" "secret"
unfolding string_eq
environment_first_example =
    environment_first v3 "ch-gva-2" keyed config (from_environment keyed config) (some (ok config))
      (unreadable not_found) "key" "secret" keyed-read refl refl (λ e. no_text e) λ e. no_text e
  where
    no_text : {c : Char} {t : String} → String.◌∷◌ c t ≢ ""
    no_text e = let f : false ≡ true = ap is_empty e in cc

abbrev metadata : ZoneMetadata
metadata = record { from_cdrom = ok "ch-gva-2"; from_server = err not_found }

abbrev pub cloud_provider : CloudProvider
cloud_provider = record {
  cfg = from_environment keyed config;
  zone = "ch-gva-2";
  instances = instances_controller config.instances;
  instances_v2 = instances_v2_controller config.instances;
  load_balancer = load_balancer_controller false;
  zones = zones_controller;
}

-- ===== src/Tests/Nodes.antt =====
-- A node of the account's instance, and runs of the node controllers, the agent and the client.
use exoscale_cloud_controlle.Base.{
  ◌≡◌, ◌≢◌, refl, ap, true, false, [], ◌∷◌, ◌++◌, string_eq, nat_eq, ok, ◌>>=◌, some, none, inl,
  All, Member,
}
use exoscale_cloud_controlle.Base.Dict.{lookup}
use exoscale_cloud_controlle.Base.Text.{is_empty, equal_fold}
use exoscale_cloud_controlle.Cloud.Exoscale.{LoadBalancer}
use exoscale_cloud_controlle.Cloud.Kubernetes.{Node}
use exoscale_cloud_controlle.Instances.Config.{
  Override, Matching, get_instance_override, get_instance_override_by_provider_id, matches_pattern,
}
use exoscale_cloud_controlle.Instances.Provider.{Provider, node_of_instance}
use exoscale_cloud_controlle.Instances.Legacy.{
  instance_exists_by_provider_id, instance_shutdown_by_provider_id, provided_address,
}
use exoscale_cloud_controlle.Instances.Labels.{
  remove_invalid, remove_invalid-AllLabelChars, AllLabelChars,
}
use exoscale_cloud_controlle.Instances.V2.{instance_exists, instance_shutdown, external_metadata}
use exoscale_cloud_controlle.Instances.Overrides.{
  get_instance_override-named, provider_id_back, effective_id,
}
use exoscale_cloud_controlle.Instances.Agreement.{v2_agrees}
use exoscale_cloud_controlle.Instances.Disabled.{NodeUntouched, NameUntouched, disabled-Untouched}
use exoscale_cloud_controlle.Agent.Validation.{
  Csr, Certificates, handle_csr, approved, required_groups, is_decided, has_groups,
  has_required_groups, parse_csr, check_instances, check_names, check_parsed, approve,
  match_instances, node_addresses as addresses_of_instance, all_known,
}
use exoscale_cloud_controlle.Agent.Safety.{approved_only, Justified}
use exoscale_cloud_controlle.Agent.Runner.{
  Event, Runner, run, watching, connecting, watch_failed, cancelled, received, watch_started,
  terminated, step, step_in, handle_event,
}
use exoscale_cloud_controlle.Agent.Termination.{run-cancelled}
use exoscale_cloud_controlle.Agent.Liveness.{added, names, run-handled, run-unwatched}
use exoscale_cloud_controlle.Tests.World.{account, account_nlb, kube}

abbrev pub own : Override
own = record {
  name = "node-x";
  external = true;
  external_id = "";
  type = "";
  addresses = [];
  region = "";
}

abbrev pub matching : Matching
matching = record { regexp_match = λ pattern text. some true; sha256_hex = λ s. s }

abbrev pub provider : Provider LoadBalancer
provider = record {
  client = account;
  kube = kube;
  matching = matching;
  instances = record { disabled = false; overrides = own ∷ []; external_only = false };
  zone = "ch-gva-2";
}

abbrev offline : Provider LoadBalancer
offline = record provider {
  instances = record { disabled = false; overrides = own ∷ []; external_only = true };
}

abbrev node : Node
node = record {
  name = "node-a";
  annotations = [];
  provider_id = "exoscale://vm-1";
  system_uuid = "vm-1";
}

abbrev certificates : Certificates LoadBalancer
certificates = record {
  pem_decode = λ s. some (record { type = "CERTIFICATE REQUEST"; bytes = s });
  parse_certificate_request =
      λ s. ok (record { dns_names = "node-a" ∷ []; ip_addresses = "194.182.0.9" ∷ [] });
  update_approval = λ csr w. (ok tt, w);
}

abbrev csr : Csr
csr = record {
  name = "csr-1";
  groups = "system:nodes" ∷ "system:authenticated" ∷ [];
  request = "pem";
  conditions = [];
}

approves : handle_csr provider certificates csr account_nlb ≡ (approved, account_nlb)
unfolding handle_csr has_required_groups has_groups is_decided string_eq parse_csr check_parsed
    check_names check_instances approve match_instances equal_fold addresses_of_instance
    provided_address all_known ◌>>=◌ account kube lookup node_of_instance
approves = refl

approved_only_example :
    (is_decided csr ≡ false)
    × All (λ g. Member g csr.groups) required_groups
    × Justified provider certificates csr account_nlb
approved_only_example = approved_only provider certificates csr account_nlb account_nlb approves

abbrev event : Event
event = record { type = "ADDED"; object = some csr }

abbrev watcher : Runner provider certificates
watcher = record { phase = watching; world = account_nlb; handled = [] }

abbrev waiting : Runner provider certificates
waiting = record { phase = connecting; world = account_nlb; handled = [] }

run-handled_example :
    names provider certificates (run provider certificates (received event ∷ []) watcher).handled
    ≡ added event ++ []
run-handled_example = run-handled provider certificates (event ∷ []) watcher refl

run-unwatched_example : run provider certificates (cancelled ∷ watch_failed ∷ []) waiting ≡ waiting
run-unwatched_example =
    run-unwatched provider certificates (cancelled ∷ watch_failed ∷ []) waiting refl
      ((λ e. cc), ((λ e. cc), tt))

watching_phase :
    (run provider certificates (watch_started ∷ received event ∷ []) waiting).phase ≡ watching
unfolding run step step_in handle_event string_eq
watching_phase = refl

run-cancelled_example :
    run provider certificates
      (watch_started ∷ received event ∷ cancelled ∷ watch_started ∷ [])
      waiting
    ≡ record (run provider certificates (watch_started ∷ received event ∷ []) waiting) {
      phase = terminated;
    }
run-cancelled_example =
    run-cancelled provider certificates (watch_started ∷ received event ∷ []) (watch_started ∷ [])
      waiting watching_phase

provider_id_back_example :
    (found : Override) × (get_instance_override_by_provider_id matching provider.instances
        (external_metadata provider own).provider_id
      ≡ some found)
    × Member found (own ∷ [])
    × (effective_id matching found ≡ effective_id matching own)
provider_id_back_example = provider_id_back provider own (inl refl)

named : own.name ≢ ""
named e = let f : false ≡ true = ap is_empty e in cc

get_instance_override-named_example :
    (found : Override) × (get_instance_override matching provider.instances "node-x" ≡ some found)
    × Member found (own ∷ [])
    × (found.name ≡ "node-x")
get_instance_override-named_example =
    get_instance_override-named matching provider.instances own (inl refl) named

has_id : node.provider_id ≢ ""
has_id e = let f : false ≡ true = ap is_empty e in cc

unnamed : get_instance_override matching provider.instances node.name ≡ none
unfolding get_instance_override matches_pattern string_eq
unnamed = refl

v2_agrees_example :
    (instance_exists provider node ≡ instance_exists_by_provider_id provider "exoscale://vm-1")
    × (instance_shutdown provider node
        ≡ instance_shutdown_by_provider_id provider "exoscale://vm-1")
v2_agrees_example = v2_agrees provider node has_id unnamed

disabled-Untouched_example : NodeUntouched offline node × NameUntouched offline "node-a"
disabled-Untouched_example = disabled-Untouched offline node "node-a" refl

remove_invalid-AllLabelChars_example : AllLabelChars (remove_invalid "gpu2 (huge)")
remove_invalid-AllLabelChars_example = remove_invalid-AllLabelChars "gpu2 (huge)"

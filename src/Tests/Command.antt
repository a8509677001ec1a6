-- ===== src/Tests/Command.antt =====
-- A run of the command with two flags.
use exoscale_cloud_controlle.Base.{
  String, true, some, List, [], ◌∷◌, ok, if◌then◌else◌, ◌==◌, string_eq,
}
use exoscale_cloud_controlle.Client.Command.{
  Cli, CompletedConfig, Ended, fatal, returned, started, failed,
}
use exoscale_cloud_controlle.Client.Entry.{CloudProvider}
use exoscale_cloud_controlle.Tests.Clients.{cloud_provider}

abbrev Flag : Type 0
Flag = String × String

abbrev configured : Unit {0} → List Flag → CompletedConfig
configured o [] = record { cloud_name = ""; cloud_config_file = ""; allow_untagged = true }
configured o ((name, value) ∷ flags) =
    if name == "cloud-provider"
    then record { cloud_name = value; cloud_config_file = ""; allow_untagged = true }
    else configured o flags

abbrev serve : CloudProvider → Ended
serve cloud = returned (ok tt)

abbrev cli : Cli (Unit {0}) Flag
cli = record {
  new_options = ok tt;
  flags = λ o. ("cloud-provider", "") ∷ ("v", "2") ∷ [];
  name = λ f. f.0;
  set = λ f v. ok (f.0, v);
  execute = λ o fs init. elim (init (configured o fs)) [
    | failed e ↦ fatal e
    | started cloud ↦ serve cloud
  ];
  init_cloud_provider = λ name file. ok (some cloud_provider);
}

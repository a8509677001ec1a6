-- ===== src/Client/Command.antt =====
-- The command (cmd/exoscale-cloud-controller-manager/main.go). The flags, the parsing of the command
-- line and the controllers are the Kubernetes libraries': a parameter.
pub mod Serves
use exoscale_cloud_controlle.Base.{
  String, ◌≡◌, refl, ◌∙◌, sym, ap, ◌↔◌, ◌≢◌, Bool, true, false, not, Option, none, some, List, [],
  ◌∷◌, ◌==◌, string_eq, if◌then◌else◌, Result, ok, err, Error, errorf, hidef, Bool-cases, inl, inr,
  Member, arith,
}
use exoscale_cloud_controlle.Client.Entry.{CloudProvider, provider_name, has_cluster_id}

-- What the initializer reads of `config.CompletedConfig`.
pub record CompletedConfig : Type 0 where
  pub cloud_name : String
  pub cloud_config_file : String
  pub allow_untagged : Bool

-- The initializer goes on with a provider, or it ends the program.
pub data Start : Type 0 where
  started : CloudProvider → Start
  failed : Error → Start

-- How the program ends, or a call that can end it.
pub data Ended : Type 0 where
  fatal : Error → Ended
  returned : Result (Unit {0}) → Ended

-- The libraries, with the command's options and flags.
pub record Cli (O F : Type 0) : Type 0 where
  -- `options.NewCloudControllerManagerOptions`
  pub new_options : Result O
  -- `command.Flags()`, in the order of `VisitAll`
  pub flags : O → List F
  pub name : F → String
  -- `flag.Value.Set`
  pub set : F → String → Result F
  -- `command.Execute`, which calls the initializer
  pub execute : O → List F → (CompletedConfig → Start) → Ended
  -- `cloudprovider.InitCloudProvider`, with the name and the configuration file
  pub init_cloud_provider : String → String → Result (Option CloudProvider)

module _ {O F : Type 0} (cli : Cli O F) where
  -- `cloudInitializer`
  unfoldable pub cloud_initializer : CompletedConfig → Start
  cloud_initializer config =
      elim (cli.init_cloud_provider config.cloud_name config.cloud_config_file) [
        | err e ↦ failed (hidef "Cloud provider could not be initialized: %v" [] e)
        | ok found ↦ elim found [
          | none ↦ failed (errorf "Cloud provider is nil" [])
          | some cloud ↦
              if not (has_cluster_id cloud)
              then if config.allow_untagged
                then started cloud
                else failed (errorf "no ClusterID found." [])
              else started cloud
        ]
      ]

  -- The function that `main` gives to `VisitAll`.
  unfoldable pub set_cloud_provider : F → Result F
  unfolding string_eq
  set_cloud_provider flag =
      if cli.name flag == "cloud-provider" then cli.set flag provider_name else ok flag

  -- The visit of all flags, which the first error ends.
  unfoldable pub visit_all : List F → Result (List F)
  visit_all [] = ok []
  visit_all (flag ∷ flags) = elim (set_cloud_provider flag) [
    | err e ↦ err e
    | ok flag' ↦ elim (visit_all flags) [ err e ↦ err e | ok flags' ↦ ok (flag' ∷ flags') ]
  ]

  -- The end of `main`.
  unfoldable pub finish : Ended → Ended
  finish (fatal e) = fatal e
  finish (returned (err e)) = fatal (hidef "cloud-controller-manger command failed: %s" [] e)
  finish (returned (ok u)) = returned (ok u)

  unfoldable pub main : Ended
  unfolding visit_all finish
  main = elim cli.new_options [
    | err e ↦ fatal (hidef "unable to initialize command options: %v" [] e)
    | ok options ↦ elim (visit_all (cli.flags options)) [
      | err e ↦ fatal (hidef "unable to set cloud-provider flag value: %s" [] e)
      | ok flags ↦ finish (cli.execute options flags cloud_initializer)
    ]
  ]

  -- What the initializer goes on with is what the libraries found; and as the provider never has a
  -- cluster ID, it goes on exactly if `AllowUntaggedCloud` is set.
  pub cloud_initializer-started :
      (config : CompletedConfig) (cloud : CloudProvider)
      → (cloud_initializer config ≡ started cloud) ↔ (
          (config.allow_untagged ≡ true)
          × (cli.init_cloud_provider config.cloud_name config.cloud_config_file ≡ ok (some cloud)))
  unfolding cloud_initializer
  cloud_initializer-started config cloud =
      (λ h. (ground arith, ground arith), λ (a, f). ground arith)

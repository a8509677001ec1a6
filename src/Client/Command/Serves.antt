-- ===== src/Client/Command/Serves.antt =====
-- Which provider the command starts, on a command line without arguments.
use exoscale_cloud_controlle.Base.{
  String, ◌≡◌, ◌≢◌, false, List, ◌==◌, string_eq, ok, Member, arith,
}
use exoscale_cloud_controlle.Client.Entry.{CloudProvider, provider_name}
use exoscale_cloud_controlle.Client.Command.{
  CompletedConfig, Start, started, failed, Ended, fatal, Cli,
}

pub other_name : (t u : String) → (t == u) ≡ false → t ≢ u
other_name t u e n = ground arith

-- What the libraries say of a command line without arguments: the config is what the flags say, the
-- initializer is called once with it, and the flag for the provider takes every text.
pub record IsDocumented {O F : Type 0} (cli : Cli O F) (value : F → String)
    (configured : O → List F → CompletedConfig) (serve : CloudProvider → Ended) : Type 0 where
  pub executed :
      (o : O) (fs : List F) (init : CompletedConfig → Start)
      → cli.execute o fs init
        ≡ (elim (init (configured o fs)) [ failed e ↦ fatal e | started cloud ↦ serve cloud ])
  pub told :
      (o : O) (fs : List F) (f : F) (v : String)
      → Member f fs
      → cli.name f ≡ "cloud-provider"
      → ((g : F) → Member g fs → cli.name g ≡ "cloud-provider" → value g ≡ v)
      → (configured o fs).cloud_name ≡ v
  pub taken :
      (f : F) (v : String)
      → cli.name f ≡ "cloud-provider"
      → (f' : F) × (cli.set f v ≡ ok f') × (cli.name f' ≡ "cloud-provider") × (value f' ≡ v)

module _ {O F : Type 0} (cli : Cli O F) (value : F → String)
    (configured : O → List F → CompletedConfig) (serve : CloudProvider → Ended)
    (documented : IsDocumented cli value configured serve) where
  -- The flags after the visit.
  abbrev AllSet : List F → List F → Type 0
  AllSet fs fs' =
      ((f : F)
        → Member f fs
        → cli.name f ≡ "cloud-provider"
        → (f' : F) × Member f' fs' × (cli.name f' ≡ "cloud-provider"))
      × ((f' : F) → Member f' fs' → cli.name f' ≡ "cloud-provider" → value f' ≡ provider_name)

  abbrev ended : Start → Ended
  ended (failed e) = fatal e
  ended (started cloud) = serve cloud

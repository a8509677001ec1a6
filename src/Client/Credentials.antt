-- ===== src/Client/Credentials.antt =====
-- How the client comes by its credentials, and how it refreshes them from a file
-- (exoscale/client.go, lines 34-115 and 128-225). Egoscale's own client, `C`, and the file are
-- parameters.
use Prim.Native.Nat.{bit_and}
use exoscale_cloud_controlle.Base.{
  ℕ, Result-cases, Bool-cases, inl, inr, ◌≡◌, refl, String, Bool, true, false, not, ◌&&◌, ◌||◌,
  Option, none, some, List, [], ◌∷◌, ◌==◌, string_eq, nat_eq, if◌then◌else◌, Result, ok, err, Error,
  errorf, hidef,
}
use exoscale_cloud_controlle.Client.Config.{GlobalConfig}

-- `exoscaleAPICredentials`
pub record ApiCredentials : Type 0 where
  pub api_key : String
  pub api_secret : String
  pub name : String

-- `refreshableExoscaleClient` without its lock. `exo` is nil until a client could be made.
pub record RefreshableClient (C : Type 0) : Type 0 where
  pub exo : Option C
  pub api_credentials : ApiCredentials
  pub api_endpoint : String

-- What the provider uses of egoscale's own client: `v3.NewClient` of a key, a secret and an endpoint
-- (the empty text: the default one), `GetZoneAPIEndpoint` and `WithEndpoint`.
pub record Egoscale (C : Type 0) : Type 0 where
  pub new_client : String → String → String → Result C
  pub zone_endpoint : C → String → Result String
  pub with_endpoint : C → String → C

-- `switchZoneCallback`
unfoldable pub switch_zone : {C : Type 0} → Egoscale C → C → String → Result C
switch_zone v3 client zone = if zone == "" then ok client else elim (v3.zone_endpoint client zone) [
  | err e ↦ err e
  | ok endpoint ↦ ok (v3.with_endpoint client endpoint)
]

-- What `os.Open` and the JSON decoder make of the file: a failure to open it is fatal.
pub data FileContent : Type 0 where
  unreadable : Error → FileContent
  undecodable : Error → FileContent
  decoded : ApiCredentials → FileContent

-- The program goes on, or it exits.
pub data Outcome (A : Type 0) : Type 0 where
  continues : A → Outcome A
  fatal : Error → Outcome A

-- `c.exo != nil`
abbrev pub is_made : {C : Type 0} → RefreshableClient C → Bool
is_made c = elim c.exo [ none ↦ false | some _ ↦ true ]

abbrev pub no_credentials : ApiCredentials
no_credentials = record { api_key = ""; api_secret = ""; name = "" }

-- What the `select` of `watchCredentialsFile` takes: an event of the folder, with the content that
-- the file has at that time, an error of the watcher, or the end of a channel or of the context.
pub data Input : Type 0 where
  event : String → ℕ → FileContent → Input
  watch_error : Input
  stopped : Input

-- `fsnotify.Create` and `fsnotify.Write` are the two lowest bits.
unfoldable pub is_refresh : String → String → ℕ → Bool
unfolding string_eq nat_eq
is_refresh path name op = name == path && (bit_and op 2 == 2 || bit_and op 1 == 1)

module _ {C : Type 0} (v3 : Egoscale C) (zone : String) where
  -- A client for the credentials, in the zone.
  unfoldable pub client_for : String → ApiCredentials → Result C
  unfolding switch_zone
  client_for endpoint credentials =
      elim (v3.new_client credentials.api_key credentials.api_secret endpoint) [
        | err e ↦ err e
        | ok c ↦ switch_zone v3 c zone
      ]

  -- `refreshCredentialsFromFile`: only a client that could be made replaces the old one.
  unfoldable pub refresh_credentials_from_file :
      FileContent → RefreshableClient C → Outcome (RefreshableClient C)
  unfolding client_for
  refresh_credentials_from_file (unreadable e) c = fatal e
  refresh_credentials_from_file (undecodable e) c = continues c
  refresh_credentials_from_file (decoded credentials) c =
      elim (client_for c.api_endpoint credentials) [
        | err e ↦ continues c
        | ok exo ↦ continues (record c { exo = some exo; api_credentials = credentials })
      ]

  -- `newRefreshableExoscaleClient`: the flag says whether the file is watched from then on.
  unfoldable pub new_refreshable_client :
      GlobalConfig → FileContent → Outcome (Result (RefreshableClient C × Bool))
  new_refreshable_client cfg file =
      let c : RefreshableClient C = record {
        exo = none;
        api_credentials = no_credentials;
        api_endpoint = cfg.api_endpoint;
      } in
      let credentials : ApiCredentials = record {
        api_key = cfg.api_key;
        api_secret = cfg.api_secret;
        name = "";
      } in
      if not (cfg.api_key == "") && not (cfg.api_secret == "")
      then elim (client_for cfg.api_endpoint credentials) [
        | err e ↦ continues (err e)
        | ok exo ↦
            continues (ok (record c { exo = some exo; api_credentials = credentials }, false))
      ]
      else if not (cfg.api_credentials_file == "")
      then elim (refresh_credentials_from_file file c) [
        | fatal e ↦ fatal e
        | continues c' ↦ continues (ok (c', true))
      ]
      else continues (err (errorf "incomplete or missing Exoscale API credentials" []))

  -- The case of an event: one that wrote or created the file refreshes the client.
  unfoldable pub on_event :
      String → String → ℕ → FileContent → RefreshableClient C → Outcome (RefreshableClient C)
  unfolding is_refresh refresh_credentials_from_file
  on_event path name op file c =
      if is_refresh path name op then refresh_credentials_from_file file c else continues c

  -- The loop of `watchCredentialsFile`.
  unfoldable pub watch_loop :
      String → List Input → RefreshableClient C → Outcome (RefreshableClient C)
  watch_loop path [] c = continues c
  watch_loop path (stopped ∷ inputs) c = continues c
  watch_loop path (watch_error ∷ inputs) c = watch_loop path inputs c
  watch_loop path (event name op file ∷ inputs) c = elim (on_event path name op file c) [
    | fatal e ↦ fatal e
    | continues c' ↦ watch_loop path inputs c'
  ]

  -- `watchCredentialsFile`, with what `fsnotify.NewWatcher` and then `watcher.Add` for the file's folder
  -- answer; a failure of either ends the program.
  unfoldable pub watch_credentials_file :
      Result (Unit {0})
      → Result (Unit {0})
      → String
      → List Input
      → RefreshableClient C
      → Outcome (RefreshableClient C)
  unfolding watch_loop
  watch_credentials_file new_watcher added path inputs c = elim new_watcher [
    | err e ↦ fatal (hidef "failed to watch credentials file %q: %v" (path ∷ []) e)
    | ok _ ↦ elim added [
      | err e ↦ fatal (hidef "failed to watch credentials file %q: %v" (path ∷ []) e)
      | ok _ ↦ watch_loop path inputs c
    ]
  ]

  -- The client is the one that egoscale makes for the credentials in place.
  abbrev pub IsConsistent : RefreshableClient C → Type 0
  IsConsistent c = elim c.exo [
    | none ↦ Unit {0}
    | some x ↦ client_for c.api_endpoint c.api_credentials ≡ ok x
  ]

  -- What a call that goes on has kept.
  abbrev pub Kept : Bool → Outcome (RefreshableClient C) → Type 0
  Kept made (fatal e) = Unit {0}
  Kept made (continues c) = (made ≡ true → is_made c ≡ true) × IsConsistent c

  pub refresh-Kept :
      (file : FileContent) (c : RefreshableClient C)
      → IsConsistent c
      → Kept (is_made c) (refresh_credentials_from_file file c)
  unfolding refresh_credentials_from_file
  refresh-Kept (unreadable x) c h = tt
  refresh-Kept (undecodable x) c h = ((λ e. e), h)
  refresh-Kept (decoded k) c h = elim (Result-cases (client_for c.api_endpoint k)) [
    | inl (x, e) ↦ rw (e, Kept) ((λ _. refl), e)
    | inr (x, e) ↦ rw (e, Kept) ((λ f. f), h)
  ]

  on_event-Kept :
      (path name : String) (op : ℕ) (file : FileContent) (c : RefreshableClient C)
      → IsConsistent c
      → Kept (is_made c) (on_event path name op file c)
  unfolding on_event
  on_event-Kept path name op file c h = elim (Bool-cases (is_refresh path name op)) [
    | inl e ↦ rw (e, Kept) (refresh-Kept file c h)
    | inr e ↦ rw (e, Kept) ((λ f. f), h)
  ]

  Kept-mono :
      (made made' : Bool) (o : Outcome (RefreshableClient C))
      → (made ≡ true → made' ≡ true)
      → Kept made' o
      → Kept made o
  Kept-mono made made' (fatal e) f h = tt
  Kept-mono made made' (continues c) f (g, h) = ((λ e. g (f e)), h)

  Kept-then :
      (made : Bool) (o : Outcome (RefreshableClient C))
      (k : RefreshableClient C → Outcome (RefreshableClient C))
      → Kept made o
      → ((c : RefreshableClient C) → IsConsistent c → Kept (is_made c) (k c))
      → Kept made (elim o [ fatal e ↦ fatal e | continues c ↦ k c ])
  Kept-then made (fatal e) k h next = tt
  Kept-then made (continues c) k (f, h) next = Kept-mono made (is_made c) (k c) f (next c h)

  watch_loop-Kept :
      (path : String) (inputs : List Input) (c : RefreshableClient C)
      → IsConsistent c
      → Kept (is_made c) (watch_loop path inputs c)
  unfolding watch_loop
  watch_loop-Kept path [] c h = ((λ e. e), h)
  watch_loop-Kept path (stopped ∷ inputs) c h = ((λ e. e), h)
  watch_loop-Kept path (watch_error ∷ inputs) c h = watch_loop-Kept path inputs c h
  watch_loop-Kept path (event name op file ∷ inputs) c h =
      Kept-then (is_made c) (on_event path name op file c) (watch_loop path inputs)
        (on_event-Kept path name op file c h) (λ c'. watch_loop-Kept path inputs c')

  -- Whatever the watcher reports, from a client that is made for the credentials in place: as long as
  -- the program goes on, a client that has been made is not lost, and the client is the one made for
  -- the credentials.
  pub watch-Kept :
      (new_watcher added : Result (Unit {0})) (path : String) (inputs : List Input)
      (c : RefreshableClient C)
      → IsConsistent c
      → Kept (is_made c) (watch_credentials_file new_watcher added path inputs c)
  unfolding watch_credentials_file
  watch-Kept (err e) added path inputs c h = tt
  watch-Kept (ok _) (err e) path inputs c h = tt
  watch-Kept (ok _) (ok _) path inputs c h = watch_loop-Kept path inputs c h

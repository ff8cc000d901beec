-- ===== src/Api/Start.antt =====
-- The start of the service: `run` of src/api.rs up to the socket that it listens on.
use unidpp_archive.Prelude.{◌≡◌, All, refl, Bool, true, false, Option, List, [], ◌∷◌, ◌++◌, map}
use unidpp_archive.Result.{Result, ok, ◌>>=◌, is_some}
use unidpp_archive.Text.{Str, text}
use unidpp_archive.External.{External, Documented}
use unidpp_archive.LogAnchor.{is_enabled}
use unidpp_archive.Keyring.{Keyring, KeyringMode, seeded_dev, env_key}
use unidpp_archive.Model.Journal.Readable.{IsReadable}
use unidpp_archive.Store.Files.{Disk, Io}
use unidpp_archive.Store.Opening.{StoreError, SnapshotStore}
use unidpp_archive.Store.Append.{AllDone, IsConsistent}
use unidpp_archive.Store.Restart.{open_store-IsConsistent}
use unidpp_archive.Api.Config.{Config, Environment, from_env, AppState, keyring_from_env, new_state}

unfoldable pub mode_message : KeyringMode → List Str
mode_message seeded_dev =
    text
      "unidpp-archive: WARNING running with seeded-dev keyring (set UNIDPP_ARCHIVE_SIGN_SEED for production)"
    ∷ []
mode_message env_key = []

unfoldable pub log_message : Bool → List Str
log_message true = []
log_message false =
    text "unidpp-archive: log anchoring disabled (set UNIDPP_LOG_URL to anchor snapshots)" ∷ []

module _ (x : External) {Addr : Type 0} (parse_addr : Str → Option Addr) (first_bind : Addr) where
  open x use {Hash, KeyPair}

  -- What is printed before the store is opened.
  unfoldable pub messages : Config Addr → Keyring KeyPair → List Str → List Str
  messages config k warnings =
      map (λ w. text "unidpp-archive: " ++ w) warnings
      ++ mode_message k.mode
      ++ log_message (is_enabled config.log)

  unfoldable pub start_with :
      Io
      → Config Addr
      → Disk
      → Keyring KeyPair × List Str
      → List Str × Result StoreError (AppState Addr Hash KeyPair) × Disk
  start_with io config d (k, warnings) =
      let (opened, d') = new_state x io config k d in (messages config k warnings, opened, d')

  -- The messages, and the state or why the store does not open; or the panic of a keyring that is not
  -- derived.
  unfoldable pub start :
      Environment
      → Io
      → Disk
      → Result Str (List Str × Result StoreError (AppState Addr Hash KeyPair) × Disk)
  start env io d = do
    let config = from_env parse_addr first_bind env
    resolved ← keyring_from_env x env config.dev_seed
    ok (start_with io config d resolved)

module _ (x : External) (documented : Documented x) {Addr : Type 0} (parse_addr : Str → Option Addr)
    (first_bind : Addr) where
  open x use {Hash, KeyPair}

  new_state-IsConsistent :
      (io : Io) (config : Config Addr) (k : Keyring KeyPair) (s : SnapshotStore Hash) (d : Disk)
      → is_some config.state_file ≡ true
      → is_some config.snapshot_dir ≡ true
      → AllDone io
      → IsConsistent x s d
      → All IsReadable s.records
      → new_state x io config k d ≡ (ok (record { config = config; store = s; keyring = k }), d)
  unfolding new_state
  new_state-IsConsistent io config k s d journal dir fine h readable =
      rw (journal, dir, open_store-IsConsistent x documented io s d fine h readable) refl

  -- For a documented external library, a service that is started in an environment that names a
  -- journal and a snapshot directory, on the files that are in step with an index, with every call of
  -- the operating system succeeding, a keyring that is resolved, and receipts that are read back
  -- (nested at most 125 deep, and with no other number than a `u64`), holds that index, and leaves
  -- the files as they are.
  pub start-IsConsistent :
      (env : Environment) (io : Io) (k : Keyring KeyPair) (warnings : List Str)
      (s : SnapshotStore Hash) (d : Disk)
      → is_some (from_env parse_addr first_bind env).state_file ≡ true
      → is_some (from_env parse_addr first_bind env).snapshot_dir ≡ true
      → keyring_from_env x env (from_env parse_addr first_bind env).dev_seed ≡ ok (k, warnings)
      → AllDone io
      → IsConsistent x s d
      → All IsReadable s.records
      → start x parse_addr first_bind env io d
        ≡ ok (
          messages x parse_addr first_bind (from_env parse_addr first_bind env) k warnings,
          ok (record { config = from_env parse_addr first_bind env; store = s; keyring = k }),
          d,
        )
  unfolding start start_with
  start-IsConsistent env io k warnings s d journal dir resolved fine h readable =
      rw
        (
          resolved,
          new_state-IsConsistent io (from_env parse_addr first_bind env) k s d journal dir fine h
              readable,
        )
        refl

-- ===== src/Api/Config.antt =====
-- The configuration and the start of src/api.rs: `Config`, `AppState`, and the paths of the router.
-- What the environment holds is an argument; so are the addresses of sockets and their parser.
pub mod Contract
use unidpp_archive.Prelude.{◌≡◌, refl, ap, ap₂, not, Option, none, some, List, [], ◌∷◌, All}
use unidpp_archive.Result.{Result, ok, err, and_then, keep_if, is_some, unwrap_or}
use unidpp_archive.Text.{Str, text, is_empty}
use unidpp_archive.External.{External}
use unidpp_archive.LogAnchor.{LogAnchorConfig, Vars, var, from_env_map, disabled}
use unidpp_archive.Keyring
use unidpp_archive.Keyring.{Keyring}
use unidpp_archive.Store.Files.{Disk, Io}
use unidpp_archive.Store.Opening.{StoreError, SnapshotStore, open_store}

abbrev pub default_bind : Str
default_bind = text "127.0.0.1:8095"

-- `Config::ENV_KEYS`
abbrev pub env_keys : List Str
env_keys =
    text "UNIDPP_ARCHIVE_BIND"
    ∷ text "UNIDPP_ARCHIVE_ADMIN_TOKEN"
    ∷ text "UNIDPP_ARCHIVE_STATE_FILE"
    ∷ text "UNIDPP_ARCHIVE_SNAPSHOT_DIR"
    ∷ text "UNIDPP_ARCHIVE_DEV_SEED"
    ∷ text "UNIDPP_ARCHIVE_SIGN_SEED"
    ∷ text "UNIDPP_LOG_URL"
    ∷ text "UNIDPP_ARCHIVE_LOG_TOKEN"
    ∷ text "UNIDPP_ARCHIVE_LOG_TIMEOUT_MS"
    ∷ []

-- The value of each variable of the environment, if it is set to a text.
abbrev pub Environment : Type 0
Environment = Str → Option Str

abbrev with_value : Str → Option Str → Vars → Vars
with_value key none vars = vars
with_value key (some value) vars = (key, value) ∷ vars

unfoldable pub values_of : Environment → List Str → Vars
values_of env [] = []
values_of env (key ∷ keys) = with_value key (env key) (values_of env keys)

-- `Config::env_values`
unfoldable pub env_values : Environment → Vars
unfolding values_of
env_values env = values_of env env_keys

pub record Config (Addr : Type 0) : Type 0 where
  pub bind : Addr
  pub admin_token : Option Str
  pub state_file : Option Str
  pub snapshot_dir : Option Str
  pub dev_seed : Option Str
  pub log : LogAnchorConfig

module _ {Addr : Type 0} (parse_addr : Str → Option Addr) (first_bind : Addr) where
  -- `Config::default`, where `first_bind` is what `default_bind` is parsed to.
  abbrev pub default : Config Addr
  default = record {
    bind = first_bind;
    admin_token = none;
    state_file = none;
    snapshot_dir = none;
    dev_seed = none;
    log = disabled;
  }

  abbrev set_value : Vars → Str → Option Str
  set_value vars key = keep_if (var vars key) (λ s. not (is_empty s))

  -- `Config::from_env`, of the variables that were collected; a bad address is passed over.
  unfoldable pub from_vars : Vars → Config Addr
  unfolding var text from_env_map
  from_vars vars = record {
    bind = unwrap_or (and_then (var vars (text "UNIDPP_ARCHIVE_BIND")) parse_addr) default.bind;
    admin_token = set_value vars (text "UNIDPP_ARCHIVE_ADMIN_TOKEN");
    state_file = set_value vars (text "UNIDPP_ARCHIVE_STATE_FILE");
    snapshot_dir = set_value vars (text "UNIDPP_ARCHIVE_SNAPSHOT_DIR");
    dev_seed = set_value vars (text "UNIDPP_ARCHIVE_DEV_SEED");
    log = from_env_map vars;
  }

  unfoldable pub from_env : Environment → Config Addr
  unfolding env_values from_vars
  from_env env = from_vars (env_values env)

  values_of-agree :
      (env env' : Environment) (keys : List Str)
      → All (λ key. env key ≡ env' key) keys
      → values_of env keys ≡ values_of env' keys
  unfolding values_of
  values_of-agree env env' [] h = refl
  values_of-agree env env' (key ∷ keys) h =
      ap₂ (with_value key) h.0 (values_of-agree env env' keys h.1)

  -- Two environments that agree on the variables of the contract give the same configuration.
  pub from_env-agree :
      (env env' : Environment)
      → All (λ key. env key ≡ env' key) env_keys
      → from_env env ≡ from_env env'
  unfolding from_env env_values
  from_env-agree env env' h = ap from_vars (values_of-agree env env' env_keys h)

-- `AppState`; the locks are not in it.
pub record AppState (Addr Hash KeyPair : Type 0) : Type 0 where
  pub config : Config Addr
  pub store : SnapshotStore Hash
  pub keyring : Keyring KeyPair

module _ (x : External) where
  open x use {KeyPair}

  -- `Keyring::from_env`, with the seed of the configuration.
  unfoldable pub keyring_from_env :
      Environment → Option Str → Result Str (Keyring KeyPair × List Str)
  unfolding env_values var text
  keyring_from_env env dev_seed =
      Keyring.from_env_map x dev_seed (var (env_values env) (text "UNIDPP_ARCHIVE_SIGN_SEED"))

module _ (x : External) {Addr : Type 0} where
  open x use {Hash, KeyPair}

  abbrev with_store :
      Config Addr
      → Keyring KeyPair
      → Result StoreError (SnapshotStore Hash) × Disk
      → Result StoreError (AppState Addr Hash KeyPair) × Disk
  with_store config keyring (ok s, d) =
      (ok (record { config = config; store = s; keyring = keyring }), d)
  with_store config keyring (err e, d) = (err e, d)

  -- `AppState::new`
  unfoldable pub new_state :
      Io
      → Config Addr
      → Keyring KeyPair
      → Disk
      → Result StoreError (AppState Addr Hash KeyPair) × Disk
  unfolding open_store
  new_state io config keyring d =
      with_store config keyring
        (open_store x io (is_some config.state_file) (is_some config.snapshot_dir) d)

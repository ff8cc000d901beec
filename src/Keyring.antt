-- ===== src/Keyring.antt =====
-- src/keyring.rs: the notary's key, from the environment or from the development seed.
pub mod Resolves
pub mod View
use unidpp_archive.Prelude.{ℕ, Option, none, some, List, [], ◌∷◌, ◌++◌, ltb, if◌then◌else◌, length}
use unidpp_archive.Result.{Result, ok, err, ◌>>=◌, ◌>>◌, map_err, fail_if}
use unidpp_archive.Text.{Str, text, trim, is_empty}
use unidpp_archive.Text.Decimal.{to_string}
use unidpp_archive.Hex.{hex_decode}
use unidpp_archive.External.{External}

pub data KeyringMode : Type 0 where
  seeded_dev env_key : KeyringMode

unfoldable pub as_str : KeyringMode → Str
as_str seeded_dev = text "seeded-dev"
as_str env_key = text "env-key"

pub record Keyring (KeyPair : Type 0) : Type 0 where
  pub mode : KeyringMode
  pub notary_key : KeyPair
  pub dev_seed : Option Str

abbrev default_dev_seed : Str
default_dev_seed = text "unidpp-archive/dev-1"

abbrev pub min_seed_bytes : ℕ
min_seed_bytes = 16

unfoldable pub dev_seed_of : Option Str → Str
dev_seed_of none = default_dev_seed
dev_seed_of (some s) = if is_empty (trim s) then default_dev_seed else trim s

module _ (x : External) where
  open x use {KeyPair, seeded}

  -- `Keyring::dev`, which expects that a key is derived: an error is a panic.
  unfoldable pub dev : Option Str → Result Str (Keyring KeyPair)
  dev seed = do
    key ← seeded (text "unidpp-archive/notary|" ++ dev_seed_of seed)
    ok (record { mode = seeded_dev; notary_key = key; dev_seed = some (dev_seed_of seed) })

  unfoldable pub from_env_seed : Str → Result Str (Keyring KeyPair)
  from_env_seed ed_hex = do
    seed ← map_err (λ e. text "notary seed: not hex: " ++ e) (hex_decode (trim ed_hex))
    fail_if (ltb (length seed) min_seed_bytes) (
        text "notary seed too short: "
        ++ to_string (length seed)
        ++ text " bytes (need at least "
        ++ to_string min_seed_bytes
        ++ text ")")
    key ← map_err (λ e. text "Ed25519 key derivation: " ++ e) (seeded seed)
    ok (record { mode = env_key; notary_key = key; dev_seed = none })

  -- A key with the warnings, or the panic of `dev`.
  unfoldable pub kept_or_dev :
      Option Str → Result Str (Keyring KeyPair) → Result Str (Keyring KeyPair × List Str)
  kept_or_dev dev_seed (ok k) = ok (k, [])
  kept_or_dev dev_seed (err e) = do
    k ← dev dev_seed
    ok (
      k,
      (text "UNIDPP_ARCHIVE_SIGN_SEED rejected: " ++ e ++ text "; falling back to seeded-dev mode")
          ∷ [],
    )

  -- The variable `UNIDPP_ARCHIVE_SIGN_SEED` is an argument.
  unfoldable pub from_env_map : Option Str → Option Str → Result Str (Keyring KeyPair × List Str)
  from_env_map dev_seed none = do k ← dev dev_seed; ok (k, [])
  from_env_map dev_seed (some seed) =
      if is_empty (trim seed)
      then (do k ← dev dev_seed; ok (k, []))
      else kept_or_dev dev_seed (from_env_seed seed)

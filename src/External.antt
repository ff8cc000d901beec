-- ===== src/External.antt =====
-- What the archive uses of code that is not in this repository: `serde_json`, `unidpp_model` and
-- `unidpp_signatif`. Each function is a parameter; `Documented` states what the archive relies on.
use unidpp_archive.Prelude.{ℕ, ◌≡◌, ◌↔◌, Bool, true, Option, some, List, All}
use unidpp_archive.Prelude.Int.{ℤ}
use unidpp_archive.Result.{Result, ok}
use unidpp_archive.Text.{Str}
use unidpp_archive.Text.Lines.{IsLineByte, is_utf8}
use unidpp_archive.Json.{Value, is_readable}

pub record External : Type 1 where
  -- `serde_json::from_str`; the error is its message.
  pub from_str : Str → Result Str Value
  -- `serde_json::to_string`
  pub to_line : Value → Result Str Str
  -- `Value::to_string`
  pub display : Value → Str
  -- `serde_json::to_string_pretty`, which the source unwraps.
  pub to_string_pretty : Value → Str
  -- `unidpp_model::Hash`: 32 bytes, the hash of zeros, equality, `hex` and `from_hex`.
  pub Hash : Type 0
  pub zero_hash : Hash
  pub eq_hash : Hash → Hash → Bool
  pub hex : Hash → Str
  pub from_hex : Str → Option Hash
  -- `unidpp_model::sha256` of the concatenation of slices.
  pub sha256 : List (List ℕ) → Hash
  -- `unidpp_model::CanonicalWriter`
  pub Writer : Type 0
  pub new_writer : Writer
  pub write_str : Str → Writer → Writer
  pub write_u64 : ℕ → Writer → Writer
  pub write_u32 : ℕ → Writer → Writer
  pub write_i64 : ℤ → Writer → Writer
  pub write_hash : Hash → Writer → Writer
  pub write_bytes_raw : List ℕ → Writer → Writer
  pub into_bytes : Writer → List ℕ
  -- `unidpp_signatif::keyring`: key pairs, their public keys and the text of their key ids.
  pub KeyPair : Type 0
  pub PublicKey : Type 0
  pub public : KeyPair → PublicKey
  pub key_id : KeyPair → Str
  -- `Suite::Ed25519.as_str()`, the text of the one suite that the archive uses.
  pub ed25519 : Str
  -- `KeyPair::seeded` for the suite Ed25519.
  pub seeded : List ℕ → Result Str KeyPair
  -- `PublicKey::as_bytes`
  pub as_bytes : PublicKey → List ℕ
  -- `unidpp_signatif::sign`: the tree-head domain, the signature of `SignatureSlot::sign`, and
  -- `SignatureSlot::verify` of a signature.
  pub SigningDomain : Type 0
  pub tree_head : SigningDomain
  pub sign : KeyPair → SigningDomain → List ℕ → Result Str (Option (List ℕ))
  pub verify : PublicKey → SigningDomain → List ℕ → List ℕ → Bool

-- What the archive relies on.
pub record Documented (x : External) : Type 0 where
  -- A printed value is read back when its arrays and objects are nested at most 127 deep (the
  -- parser's recursion limit is 128) and its numbers are `u64` (without the feature
  -- `float_roundtrip`, a float may be read as another one). Its text is one line of UTF-8.
  pub from_str-to_line :
      (v : Value) (s : Str) → is_readable 127 v ≡ true → x.to_line v ≡ ok s → x.from_str s ≡ ok v
  pub to_line-IsLine : (v : Value) (s : Str) → x.to_line v ≡ ok s → All IsLineByte s
  pub to_line-is_utf8 : (v : Value) (s : Str) → x.to_line v ≡ ok s → is_utf8 s ≡ true
  -- Every value is printed.
  pub to_line-ok : (v : Value) → (s : Str) × (x.to_line v ≡ ok s)
  -- Hashes are read back from their text, and compared exactly.
  pub from_hex-hex : (h : x.Hash) → x.from_hex (x.hex h) ≡ some h
  pub eq_hash_iff : (g h : x.Hash) → (x.eq_hash g h ≡ true) ↔ (g ≡ h)
  -- A signature that the notary made verifies with the notary's public key.
  pub verify-sign :
      (k : x.KeyPair) (message signature : List ℕ)
      → x.sign k x.tree_head message ≡ ok (some signature)
      → x.verify (x.public k) x.tree_head message signature ≡ true

-- ===== src/Keyring/View.antt =====
-- The public view of the keyring in src/keyring.rs: what a verifier pins.
use unidpp_archive.Prelude.{Option, none, some, List, [], ◌∷◌, ◌++◌, length}
use unidpp_archive.Text.{Str, text}
use unidpp_archive.Hex.{hex_encode}
use unidpp_archive.Json.{Value, num, str, object}
use unidpp_archive.External.{External}
use unidpp_archive.Model.Document.{adapter_note}
use unidpp_archive.Keyring.{Keyring}
use unidpp_archive.Keyring

abbrev view_recipe : Str
view_recipe =
    text
      "Every snapshot document embeds oais.provenance.signature: Ed25519 over the canonical statement bytes in the tree-head domain. Rebuild the bytes per the discovery document's notarization recipe and verify with unidpp_signatif SignatureSlot::verify against this `public` anchor."

-- The entries that a development seed adds.
unfoldable pub dev_entries : Option Str → List (Str × Value)
dev_entries none = []
dev_entries (some seed) =
    (text "dev_seed", str seed)
    ∷ (
      text "warning",
      str (
          text
            "seeded-dev mode is for development only; production deployments must use env-key mode"),
    )
    ∷ []

module _ (x : External) where
  open x use {KeyPair, public, key_id, as_bytes, ed25519}

  unfoldable pub public_hex : Keyring KeyPair → Str
  public_hex k = hex_encode (as_bytes (public k.notary_key))

  -- `Keyring::to_json`
  unfoldable pub to_json : Keyring KeyPair → Value
  to_json k = object (
      ((text "mode", str (Keyring.as_str k.mode))
        ∷ (text "role", str (text "notary"))
        ∷ (text "suite", str ed25519)
        ∷ (text "key_id", str (key_id k.notary_key))
        ∷ (text "public", str (public_hex k))
        ∷ (text "public_len", num (length (as_bytes (public k.notary_key))))
        ∷ (text "domain", str (text "tree-head"))
        ∷ (text "adapter_note", str adapter_note)
        ∷ (text "verification", str view_recipe)
        ∷ [])
      ++ dev_entries k.dev_seed)

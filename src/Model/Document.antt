-- ===== src/Model/Document.antt =====
-- The served document of src/model.rs.
use unidpp_archive.Prelude.{[], ◌∷◌}
use unidpp_archive.Text.{Str, text}
use unidpp_archive.Hex.{hex_encode}
use unidpp_archive.Time
use unidpp_archive.Json.{Value, num, str, object, optional}
use unidpp_archive.External.{External}
use unidpp_archive.Model.Anchoring.{anchoring_to_document_json}
use unidpp_archive.Model.Record.{service_id, SnapshotRecord, statement_bytes}

abbrev pub schema : Str
schema = text "unidpp-archive/snapshot/1"

abbrev pub oais_profile : Str
oais_profile = text "ISO 14721 (OAIS) simplified for digital product passports"

abbrev pub adapter_note : Str
adapter_note =
    text
      "SIGNATIF has no archival-notarization domain; tree-head (the operator's signed statement of state, used for transparency-log signed tree heads) is the closest documented adaptation — the same adapter note as unidpp-trust. signatif's HistoricalStamp domain ('a notarized historical verification stamp') is the semantically exact slot; adoption is deferred to the 19-signatif-spec-sync divergence register. The signature covers the canonical statement bytes and is embedded in the document so the AIP is self-verifying."

abbrev verification_recipe : Str
verification_recipe =
    text
      "Rebuild the canonical statement bytes (discovery document, notarization.statement_recipe) and verify with unidpp_signatif SignatureSlot::verify(SigningDomain::TreeHead, bytes, public) against the /keyring anchor."

module _ (x : External) where
  open x use {ed25519, Hash, hex, sha256, to_string_pretty}

  -- `oais.submission`
  unfoldable pub submission : SnapshotRecord Hash → Value
  submission r = object (
      (text "submitter", optional str r.submitter)
      ∷ (text "submitted_at", str (Time.to_string r.notarized_at))
      ∷ (text "passport_id", str r.passport_id)
      ∷ (text "state_hash", str (hex r.state_hash))
      ∷ (text "log_head", str (hex r.log_head))
      ∷ (text "state_size", optional num r.state_size)
      ∷ [])

  -- `oais.information_package`
  unfoldable pub information_package : SnapshotRecord Hash → Value
  information_package r = object (
      (text "passport_id", str r.passport_id)
      ∷ (text "state_hash", str (hex r.state_hash))
      ∷ (text "log_head", str (hex r.log_head))
      ∷ (text "as_of", str (Time.to_string r.notarized_at))
      ∷ (text "commitment", optional (λ h. str (hex h)) r.anchoring.commitment)
      ∷ (text "statement_digest", str (hex (sha256 (statement_bytes x r ∷ []))))
      ∷ [])

  -- `oais.provenance`
  unfoldable pub provenance : SnapshotRecord Hash → Value
  provenance r = object (
      (text "service", str service_id)
      ∷ (text "notarized_at", str (Time.to_string r.notarized_at))
      ∷ (
        text "signing",
        object (
            (text "suite", str ed25519)
            ∷ (text "key_id", str r.key_id)
            ∷ (text "domain", str (text "tree-head"))
            ∷ (text "adapter_note", str adapter_note)
            ∷ []),
      )
      ∷ (text "anchoring", anchoring_to_document_json x r.anchoring)
      ∷ (text "receipt", optional (λ v. v) r.anchoring.receipt)
      ∷ (text "signature", str (hex_encode r.signature))
      ∷ (text "verification", str verification_recipe)
      ∷ [])

  unfoldable pub to_document : SnapshotRecord Hash → Value
  unfolding submission information_package provenance
  to_document r = object (
      (text "schema", str schema)
      ∷ (text "service", str service_id)
      ∷ (text "snapshot_id", str r.snapshot_id)
      ∷ (text "seq", num r.seq)
      ∷ (text "as_of", str (Time.to_string r.notarized_at))
      ∷ (
        text "oais",
        object (
            (text "profile", str oais_profile)
            ∷ (text "submission", submission r)
            ∷ (text "information_package", information_package r)
            ∷ (text "provenance", provenance r)
            ∷ []),
      )
      ∷ [])

  -- The served bytes.
  unfoldable pub render_body : SnapshotRecord Hash → Str
  render_body r = to_string_pretty (to_document r)

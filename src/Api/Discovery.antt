-- ===== src/Api/Discovery.antt =====
-- The discovery document of src/api.rs. The version and the build id are of the build.
use unidpp_archive.Prelude.{Bool, Option, [], ◌∷◌}
use unidpp_archive.Result.{unwrap_or}
use unidpp_archive.Text.{Str, text}
use unidpp_archive.Time.{Timestamp}
use unidpp_archive.Json.{Value, bool, str, array, object}
use unidpp_archive.External.{External}
use unidpp_archive.Model.Record.{service_id}
use unidpp_archive.Model.Document.{schema, oais_profile, adapter_note}
use unidpp_archive.Store.Audit.{items}
use unidpp_archive.Api.Requests.{current}
use unidpp_archive.Api.Responses.{Response, json_response}

unfoldable pub discovery_document_sections : Value
discovery_document_sections = object (
    (
      text "oais.submission",
      str (
          text
            "the SIP: submitter, submitted_at, and the submitted {passport_id, state_hash, log_head, state_size}"),
    )
    ∷ (
      text "oais.information_package",
      str (
          text
            "the AIP content: passport state, log head, the as_of instant, the commitment and statement digests"),
    )
    ∷ (
      text "oais.provenance",
      str (
          text
            "the PDI: notarization (key id, signature), anchoring outcome and the verbatim log receipt"),
    )
    ∷ [])

unfoldable pub discovery_mapping : Value
discovery_mapping = object (
    (
      text "producer",
      str (
          text
            "the issuer submitting {passport_id, state_hash, log_head} (POST /snapshots body = the SIP)"),
    )
    ∷ (
      text "ingest",
      str (
          text
            "POST /snapshots: validate, timestamp, notarize (sign), optionally anchor into the transparency log"),
    )
    ∷ (
      text "archival_storage",
      str (
          text
            "the JSONL journal (source of truth) + one AIP file per snapshot under the snapshot directory"),
    )
    ∷ (text "data_management", str (text "GET /snapshots?passport_id=&at= — the as-of catalogue"))
    ∷ (
      text "access",
      str (
          text
            "GET /snapshots/{id} — re-serves the AIP byte-identically (access never changes the AIP)"),
    )
    ∷ (text "administration", str (text "GET /keyring, GET /admin/log, Bearer-guarded ingest"))
    ∷ (text "document_sections", discovery_document_sections)
    ∷ [])

unfoldable pub discovery_oais : Value
discovery_oais =
    object ((text "profile", str oais_profile) ∷ (text "mapping", discovery_mapping) ∷ [])

unfoldable pub discovery_endpoints : Value
discovery_endpoints = object (
    (text "discovery", str (text "GET /"))
    ∷ (text "health", str (text "GET /healthz"))
    ∷ (text "keyring", str (text "GET /keyring"))
    ∷ (text "ingest", str (text "POST /snapshots"))
    ∷ (text "snapshot", str (text "GET /snapshots/{id}"))
    ∷ (text "listing", str (text "GET /snapshots?passport_id=&at="))
    ∷ (text "admin_log", str (text "GET /admin/log?limit=&offset="))
    ∷ [])

unfoldable pub discovery_notarization : Value
discovery_notarization = object (
    (text "suite", str (text "ed25519"))
    ∷ (text "domain", str (text "tree-head"))
    ∷ (text "adapter_note", str adapter_note)
    ∷ (text "keyring_endpoint", str (text "/keyring"))
    ∷ (
      text "statement_recipe",
      array (
          items (
            str (
              text
                "core = CanonicalWriter: str(\"unidpp-archive\"), str(snapshot_id), u64(seq), str(oais.information_package.passport_id), hash(state_hash), hash(log_head), i64(as_of.secs)")
            ∷ str (
                text
                  "if oais.provenance.anchoring.status == \"anchored\": append u32(1), str(anchoring.log_id), u64(anchoring.receipt_id), u64(anchoring.tree_size), hash(anchoring.root); else append u32(0)")
            ∷ str (
                text
                  "verify: SignatureSlot{suite: ed25519, key_id: oais.provenance.signing.key_id, signature: hex(oais.provenance.signature)}.verify(SigningDomain::TreeHead, statement, public from /keyring)")
            ∷ str (
                text
                  "commitment check: sha256(core) == oais.information_package.commitment (and == oais.provenance.receipt.commitment when anchored)")
            ∷ [])),
    )
    ∷ [])

unfoldable pub discovery_anchoring : Value
discovery_anchoring = object (
    (text "when", str (text "UNIDPP_LOG_URL points at a reachable unidpp-log instance"))
    ∷ (
      text "how",
      str (
          text
            "POST {UNIDPP_LOG_URL}/commitments with {subject: urn:unidpp:archive:snapshot:<id>, commitment: sha256(core statement bytes)}"),
    )
    ∷ (
      text "journalled",
      str (
          text
            "receipt id, log id, tree size, root, logged_at, and the verbatim receipt ride the snapshot's provenance and the audit journal"),
    )
    ∷ (
      text "fallback",
      str (
          text
            "an unreachable or refusing log degrades to status=unanchored with the reason recorded; the snapshot remains notarized"),
    )
    ∷ [])

unfoldable pub discovery_storage : Value
discovery_storage = object (
    (
      text "journal",
      str (
          text
            "append-only JSONL (UNIDPP_ARCHIVE_STATE_FILE); replay on start with sequence, digest and torn-tail checks"),
    )
    ∷ (
      text "snapshot_store",
      str (
          text
            "one JSON file per snapshot (UNIDPP_ARCHIVE_SNAPSHOT_DIR); verified against the journal on start, re-materialized when missing, mismatch is a hard error"),
    )
    ∷ (
      text "re_serve",
      str (
          text
            "GET /snapshots/{id} re-renders from the journaled record — byte-identical by construction, pinned by the strong ETag"),
    )
    ∷ [])

unfoldable pub discovery_as_of : Value
discovery_as_of = object (
    (text "query_parameter", str (text "at (alias: asof)"))
    ∷ (text "response_header", str (text "x-as-of"))
    ∷ (text "listing_rule", str (text "a snapshot is listed at instant T when notarized_at <= T"))
    ∷ (
      text "point_in_time_cache",
      str (text "responses to ?at=... carry cache-control: public, max-age=86400, immutable"),
    )
    ∷ [])

-- The whole document, of a service that anchors or does not.
unfoldable pub discovery_document : Str → Option Str → Bool → Value
discovery_document version build_id anchoring_enabled = object (
    (text "service", str service_id)
    ∷ (text "version", str version)
    ∷ (text "build_id", str (unwrap_or build_id (text "dev")))
    ∷ (
      text "description",
      str (
          text
            "UniDPP Tier-C notarized archive: as-of snapshot packs with OAIS-style metadata, Ed25519 notarization, optional transparency-log anchoring, byte-identical re-serving."),
    )
    ∷ (text "schema", str schema)
    ∷ (text "anchoring_enabled", bool anchoring_enabled)
    ∷ (text "oais", discovery_oais)
    ∷ (text "endpoints", discovery_endpoints)
    ∷ (text "notarization", discovery_notarization)
    ∷ (text "anchoring", discovery_anchoring)
    ∷ (text "storage", discovery_storage)
    ∷ (text "as_of", discovery_as_of)
    ∷ (
      text "auth",
      str (
          text
            "POST /snapshots and /admin/log require a Bearer token when UNIDPP_ARCHIVE_ADMIN_TOKEN is set"),
    )
    ∷ [])

-- `discovery`
unfoldable pub discovery : External → Timestamp → Str → Option Str → Bool → Response
discovery x now version build_id anchoring_enabled =
    json_response x 200 (discovery_document version build_id anchoring_enabled) now current

-- ===== src/Api/Handlers.antt =====
-- The handlers of src/api.rs for access, listing, the audit journal, health and the keyring, and the
-- response of the ingest. A handler reads the store under its mutex, once; `now` is the clock.
use unidpp_archive.Prelude.{
  ℕ, Bool, true, false, Option, none, some, List, [], ◌∷◌, ◌++◌, length, map, min,
}
use unidpp_archive.Result.{Result, ok, err, unwrap_or, and_then, map_option}
use unidpp_archive.Text.{Str, text, trim}
use unidpp_archive.Text.Decimal.{parse_u64}
use unidpp_archive.Text.Decimal
use unidpp_archive.Time
use unidpp_archive.Time.{Timestamp}
use unidpp_archive.Json.{Value, num, bool, str, array, object, optional}
use unidpp_archive.External.{External}
use unidpp_archive.Keyring.{Keyring}
use unidpp_archive.Keyring.View.{to_json}
use unidpp_archive.Model.Anchoring.{Anchoring, AnchoringStatus, is_anchored, is_unanchored}
use unidpp_archive.Model.Record.{SnapshotRecord, service_id}
use unidpp_archive.Model.Document.{render_body}
use unidpp_archive.Store.Opening.{SnapshotStore}
use unidpp_archive.Store.Index
use unidpp_archive.Store.Audit.{items, insert_key, audit_json}
use unidpp_archive.Api.Requests.{
  current, point_in_time, Refusal, bad_request, require_admin, Params, parse_at, opt_query,
  cache_for,
}
use unidpp_archive.Api.Responses.{
  Response, build_response, etag_of, json_response, error_response, not_found,
}

abbrev pub is_anchored_status : AnchoringStatus → Bool
is_anchored_status is_anchored = true
is_anchored_status is_unanchored = false

-- The header that an anchored record adds.
unfoldable pub receipt_headers :
    {Hash : Type 0} → AnchoringStatus → Anchoring Hash → List (Str × Str)
receipt_headers is_anchored a =
    (text "x-anchored-receipt", unwrap_or (map_option Decimal.to_string a.receipt_seq) []) ∷ []
receipt_headers is_unanchored a = []

module _ (x : External) where
  open x use {Hash, KeyPair, hex}

  -- The response of `create_snapshot` for the record that was appended.
  unfoldable pub created_response : SnapshotRecord Hash → Response
  created_response r =
      build_response 201
        (((text "content-type", text "application/json")
            ∷ (text "location", text "/snapshots/" ++ r.snapshot_id)
            ∷ (text "x-snapshot-id", r.snapshot_id)
            ∷ (text "x-as-of", Time.to_string r.notarized_at)
            ∷ (text "etag", etag_of (hex r.body_digest))
            ∷ [])
          ++ receipt_headers r.anchoring.status r.anchoring)
        (render_body x r) point_in_time

  unfoldable pub create_response : Timestamp → Result Refusal (SnapshotRecord Hash) → Response
  create_response now (ok r) = created_response r
  create_response now (err refusal) = error_response x now refusal

  -- A stored record as `get_snapshot` serves it.
  unfoldable pub served_response : SnapshotRecord Hash → Response
  served_response r =
      build_response 200
        ((text "content-type", text "application/json")
          ∷ (text "x-as-of", Time.to_string r.notarized_at)
          ∷ (text "etag", etag_of (hex r.body_digest))
          ∷ [])
        (render_body x r) point_in_time

  unfoldable pub found_response : Timestamp → Str → Option (SnapshotRecord Hash) → Response
  found_response now id none = not_found x now (text "no snapshot `" ++ id ++ text "`")
  found_response now id (some r) = served_response r

  -- `get_snapshot`
  unfoldable pub get_snapshot_handler : Timestamp → SnapshotStore Hash → Str → Response
  get_snapshot_handler now s id = found_response now (trim id) (Index.get_snapshot x s (trim id))

  -- A row of the listing.
  unfoldable pub listing_row : SnapshotRecord Hash → Value
  listing_row r = object (
      (text "snapshot_id", str r.snapshot_id)
      ∷ (text "seq", num r.seq)
      ∷ (text "passport_id", str r.passport_id)
      ∷ (text "state_hash", str (hex r.state_hash))
      ∷ (text "log_head", str (hex r.log_head))
      ∷ (text "notarized_at", str (Time.to_string r.notarized_at))
      ∷ (text "anchored", bool (is_anchored_status r.anchoring.status))
      ∷ (text "log_id", optional str r.anchoring.log_id)
      ∷ (text "receipt_id", optional (λ n. str (Decimal.to_string n)) r.anchoring.receipt_seq)
      ∷ (text "tree_size", optional num r.anchoring.tree_size)
      ∷ (text "root", optional (λ h. str (hex h)) r.anchoring.root)
      ∷ (text "body_sha256", str (hex r.body_digest))
      ∷ (text "href", str (text "/snapshots/" ++ r.snapshot_id))
      ∷ [])

  unfoldable pub listing_document :
      Timestamp → Option Timestamp → Option Str → List (SnapshotRecord Hash) → Value
  listing_document now at passport_id records = object (
      (text "as_of", str (Time.to_string (unwrap_or at now)))
      ∷ (
        text "query",
        object (
            (text "at", optional (λ t. str (Time.to_string t)) at)
            ∷ (text "passport_id", optional str passport_id)
            ∷ []),
      )
      ∷ (text "count", num (length records))
      ∷ (text "snapshots", array (items (map listing_row records)))
      ∷ [])

  unfoldable pub listing_response :
      Timestamp → SnapshotStore Hash → Params → Result Str (Option Timestamp) → Response
  listing_response now s params (err e) = error_response x now (bad_request e)
  listing_response now s params (ok at) =
      let passport_id = opt_query params (text "passport_id") in
      json_response x 200 (listing_document now at passport_id (Index.list x s passport_id at))
        (unwrap_or at now) (cache_for at)

  -- `list_snapshots`
  unfoldable pub list_snapshots : Timestamp → SnapshotStore Hash → Params → Response
  list_snapshots now s params = listing_response now s params (parse_at params)

  unfoldable pub limit_of : Params → ℕ
  limit_of params = min (unwrap_or (and_then (params (text "limit")) parse_u64) 100) 10_000

  unfoldable pub offset_of : Params → ℕ
  offset_of params = unwrap_or (and_then (params (text "offset")) parse_u64) 0

  -- `admin_log`: the configured token, the `authorization` header, and the query.
  unfoldable pub admin_log :
      Timestamp → Option Str → Option Str → SnapshotStore Hash → Params → Response
  admin_log now token authorization s params = elim (require_admin token authorization) [
    | some deny ↦ error_response x now deny
    | none ↦ json_response x 200 (audit_json x s (limit_of params) (offset_of params)) now current
  ]

  -- `healthz`, for a service that anchors or does not.
  unfoldable pub healthz : Timestamp → Bool → SnapshotStore Hash → Response
  healthz now anchoring_enabled s =
      json_response x 200
        (object (
          (text "status", str (text "ok"))
          ∷ (text "service", str service_id)
          ∷ (text "snapshots", num (Index.size x s))
          ∷ (text "anchoring_enabled", bool anchoring_enabled)
          ∷ (text "as_of", str (Time.to_string now))
          ∷ []))
        now current

  -- `keyring`
  unfoldable pub keyring : Timestamp → Keyring KeyPair → Response
  keyring now k =
      json_response x 200 (insert_key (text "as_of") (str (Time.to_string now)) (to_json x k)) now
        point_in_time

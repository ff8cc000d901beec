-- ===== src/Api/Ingest.antt =====
-- `create_snapshot` of src/api.rs: reserve, anchor, seal, append. The handler holds the `mutations`
-- lock throughout, so nothing comes between its steps; the clock and the answer of the log are
-- arguments.
use unidpp_archive.Prelude.{Option, none, some, ◌++◌}
use unidpp_archive.Result.{Result, ok, err, ◌>>=◌}
use unidpp_archive.Text.{Str, text}
use unidpp_archive.Time.{Timestamp}
use unidpp_archive.Json.{Value}
use unidpp_archive.External.{External}
use unidpp_archive.Model.Anchoring.{
  Anchoring, AnchorSummary, anchored, unanchored, anchor_summary_from_receipt,
}
use unidpp_archive.Model.Record.{SnapshotRecord, commitment, set_anchoring}
use unidpp_archive.Model.Record
use unidpp_archive.Model.Seal.{seal}
use unidpp_archive.Store.Files.{Disk, Io}
use unidpp_archive.Store.Opening.{StoreError, SnapshotStore}
use unidpp_archive.Store.Appending.{next_seq, append_snapshot}
use unidpp_archive.Api.Requests.{
  Refusal, store_error, bad_request, require_admin, CreateRequest, parse_body, parse_create_request,
}

module _ (x : External) where
  open x use {Hash, KeyPair}

  unfoldable pub anchoring_for_summary :
      Hash → Value → Result Str (AnchorSummary Hash) → Anchoring Hash
  anchoring_for_summary committed receipt (ok summary) = anchored summary receipt committed
  anchoring_for_summary committed receipt (err e) = unanchored (text "log receipt rejected: " ++ e)

  -- The outcome of the anchoring hop: an answer that is no receipt degrades to unanchored.
  unfoldable pub anchoring_for : Hash → Result Str Value → Anchoring Hash
  anchoring_for committed (ok receipt) =
      anchoring_for_summary committed receipt (anchor_summary_from_receipt x receipt)
  anchoring_for committed (err e) = unanchored e

  -- The record before it is sealed.
  unfoldable pub anchored_record :
      SnapshotStore Hash
      → Timestamp
      → CreateRequest Hash
      → (Str → Hash → Result Str Value)
      → SnapshotRecord Hash
  anchored_record s now req log =
      let r =
        Record.new x (next_seq x s) now req.passport_id req.state_hash req.log_head req.submitter
          req.state_size in
      let subject = text "urn:unidpp:archive:snapshot:" ++ r.snapshot_id in
      set_anchoring x r (anchoring_for (commitment x r) (log subject (commitment x r)))

  -- The body that is served for a record that was appended, and the store.
  unfoldable pub respond_appended :
      SnapshotRecord Hash
      → SnapshotStore Hash
      → Result StoreError (SnapshotStore Hash) × Disk
      → Result Refusal (SnapshotRecord Hash) × SnapshotStore Hash × Disk
  respond_appended r s (ok s', d) = (ok r, s', d)
  respond_appended r s (err e, d) = (err (store_error e), s, d)

  unfoldable pub append_sealed :
      Io
      → SnapshotStore Hash
      → Disk
      → Result Str (SnapshotRecord Hash)
      → Result Refusal (SnapshotRecord Hash) × SnapshotStore Hash × Disk
  append_sealed io s d (ok r) = respond_appended r s (append_snapshot x io s r d)
  append_sealed io s d (err e) =
      (err (record { status = 500; message = text "notarization failed: " ++ e }), s, d)

  -- Everything behind the checks of the request.
  unfoldable pub ingest :
      Io
      → KeyPair
      → (Str → Hash → Result Str Value)
      → Timestamp
      → SnapshotStore Hash
      → Disk
      → CreateRequest Hash
      → Result Refusal (SnapshotRecord Hash) × SnapshotStore Hash × Disk
  ingest io notary log now s d req =
      append_sealed io s d (seal x notary (anchored_record s now req log))

  unfoldable pub ingest_parsed :
      Io
      → KeyPair
      → (Str → Hash → Result Str Value)
      → Timestamp
      → SnapshotStore Hash
      → Disk
      → Result Str (CreateRequest Hash)
      → Result Refusal (SnapshotRecord Hash) × SnapshotStore Hash × Disk
  ingest_parsed io notary log now s d (ok req) = ingest io notary log now s d req
  ingest_parsed io notary log now s d (err e) = (err (bad_request e), s, d)

  -- `create_snapshot`: the token that is configured, the `authorization` header, and the body.
  unfoldable pub create_snapshot :
      Io
      → KeyPair
      → (Str → Hash → Result Str Value)
      → Timestamp
      → Option Str
      → Option Str
      → Str
      → SnapshotStore Hash
      → Disk
      → Result Refusal (SnapshotRecord Hash) × SnapshotStore Hash × Disk
  create_snapshot io notary log now token authorization body s d =
      elim (require_admin token authorization) [
        | some deny ↦ (err deny, s, d)
        | none ↦
            ingest_parsed io notary log now s d (do v ← parse_body x body; parse_create_request x v)
      ]

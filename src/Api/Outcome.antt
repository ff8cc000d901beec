-- ===== src/Api/Outcome.antt =====
-- What the ingest of a snapshot does, on every path.
use unidpp_archive.Prelude.{◌≡◌, refl, sym, ap, ◌∙◌, Option, none, some, [], ◌∷◌, ◌++◌, length}
use unidpp_archive.Result.{Result, ok, err, ◌>>=◌}
use unidpp_archive.Text.{Str}
use unidpp_archive.Time.{Timestamp}
use unidpp_archive.Json.{Value}
use unidpp_archive.External.{External, Documented}
use unidpp_archive.Model.Record.{SnapshotRecord, snapshot_id_of, set_anchoring}
use unidpp_archive.Model.Record
use unidpp_archive.Model.Seal.{seal}
use unidpp_archive.Model.Seal.Sound.{IsSealedBy, seal-IsSealedBy, seal-keeps}
use unidpp_archive.Store.Files.{Disk, Io}
use unidpp_archive.Store.Opening.{StoreError, SnapshotStore}
use unidpp_archive.Store.Appending.{append_snapshot}
use unidpp_archive.Store.Invariant.{IsIndexedAt}
use unidpp_archive.Store.Reachable.{IsDone, IsAppendOf, append_snapshot-IsAppendOf}
use unidpp_archive.Api.Requests.{
  Refusal, CreateRequest, require_admin, parse_body, parse_create_request,
}
use unidpp_archive.Api.Ingest.{
  anchored_record, respond_appended, append_sealed, ingest, ingest_parsed, create_snapshot,
}

module _ (x : External) (documented : Documented x) where
  open x use {Hash, KeyPair}

  -- Created: the sealed record is the new end of the index. Refused: the index is as it was.
  abbrev pub IsOutcome :
      KeyPair
      → SnapshotStore Hash
      → Result Refusal (SnapshotRecord Hash) × SnapshotStore Hash × Disk
      → Type 0
  IsOutcome notary s (ok r, s', d) =
      (s'.records ≡ s.records ++ r ∷ [])
      × IsIndexedAt x (length s.records) r
      × (r.snapshot_id ≡ snapshot_id_of r.seq)
      × IsSealedBy x documented notary r
  IsOutcome notary s (err f, s', d) = s' ≡ s

  respond_appended-IsOutcome :
      (notary : KeyPair) (s : SnapshotStore Hash) (r : SnapshotRecord Hash)
      (p : Result StoreError (SnapshotStore Hash) × Disk)
      → r.snapshot_id ≡ snapshot_id_of r.seq
      → IsSealedBy x documented notary r
      → IsDone p (IsAppendOf x s r)
      → IsOutcome notary s (respond_appended x r s p)
  unfolding respond_appended
  respond_appended-IsOutcome notary s r (ok s', d) named sealed h = (h.0, h.1, named, sealed)
  respond_appended-IsOutcome notary s r (err e, d) named sealed h = refl

  append_sealed-IsOutcome :
      (io : Io) (notary : KeyPair) (s : SnapshotStore Hash) (d : Disk) (r : SnapshotRecord Hash)
      (sealed : Result Str (SnapshotRecord Hash))
      → r.snapshot_id ≡ snapshot_id_of r.seq
      → seal x notary r ≡ sealed
      → IsOutcome notary s (append_sealed x io s d sealed)
  unfolding append_sealed
  append_sealed-IsOutcome io notary s d r (ok q) named h =
      let (seqs, ids) = seal-keeps x documented notary r q h in
      respond_appended-IsOutcome notary s q (append_snapshot x io s q d)
        (ids ∙ named ∙ ap snapshot_id_of (sym seqs)) (seal-IsSealedBy x documented notary r q h)
        (append_snapshot-IsAppendOf x io s q d)
  append_sealed-IsOutcome io notary s d r (err e) named h = refl

  anchored_record-named :
      (s : SnapshotStore Hash) (now : Timestamp) (req : CreateRequest Hash)
      (log : Str → Hash → Result Str Value)
      → (anchored_record x s now req log).snapshot_id
        ≡ snapshot_id_of (anchored_record x s now req log).seq
  unfolding anchored_record set_anchoring Record.new
  anchored_record-named s now req log = refl

  ingest_parsed-IsOutcome :
      (io : Io) (notary : KeyPair) (log : Str → Hash → Result Str Value) (now : Timestamp)
      (s : SnapshotStore Hash) (d : Disk) (parsed : Result Str (CreateRequest Hash))
      → IsOutcome notary s (ingest_parsed x io notary log now s d parsed)
  unfolding ingest_parsed ingest
  ingest_parsed-IsOutcome io notary log now s d (ok req) =
      append_sealed-IsOutcome io notary s d (anchored_record x s now req log) _
        (anchored_record-named s now req log) refl
  ingest_parsed-IsOutcome io notary log now s d (err e) = refl

  -- For an external library that is as documented, and whatever the token, the request, the answer
  -- of the log and of the operating system: an ingest that answers with a record has that record
  -- at the end of the index, at its sequence number and with the id of that number, with the
  -- digest of its body and sealed by the notary; an ingest that is refused leaves the index as it
  -- was.
  pub create_snapshot-IsOutcome :
      (io : Io) (notary : KeyPair) (log : Str → Hash → Result Str Value) (now : Timestamp)
      (token authorization : Option Str) (body : Str) (s : SnapshotStore Hash) (d : Disk)
      → IsOutcome notary s (create_snapshot x io notary log now token authorization body s d)
  unfolding create_snapshot
  create_snapshot-IsOutcome io notary log now token authorization body s d =
      elim (require_admin token authorization)
        as (λ o. IsOutcome notary s (elim o [
          | some deny ↦ (err deny, s, d)
          | none ↦
              ingest_parsed x io notary log now s d
                (do v ← parse_body x body; parse_create_request x v)
        ])) [
          | some deny ↦ refl
          | none ↦
              ingest_parsed-IsOutcome io notary log now s d
                (do v ← parse_body x body; parse_create_request x v)
        ]

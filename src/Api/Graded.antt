-- ===== src/Api/Graded.antt =====
-- Graded trust: what an ingest records of the answer of the log.
use unidpp_archive.Prelude.{ℕ, ◌≡◌, refl, ap, Option, none, some, List, ◌++◌, subst}
use unidpp_archive.Result.{Result, ok, err, ◌>>=◌, ok_injective}
use unidpp_archive.Text.{Str, text}
use unidpp_archive.Time.{Timestamp}
use unidpp_archive.Json.{Value}
use unidpp_archive.External.{External, Documented}
use unidpp_archive.Model.Anchoring.{
  Anchoring, is_anchored, is_unanchored, AnchorSummary, anchored, unanchored,
  anchor_summary_from_receipt,
}
use unidpp_archive.Model.Record.{SnapshotRecord, commitment, core_statement_bytes, set_anchoring}
use unidpp_archive.Model.Record
use unidpp_archive.Model.Seal.{seal, signed, with_digest}
use unidpp_archive.Model.Seal.Sound.{seal-form}
use unidpp_archive.Store.Files.{Disk, Io}
use unidpp_archive.Store.Opening.{StoreError, SnapshotStore}
use unidpp_archive.Store.Appending.{append_snapshot}
use unidpp_archive.Api.Requests.{
  Refusal, CreateRequest, require_admin, parse_body, parse_create_request,
}
use unidpp_archive.Api.Ingest.{
  anchoring_for, anchoring_for_summary, anchored_record, respond_appended, append_sealed, ingest,
  ingest_parsed, create_snapshot,
}

module _ (x : External) where
  open x use {Hash, KeyPair}

  -- What is recorded of a receipt: its summary, or why it was rejected.
  abbrev pub IsSummarized : Anchoring Hash → Value → Result Str (AnchorSummary Hash) → Type 0
  IsSummarized a receipt (ok summary) =
      (a.status ≡ is_anchored)
      × (a.receipt ≡ some receipt)
      × (a.log_id ≡ some summary.log_id)
      × (a.receipt_seq ≡ some summary.receipt_seq)
      × (a.tree_size ≡ some summary.tree_size)
      × (a.root ≡ some summary.root)
      × (a.logged_at ≡ some summary.logged_at)
  IsSummarized a receipt (err e) =
      (a.status ≡ is_unanchored) × (a.reason ≡ some (text "log receipt rejected: " ++ e))

  -- What is recorded of an answer of the log: of an error, that there is no anchor, and the reason.
  abbrev pub IsGraded : Anchoring Hash → Result Str Value → Type 0
  IsGraded a (ok receipt) = IsSummarized a receipt (anchor_summary_from_receipt x receipt)
  IsGraded a (err e) = (a.status ≡ is_unanchored) × (a.reason ≡ some e)

  summary-IsSummarized :
      (h c : Hash) (receipt : Value) (summary : Result Str (AnchorSummary Hash))
      → IsSummarized
          (record (anchoring_for_summary x h receipt summary) { commitment = some c })
          receipt
          summary
  unfolding anchoring_for_summary anchored unanchored
  summary-IsSummarized h c receipt (ok summary) = (refl, refl, refl, refl, refl, refl, refl)
  summary-IsSummarized h c receipt (err e) = (refl, refl)

  answer-IsGraded :
      (h c : Hash) (answer : Result Str Value)
      → IsGraded (record (anchoring_for x h answer) { commitment = some c }) answer
  unfolding anchoring_for unanchored
  answer-IsGraded h c (ok receipt) =
      summary-IsSummarized h c receipt (anchor_summary_from_receipt x receipt)
  answer-IsGraded h c (err e) = (refl, refl)

  respond_appended-record :
      (r q : SnapshotRecord Hash) (s s' : SnapshotStore Hash) (d' : Disk)
      (p : Result StoreError (SnapshotStore Hash) × Disk)
      → respond_appended x r s p ≡ (ok q, s', d')
      → r ≡ q
  unfolding respond_appended
  respond_appended-record r q s s' d' (ok t, d) h =
      ok_injective
        (ap (λ (o : Result Refusal (SnapshotRecord Hash) × SnapshotStore Hash × Disk). o.0) h)
  respond_appended-record r q s s' d' (err e, d) h = cc

  append_sealed-record :
      (io : Io) (s s' : SnapshotStore Hash) (d d' : Disk)
      (sealed : Result Str (SnapshotRecord Hash)) (q : SnapshotRecord Hash)
      → append_sealed x io s d sealed ≡ (ok q, s', d')
      → sealed ≡ ok q
  unfolding append_sealed
  append_sealed-record io s s' d d' (ok r) q h =
      ap ok (respond_appended-record r q s s' d' (append_snapshot x io s r d) h)
  append_sealed-record io s s' d d' (err e) q h = cc

  -- The urn under which a snapshot is anchored.
  abbrev pub subject_of : Str → Str
  subject_of id = text "urn:unidpp:archive:snapshot:" ++ id

module _ (x : External) (documented : Documented x) where
  open x use {Hash, KeyPair}

  -- The answer that counts is the one for the id and the commitment of the record itself.
  sealed-IsGraded :
      (notary : KeyPair) (s : SnapshotStore Hash) (now : Timestamp) (req : CreateRequest Hash)
      (log : Str → Hash → Result Str Value) (signature : Option (List ℕ))
      → (let q = with_digest x (signed x notary (anchored_record x s now req log) signature) in
          IsGraded x q.anchoring (log (subject_of x q.snapshot_id) (commitment x q)))
  unfolding with_digest signed anchored_record set_anchoring Record.new commitment
      core_statement_bytes
  sealed-IsGraded notary s now req log signature =
      let r = anchored_record x s now req log in
      answer-IsGraded x (commitment x r) (commitment x r)
        (log (subject_of x r.snapshot_id) (commitment x r))

  -- What an answer of the ingest records, if it is a record.
  abbrev pub IsGradedOutcome :
      (Str → Hash → Result Str Value)
      → Result Refusal (SnapshotRecord Hash) × SnapshotStore Hash × Disk
      → Type 0
  IsGradedOutcome log (ok r, s', d') =
      IsGraded x r.anchoring (log (subject_of x r.snapshot_id) (commitment x r))
  IsGradedOutcome log (err f, s', d') = Unit

  outcome_of :
      (log : Str → Hash → Result Str Value)
      (out : Result Refusal (SnapshotRecord Hash) × SnapshotStore Hash × Disk)
      → ((q : SnapshotRecord Hash)
          → out ≡ (ok q, out.1, out.2)
          → IsGraded x q.anchoring (log (subject_of x q.snapshot_id) (commitment x q)))
      → IsGradedOutcome log out
  outcome_of log (ok q, s, d) h = h q refl
  outcome_of log (err e, s, d) h = tt

  ingest_parsed-IsGradedOutcome :
      (io : Io) (notary : KeyPair) (log : Str → Hash → Result Str Value) (now : Timestamp)
      (s : SnapshotStore Hash) (d : Disk) (parsed : Result Str (CreateRequest Hash))
      → IsGradedOutcome log (ingest_parsed x io notary log now s d parsed)
  unfolding ingest_parsed ingest
  ingest_parsed-IsGradedOutcome io notary log now s d (ok req) =
      let r = anchored_record x s now req log in
      outcome_of log (append_sealed x io s d (seal x notary r)) (λ q e.
        let (signature, answered, form) =
          seal-form x documented notary r q
            (append_sealed-record x io s _ d _ (seal x notary r) q e) in
        subst
          (λ (p : SnapshotRecord Hash).
            IsGraded x p.anchoring (log (subject_of x p.snapshot_id) (commitment x p)))
          form (sealed-IsGraded notary s now req log signature))
  ingest_parsed-IsGradedOutcome io notary log now s d (err e) = tt

  -- For a documented external library, the record of an ingest that succeeds tells what the log
  -- answered for its own id and commitment: anchored with the fields and the receipt, or unanchored
  -- with the reason, that the log gave none or that its receipt was rejected.
  pub create_snapshot-IsGradedOutcome :
      (io : Io) (notary : KeyPair) (log : Str → Hash → Result Str Value) (now : Timestamp)
      (token authorization : Option Str) (body : Str) (s : SnapshotStore Hash) (d : Disk)
      → IsGradedOutcome log (create_snapshot x io notary log now token authorization body s d)
  unfolding create_snapshot
  create_snapshot-IsGradedOutcome io notary log now token authorization body s d =
      elim (require_admin token authorization)
        as (λ o. IsGradedOutcome log (elim o [
          | some deny ↦ (err deny, s, d)
          | none ↦
              ingest_parsed x io notary log now s d
                (do v ← parse_body x body; parse_create_request x v)
        ])) [
          | some deny ↦ tt
          | none ↦
              ingest_parsed-IsGradedOutcome io notary log now s d
                (do v ← parse_body x body; parse_create_request x v)
        ]

-- ===== src/Model/Rebuild/Agrees.antt =====
-- The bytes that a verifier rebuilds and those that the notary signed (src/model.rs).
use unidpp_archive.Prelude.{ℕ, ◌≡◌, refl, true, some, none, Option, List, [], ◌∷◌, ◌<◌, ◌^◌, arith}
use unidpp_archive.Result.{ok, is_some}
use unidpp_archive.Text.{Str, text, eq_str}
use unidpp_archive.Text.Decimal.{parse_u64-to_string}
use unidpp_archive.Time.Display.{InYears, parse-to_string}
use unidpp_archive.Json.{object, get, str}
use unidpp_archive.External.{External, Documented}
use unidpp_archive.Model.Anchoring.{
  AnchoringStatus, Anchoring, is_anchored, is_unanchored, status_text, anchoring_to_document_json,
  is_complete, unanchored_default,
}
use unidpp_archive.Model.Record.{
  SnapshotRecord, canonical_statement, core_statement_bytes, statement_bytes,
}
use unidpp_archive.Model.Document.{to_document}
use unidpp_archive.Model.Journal.RoundTrip.{OnSome, IsCompleteFor}
use unidpp_archive.Model.Rebuild.{
  doc_field, package_str, is_service, core_bytes_from_document, statement_for,
  statement_bytes_from_document,
}

value_of : {A : Type 0} (o : Option A) → is_some o ≡ true → (v : A) × (o ≡ some v)
value_of none h = cc
value_of (some v) h = (v, refl)

module _ (x : External) (documented : Documented x) where
  open x use {Hash, hex, from_hex}

  pub core_bytes_from_document-to_document :
      (r : SnapshotRecord Hash)
      → InYears r.notarized_at
      → core_bytes_from_document x (to_document x r) ≡ ok (core_statement_bytes x r)
  unfolding core_bytes_from_document to_document object get doc_field package_str is_service text
      core_statement_bytes
  core_bytes_from_document-to_document r h = rw (
    documented.from_hex-hex r.state_hash,
    documented.from_hex-hex r.log_head,
    parse-to_string r.notarized_at h,
  )

  doc_anchoring :
      (r : SnapshotRecord Hash)
      → doc_field (to_document x r) (text "oais" ∷ text "provenance" ∷ text "anchoring" ∷ [])
        ≡ ok (anchoring_to_document_json x r.anchoring)
  unfolding to_document object get doc_field text
  doc_anchoring r = refl

  doc_status :
      (r : SnapshotRecord Hash)
      → get (anchoring_to_document_json x r.anchoring) (text "status")
        ≡ some (str (status_text r.anchoring.status))
  unfolding anchoring_to_document_json object get text
  doc_status r = refl

  -- The parts of a complete outcome.
  record Outcome (a : Anchoring Hash) : Type 0 where
    log : Str
    seq : ℕ
    size : ℕ
    top : Hash
    log_is : a.log_id ≡ some log
    seq_is : a.receipt_seq ≡ some seq
    size_is : a.tree_size ≡ some size
    root_is : a.root ≡ some top
    seq_in : seq < 2 ^ 64

  Outcome-of_complete :
      (a : Anchoring Hash)
      → is_complete a ≡ true
      → OnSome (λ (n : ℕ). n < 2 ^ 64) a.receipt_seq
      → Outcome a
  unfolding is_complete
  Outcome-of_complete a h seq_in =
      let (l, log_is) = value_of a.log_id (ground arith) in
      let (n, seq_is) = value_of a.receipt_seq (ground arith) in
      let (s, size_is) = value_of a.tree_size (ground arith) in
      let (t, root_is) = value_of a.root (ground arith) in
      record {
        log = l;
        seq = n;
        size = s;
        top = t;
        log_is = log_is;
        seq_is = seq_is;
        size_is = size_is;
        root_is = root_is;
        seq_in = rw seq_is at seq_in;
      }

  statement_for-unanchored :
      (core : List ℕ) (a : Anchoring Hash)
      → a.status ≡ is_unanchored
      → statement_for x core (anchoring_to_document_json x a) (status_text is_unanchored)
        ≡ ok (canonical_statement x core a)
  unfolding statement_for status_text text eq_str canonical_statement unanchored_default
  statement_for-unanchored core a e = rw e

  statement_for-anchored :
      (core : List ℕ) (a : Anchoring Hash)
      → a.status ≡ is_anchored
      → Outcome a
      → statement_for x core (anchoring_to_document_json x a) (status_text is_anchored)
        ≡ ok (canonical_statement x core a)
  unfolding statement_for status_text text eq_str canonical_statement anchoring_to_document_json
      object get
  statement_for-anchored core a e o = rw (
    o.log_is,
    o.seq_is,
    o.size_is,
    o.root_is,
    e,
    parse_u64-to_string o.seq o.seq_in,
    documented.from_hex-hex o.top,
  )

  statement_for-status :
      (core : List ℕ) (a : Anchoring Hash) (s : AnchoringStatus)
      → a.status ≡ s
      → IsCompleteFor s a
      → OnSome (λ (n : ℕ). n < 2 ^ 64) a.receipt_seq
      → statement_for x core (anchoring_to_document_json x a) (status_text s)
        ≡ ok (canonical_statement x core a)
  statement_for-status core a is_anchored e complete seq_in =
      statement_for-anchored core a e (Outcome-of_complete a complete seq_in)
  statement_for-status core a is_unanchored e complete seq_in = statement_for-unanchored core a e

  -- From the served document of a record, the verifier rebuilds the statement bytes of the
  -- record, which the notary signed: for an instant in the years 0 to 9999, an anchored outcome
  -- with all its fields, and a receipt number below 2 ^ 64.
  pub statement_bytes_from_document-to_document :
      (r : SnapshotRecord Hash)
      → InYears r.notarized_at
      → IsCompleteFor r.anchoring.status r.anchoring
      → OnSome (λ (n : ℕ). n < 2 ^ 64) r.anchoring.receipt_seq
      → statement_bytes_from_document x (to_document x r) ≡ ok (statement_bytes x r)
  unfolding statement_bytes_from_document statement_bytes
  statement_bytes_from_document-to_document r at complete seq_in =
      rw (core_bytes_from_document-to_document r at, doc_anchoring r, doc_status r)
        (statement_for-status (core_statement_bytes x r) r.anchoring r.anchoring.status refl
          complete seq_in)

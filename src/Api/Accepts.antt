-- ===== src/Api/Accepts.antt =====
-- When `create_snapshot` of src/api.rs answers with a record.
use unidpp_archive.Prelude.{
  ℕ, ◌<◌, ◌^◌, ◌≡◌, refl, sym, Option, none, some, List, [], ◌∷◌, ◌++◌, length, All, subst, arith,
}
use unidpp_archive.Result.{Result, ok, err, ◌>>=◌}
use unidpp_archive.Text.{Str}
use unidpp_archive.Time.{Timestamp}
use unidpp_archive.Time.Display.{InYears}
use unidpp_archive.Json.{Value}
use unidpp_archive.Hex.RoundTrip.{IsByte}
use unidpp_archive.External.{External, Documented}
use unidpp_archive.Model.Anchoring.{
  Anchoring, AnchoringStatus, is_anchored, is_unanchored, is_complete, unanchored,
}
use unidpp_archive.Model.Record.{SnapshotRecord, statement_bytes, set_anchoring}
use unidpp_archive.Model.Record
use unidpp_archive.Model.Journal.RoundTrip.{OnSome, IsStorable, IsCompleteFor}
use unidpp_archive.Model.Seal.{seal, signed, with_digest}
use unidpp_archive.Model.Seal.Sound.{seal-IsSealedBy}
use unidpp_archive.Store.Files.{Disk, Io}
use unidpp_archive.Store.Opening.{SnapshotStore}
use unidpp_archive.Store.Appending.{next_seq}
use unidpp_archive.Store.Append.{AllDone, IsConsistent}
use unidpp_archive.Store.Lines.{IsRecordAt}
use unidpp_archive.Store.Restart.{append_snapshot-IsConsistent}
use unidpp_archive.Api.Requests.{
  Refusal, CreateRequest, require_admin, parse_body, parse_create_request,
}
use unidpp_archive.Api.Ingest.{
  anchoring_for, anchored_record, respond_appended, append_sealed, ingest, ingest_parsed,
  create_snapshot,
}

-- An outcome of the anchoring hop that the journal can hold.
pub record IsKept {Hash : Type 0} (a : Anchoring Hash) : Type 0 where
  pub storable : IsStorable a
  pub tree_size_in : OnSome (λ (n : ℕ). n < 2 ^ 64) a.tree_size

-- An unanchored outcome can be held, whatever its reason.
pub unanchored-IsKept : {Hash : Type 0} (reason : Str) → IsKept (unanchored {Hash = Hash} reason)
unfolding unanchored
unanchored-IsKept reason = record {
  storable = record { receipt_seq_in = tt; logged_at_in = tt; receipt_object = tt; complete = tt };
  tree_size_in = tt;
}

complete-commitment :
    {Hash : Type 0} (status : AnchoringStatus) (a : Anchoring Hash) (h : Hash)
    → IsCompleteFor status a
    → IsCompleteFor status (record a { commitment = some h })
unfolding is_complete
complete-commitment is_anchored a h c = ground (arith, c)
complete-commitment is_unanchored a h c = tt

-- The request that a body holds.
module _ (x : External) where
  open x use {Hash, KeyPair, sign, tree_head}

  abbrev pub parse_request : Str → Result Str (CreateRequest Hash)
  parse_request body = do v ← parse_body x body; parse_create_request x v

  -- The notary signs every message, with bytes.
  abbrev pub CanSign : KeyPair → Type 0
  CanSign notary =
      (message : List ℕ)
      → (signature : List ℕ) × (sign notary tree_head message ≡ ok (some signature))
        × All IsByte signature

  seal-some :
      (notary : KeyPair) (r : SnapshotRecord Hash) (signature : List ℕ)
      → sign notary tree_head (statement_bytes x r) ≡ ok (some signature)
      → seal x notary r ≡ ok (with_digest x (signed x notary r (some signature)))
  unfolding seal
  seal-some notary r signature h = rw h refl

module _ (x : External) (documented : Documented x) where
  open x use {Hash, KeyPair, sign, tree_head}

  -- The record of a request, sealed, is one that the store takes next.
  sealed-IsRecordAt :
      (notary : KeyPair) (s : SnapshotStore Hash) (now : Timestamp) (req : CreateRequest Hash)
      (log : Str → Hash → Result Str Value) (signature : List ℕ)
      → length s.records < 2 ^ 64
      → OnSome (λ (n : ℕ). n < 2 ^ 64) req.state_size
      → InYears now
      → All IsByte signature
      → ((subject : Str) (h : Hash) → IsKept (anchoring_for x h (log subject h)))
      → sign notary tree_head (statement_bytes x (anchored_record x s now req log))
        ≡ ok (some signature)
      → IsRecordAt x
          (length s.records)
          (with_digest x (signed x notary (anchored_record x s now req log) (some signature)))
  unfolding with_digest signed anchored_record set_anchoring Record.new next_seq
  sealed-IsRecordAt notary s now req log signature room size at bytes kept answer =
      let r = anchored_record x s now req log in
      let held : IsKept r.anchoring = kept _ _ in
      record {
        seq_is = refl;
        id_is = refl;
        digest =
            (seal-IsSealedBy x documented notary r _
              (seal-some x notary r signature answer)).body_is;
        journalable = record {
          seq_in = room;
          state_size_in = size;
          tree_size_in = held.tree_size_in;
          notarized_at_in = at;
          signature_bytes = bytes;
          storable = record {
            receipt_seq_in = held.storable.receipt_seq_in;
            logged_at_in = held.storable.logged_at_in;
            receipt_object = held.storable.receipt_object;
            complete = complete-commitment r.anchoring.status r.anchoring _ held.storable.complete;
          };
        };
      }

  -- What creating answers and leaves when it succeeds: every field of the request is in the record.
  abbrev pub IsCreated :
      Timestamp
      → CreateRequest Hash
      → SnapshotStore Hash
      → Result Refusal (SnapshotRecord Hash) × SnapshotStore Hash × Disk
      → Type 0
  IsCreated now req s (ok r, s', d') =
      (s'.records ≡ s.records ++ r ∷ [])
      × IsConsistent x s' d'
      × (r.passport_id ≡ req.passport_id)
      × (r.state_hash ≡ req.state_hash)
      × (r.log_head ≡ req.log_head)
      × (r.state_size ≡ req.state_size)
      × (r.submitter ≡ req.submitter)
      × (r.notarized_at ≡ now)
      × (r.seq ≡ length s.records)
  IsCreated now req s (err f, s', d') = ⊥

  ingest-IsCreated :
      (io : Io) (notary : KeyPair) (log : Str → Hash → Result Str Value) (now : Timestamp)
      (s : SnapshotStore Hash) (d : Disk) (req : CreateRequest Hash)
      → AllDone io
      → IsConsistent x s d
      → length s.records < 2 ^ 64
      → OnSome (λ (n : ℕ). n < 2 ^ 64) req.state_size
      → InYears now
      → CanSign x notary
      → ((subject : Str) (h : Hash) → IsKept (anchoring_for x h (log subject h)))
      → IsCreated now req s (ingest x io notary log now s d req)
  unfolding ingest append_sealed respond_appended with_digest signed anchored_record set_anchoring
      Record.new next_seq
  ingest-IsCreated io notary log now s d req fine consistent room size at signs kept =
      let r = anchored_record x s now req log in
      let (signature, answer, bytes) = signs (statement_bytes x r) in
      let q = with_digest x (signed x notary r (some signature)) in
      let next = sealed-IsRecordAt notary s now req log signature room size at bytes kept answer in
      let (s', d', appended, grown, consistent') =
        append_snapshot-IsConsistent x documented io s q d fine consistent next in
      subst (λ o. IsCreated now req s (append_sealed x io s d o))
        (sym (seal-some x notary r signature answer))
        (subst (λ p. IsCreated now req s (respond_appended x q s p)) (sym appended)
          (grown, consistent', refl, refl, refl, refl, refl, refl, refl))

  create-allowed :
      (io : Io) (notary : KeyPair) (log : Str → Hash → Result Str Value) (now : Timestamp)
      (token authorization : Option Str) (body : Str) (s : SnapshotStore Hash) (d : Disk)
      (req : CreateRequest Hash)
      → require_admin token authorization ≡ none
      → parse_request x body ≡ ok req
      → create_snapshot x io notary log now token authorization body s d
        ≡ ingest x io notary log now s d req
  unfolding create_snapshot ingest_parsed
  create-allowed io notary log now token authorization body s d req allowed parsed =
      rw (allowed, parsed, create_snapshot) refl

  -- For a documented external library, a request of the administrator whose body is well formed is
  -- created, when the files are in step with the index, the calls of the operating system succeed,
  -- the notary signs every message with bytes, the clock is in the years 0 to 9999, the number of
  -- records and the size in the request fit 64 bits, and the journal can hold what is made of any
  -- answer of the log (an answer that is an error it can): the record enters the index at its end,
  -- with the passport, state hash, log head, size and submitter of the request, the time of the
  -- clock, and the number of earlier records as its sequence number; and the files are in step with
  -- the index again.
  pub create_snapshot-IsCreated :
      (io : Io) (notary : KeyPair) (log : Str → Hash → Result Str Value) (now : Timestamp)
      (token authorization : Option Str) (body : Str) (s : SnapshotStore Hash) (d : Disk)
      (req : CreateRequest Hash)
      → AllDone io
      → IsConsistent x s d
      → require_admin token authorization ≡ none
      → parse_request x body ≡ ok req
      → length s.records < 2 ^ 64
      → OnSome (λ (n : ℕ). n < 2 ^ 64) req.state_size
      → InYears now
      → CanSign x notary
      → ((subject : Str) (h : Hash) → IsKept (anchoring_for x h (log subject h)))
      → IsCreated now req s (create_snapshot x io notary log now token authorization body s d)
  create_snapshot-IsCreated io notary log now token authorization body s d req fine consistent
        allowed parsed room size at signs kept =
      subst (IsCreated now req s)
        (sym (create-allowed io notary log now token authorization body s d req allowed parsed))
        (ingest-IsCreated io notary log now s d req fine consistent room size at signs kept)

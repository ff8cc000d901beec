-- ===== src/Model/Journal/RoundTrip.antt =====
-- A record of src/model.rs and its journal line.
use unidpp_archive.Prelude.{ℕ, ◌<◌, ◌^◌, ◌≡◌, refl, true, Option, none, some, All}
use unidpp_archive.Result.{ok}
use unidpp_archive.Text.{Str, text}
use unidpp_archive.Text.Decimal.{to_string, parse_u64-to_string}
use unidpp_archive.Hex.RoundTrip.{IsByte, hex_decode-hex_encode}
use unidpp_archive.Time
use unidpp_archive.Time.{Timestamp}
use unidpp_archive.Time.Display.{InYears, parse-to_string}
use unidpp_archive.Json.{Value, null, num, str, obj, object, get_field, optional}
use unidpp_archive.External.{External, Documented}
use unidpp_archive.Model.Anchoring.{
  AnchoringStatus, is_anchored, is_unanchored, Anchoring, status_text, read_status, read_optional,
  anchoring_str, anchoring_u64, anchoring_time, anchoring_hash, anchoring_receipt,
  anchoring_receipt_id, is_complete, check_complete, anchoring_to_journal_json, anchoring_from_json,
}
use unidpp_archive.Model.Record.{SnapshotRecord}
use unidpp_archive.Model.Journal.{
  to_journal_json, from_journal_json, required_str, required_u64, required_hash, plain_str,
  plain_u64,
}

-- `P` holds of the value that is there.
abbrev pub OnSome {ℓ κ} : {A : Type ℓ} → (A → Type κ) → Option A → Type κ
OnSome P none = Unit
OnSome P (some a) = P a

abbrev pub IsObject : Value → Type 0
IsObject (obj fs) = Unit
IsObject _ = ⊥

abbrev pub IsCompleteFor : {Hash : Type 0} → AnchoringStatus → Anchoring Hash → Type 0
IsCompleteFor is_anchored a = is_complete a ≡ true
IsCompleteFor is_unanchored a = Unit

-- An outcome that the journal can hold.
pub record IsStorable {Hash : Type 0} (a : Anchoring Hash) : Type 0 where
  pub receipt_seq_in : OnSome (λ (n : ℕ). n < 2 ^ 64) a.receipt_seq
  pub logged_at_in : OnSome InYears a.logged_at
  pub receipt_object : OnSome IsObject a.receipt
  pub complete : IsCompleteFor a.status a

-- A record that the journal can hold.
pub record IsJournalable {Hash : Type 0} (r : SnapshotRecord Hash) : Type 0 where
  pub seq_in : r.seq < 2 ^ 64
  pub state_size_in : OnSome (λ (n : ℕ). n < 2 ^ 64) r.state_size
  pub tree_size_in : OnSome (λ (n : ℕ). n < 2 ^ 64) r.anchoring.tree_size
  pub notarized_at_in : InYears r.notarized_at
  pub signature_bytes : All IsByte r.signature
  pub storable : IsStorable r.anchoring

read_status-status_text : (s : AnchoringStatus) → read_status (some (status_text s)) ≡ ok s
unfolding read_status status_text
read_status-status_text is_anchored = refl
read_status-status_text is_unanchored = refl

check_complete-ok :
    {Hash : Type 0} (a : Anchoring Hash) (s : AnchoringStatus)
    → IsCompleteFor s a
    → check_complete a s ≡ ok a
unfolding check_complete
check_complete-ok a is_anchored h = rw (check_complete, h)
check_complete-ok a is_unanchored h = refl

read_receipt :
    (o : Option Value)
    → OnSome IsObject o
    → read_optional anchoring_receipt (some (optional (λ v. v) o)) ≡ ok o
unfolding anchoring_receipt
read_receipt none h = refl
read_receipt (some (obj fs)) h = refl
read_receipt (some null) h = absurd h
read_receipt (some _) h = absurd h

read_str :
    (k : Str) (o : Option Str) → read_optional (anchoring_str k) (some (optional str o)) ≡ ok o
unfolding anchoring_str
read_str k none = refl
read_str k (some s) = refl

read_u64 : (k : Str) (o : Option ℕ) → read_optional (anchoring_u64 k) (some (optional num o)) ≡ ok o
unfolding anchoring_u64
read_u64 k none = refl
read_u64 k (some s) = refl

read_receipt_id :
    (o : Option ℕ)
    → OnSome (λ (n : ℕ). n < 2 ^ 64) o
    → read_optional anchoring_receipt_id (some (optional (λ s. str (to_string s)) o)) ≡ ok o
unfolding anchoring_receipt_id
read_receipt_id none h = refl
read_receipt_id (some n) h = rw (parse_u64-to_string n h)

read_time :
    (k : Str) (o : Option Timestamp)
    → OnSome InYears o
    → read_optional (anchoring_time k) (some (optional (λ t. str (Time.to_string t)) o)) ≡ ok o
unfolding anchoring_time
read_time k none h = refl
read_time k (some t) h = rw (parse-to_string t h)

module _ (x : External) (documented : Documented x) where
  open x use {Hash, hex, from_hex}

  read_hash :
      (k : Str) (o : Option Hash)
      → read_optional (anchoring_hash x k) (some (optional (λ h. str (hex h)) o)) ≡ ok o
  unfolding anchoring_hash
  read_hash k none = refl
  read_hash k (some h) = rw (documented.from_hex-hex h)

  pub anchoring_from_json-to_journal_json :
      (a : Anchoring Hash)
      → IsStorable a
      → anchoring_from_json x (anchoring_to_journal_json x a) ≡ ok a
  unfolding anchoring_from_json anchoring_to_journal_json object get_field text
  anchoring_from_json-to_journal_json a h =
      rw
        (
          read_status-status_text a.status,
          read_receipt a.receipt h.receipt_object,
          read_receipt_id a.receipt_seq h.receipt_seq_in,
          read_str _ a.reason,
          read_str _ a.log_id,
          read_u64 _ a.tree_size,
          read_hash _ a.root,
          read_time _ a.logged_at h.logged_at_in,
          read_hash _ a.commitment,
        )
        (check_complete-ok a a.status h.complete)

  read_plain_str :
      (k : Str) (o : Option Str) → read_optional (plain_str k) (some (optional str o)) ≡ ok o
  unfolding plain_str
  read_plain_str k none = refl
  read_plain_str k (some s) = refl

  read_plain_u64 :
      (k : Str) (o : Option ℕ) → read_optional (plain_u64 k) (some (optional num o)) ≡ ok o
  unfolding plain_u64
  read_plain_u64 k none = refl
  read_plain_u64 k (some s) = refl

  -- A record is read back from its journal value: with the id of its sequence number, an instant
  -- and a log instant in the years 0 to 9999, numbers below 2 ^ 64, signature bytes, a receipt
  -- that is an object, and an anchored outcome with all its fields.
  pub from_journal_json-to_journal_json :
      (r : SnapshotRecord Hash) → IsJournalable r → from_journal_json x (to_journal_json x r) ≡ ok r
  unfolding from_journal_json to_journal_json object get_field text required_str required_u64
      required_hash
  from_journal_json-to_journal_json r h = rw (
    anchoring_from_json-to_journal_json r.anchoring h.storable,
    hex_decode-hex_encode r.signature h.signature_bytes,
    parse-to_string r.notarized_at h.notarized_at_in,
    documented.from_hex-hex r.state_hash,
    documented.from_hex-hex r.log_head,
    read_plain_str _ r.submitter,
    read_plain_u64 _ r.state_size,
    documented.from_hex-hex r.body_digest,
  )

-- ===== src/Model/Journal/Readable.antt =====
-- The journal value of a record of src/model.rs, as a value of JSON that is read back.
use unidpp_archive.Prelude.{ℕ, ◌<◌, ◌^◌, ◌≡◌, refl, true, Option, none, some, lt→ltb}
use unidpp_archive.Text.{Str, text}
use unidpp_archive.Text.Decimal.{to_string}
use unidpp_archive.Time
use unidpp_archive.Json.{
  Value, num, str, optional, object, is_readable, is_readable_fields, keys_above,
}
use unidpp_archive.External.{External}
use unidpp_archive.Model.Anchoring.{Anchoring, anchoring_to_journal_json}
use unidpp_archive.Model.Record.{SnapshotRecord}
use unidpp_archive.Model.Journal.{to_journal_json}
use unidpp_archive.Model.Journal.RoundTrip.{OnSome, IsJournalable}

-- A receipt that is read back from the journal, where it stands two levels deep.
abbrev pub IsReadable : {Hash : Type 0} → SnapshotRecord Hash → Type 0
IsReadable r = OnSome (λ v. is_readable 125 v ≡ true) r.anchoring.receipt

optional_str_readable :
    {A : Type 0} (n : ℕ) (f : A → Str) (o : Option A)
    → is_readable n (optional (λ a. str (f a)) o) ≡ true
unfolding is_readable
optional_str_readable n f none = refl
optional_str_readable n f (some s) = refl

optional_num_readable :
    (n : ℕ) (o : Option ℕ)
    → OnSome (λ (n : ℕ). n < 2 ^ 64) o
    → is_readable n (optional num o) ≡ true
unfolding is_readable
optional_num_readable m none h = refl
optional_num_readable m (some n) h = lt→ltb n (2 ^ 64) h

optional_value_readable :
    (o : Option Value)
    → OnSome (λ v. is_readable 125 v ≡ true) o
    → is_readable 125 (optional (λ v. v) o) ≡ true
unfolding is_readable
optional_value_readable none h = refl
optional_value_readable (some v) h = h

module _ (x : External) where
  open x use {Hash, hex}

  anchoring_readable :
      (a : Anchoring Hash)
      → OnSome (λ (n : ℕ). n < 2 ^ 64) a.tree_size
      → OnSome (λ v. is_readable 125 v ≡ true) a.receipt
      → is_readable 126 (anchoring_to_journal_json x a) ≡ true
  unfolding anchoring_to_journal_json object text is_readable is_readable_fields keys_above
  anchoring_readable a size receipt = rw (
    optional_str_readable 125 hex a.commitment,
    optional_str_readable 125 (λ (s : Str). s) a.log_id,
    optional_str_readable 125 Time.to_string a.logged_at,
    optional_str_readable 125 (λ (s : Str). s) a.reason,
    optional_value_readable a.receipt receipt,
    optional_str_readable 125 to_string a.receipt_seq,
    optional_str_readable 125 hex a.root,
    optional_num_readable 125 a.tree_size size,
  )

  pub to_journal_json-is_readable :
      (r : SnapshotRecord Hash)
      → IsJournalable r
      → IsReadable r
      → is_readable 127 (to_journal_json x r) ≡ true
  unfolding to_journal_json object text is_readable is_readable_fields keys_above
  to_journal_json-is_readable r h receipt = rw (
    anchoring_readable r.anchoring h.tree_size_in receipt,
    lt→ltb r.seq (2 ^ 64) h.seq_in,
    optional_num_readable 126 r.state_size h.state_size_in,
    optional_str_readable 126 (λ (s : Str). s) r.submitter,
  )

-- ===== src/Store/Pages.antt =====
-- The windows of the audit view of src/store.rs, and what their entries show.
use unidpp_archive.Prelude.{
  ℕ, zero, suc, ◌+◌, ◌≡◌, refl, sym, ap, ap₂, ◌∙◌, Option, some, All, All-take, All-drop, List, [],
  ◌∷◌, ◌++◌, take, drop, map, map-append, arith,
}
use unidpp_archive.Result.{Result, ok}
use unidpp_archive.Text.{Str, text}
use unidpp_archive.Json.{Value, str, object, get, get_field, insert_field}
use unidpp_archive.External.{External, Documented}
use unidpp_archive.Model.Record.{SnapshotRecord}
use unidpp_archive.Model.Journal.{
  from_journal_json, to_journal_json, required_str, required_u64, required_hash,
}
use unidpp_archive.Model.Journal.RoundTrip.{IsJournalable, from_journal_json-to_journal_json}
use unidpp_archive.Store.Opening.{SnapshotStore}
use unidpp_archive.Store.Audit.{audit_entry, audit_window, insert_key}

drop-nil {ℓ} : {A : Type ℓ} (k : ℕ) → drop {A = A} k [] ≡ []
drop-nil zero = refl
drop-nil (suc k) = refl

take-nil {ℓ} : {A : Type ℓ} (k : ℕ) → take {A = A} k [] ≡ []
take-nil zero = refl
take-nil (suc k) = refl

drop-drop {ℓ} : {A : Type ℓ} (m n : ℕ) (xs : List A) → drop m (drop n xs) ≡ drop (n + m) xs
drop-drop m zero xs = let e : 0 + m ≡ m = omega arith in rw e
drop-drop m (suc n) [] = drop-nil m ∙ sym (drop-nil (suc n + m))
drop-drop m (suc n) (a ∷ xs) =
    let e : suc n + m ≡ suc (n + m) = omega arith in rw e (drop-drop m n xs)

take-add {ℓ} :
    {A : Type ℓ} (m n : ℕ) (xs : List A) → take (m + n) xs ≡ take m xs ++ take n (drop m xs)
take-add zero n xs = let e : 0 + n ≡ n = omega arith in rw e
take-add (suc m) n [] = take-nil (suc m + n) ∙ sym (take-nil n)
take-add (suc m) n (a ∷ xs) =
    let e : suc m + n ≡ suc (m + n) = omega arith in rw e (ap (λ t. a ∷ t) (take-add m n xs))

module _ (x : External) where
  open x use {Hash, hex}

  -- What is read from an entry: the record, and the digest that is shown beside it.
  abbrev pub read_entry : Value → Result Str (SnapshotRecord Hash) × Option Value
  read_entry v = (from_journal_json x v, get v (text "body_sha256"))

  -- What an entry of a record holds.
  abbrev pub entry_of : SnapshotRecord Hash → Result Str (SnapshotRecord Hash) × Option Value
  entry_of r = (ok r, some (str (hex r.body_digest)))

module _ (x : External) (documented : Documented x) where
  open x use {Hash, hex}

  -- The journal value with one more key is read as the record.
  from_journal_json-audit_entry :
      (r : SnapshotRecord Hash) → IsJournalable r → from_journal_json x (audit_entry x r) ≡ ok r
  unfolding audit_entry insert_key insert_field from_journal_json to_journal_json object get_field
      text required_str required_u64 required_hash
  from_journal_json-audit_entry r h = from_journal_json-to_journal_json x documented r h

  get-audit_entry :
      (r : SnapshotRecord Hash)
      → get (audit_entry x r) (text "body_sha256") ≡ some (str (hex r.body_digest))
  unfolding audit_entry insert_key insert_field to_journal_json object get get_field text
  get-audit_entry r = refl

  read_entry-audit_entry :
      (r : SnapshotRecord Hash) → IsJournalable r → read_entry x (audit_entry x r) ≡ entry_of x r
  read_entry-audit_entry r h =
      ap₂ (λ p q. (p, q)) (from_journal_json-audit_entry r h) (get-audit_entry r)

  read_entries :
      (records : List (SnapshotRecord Hash))
      → All IsJournalable records
      → map (read_entry x) (map (audit_entry x) records) ≡ map (entry_of x) records
  read_entries [] h = refl
  read_entries (r ∷ records) h =
      ap₂ (λ e es. e ∷ es) (read_entry-audit_entry r h.0) (read_entries records h.1)

  -- For a documented external library and an index of records that the journal can hold: two windows
  -- of the audit view, the second from where the first ends, show the records of both ranges of the
  -- index, each once and in order. Each entry is read back as the record by the journal's reader,
  -- and has the digest of its body in hex under `body_sha256`.
  pub audit_window-entries :
      (s : SnapshotStore Hash) (m n offset : ℕ)
      → All IsJournalable s.records
      → map (read_entry x) (audit_window x s m offset ++ audit_window x s n (offset + m))
        ≡ map (entry_of x) (take (m + n) (drop offset s.records))
  unfolding audit_window
  audit_window-entries s m n offset h =
      let rest = drop offset s.records in
      ap
        (λ t.
          map (read_entry x) (map (audit_entry x) (take m rest) ++ map (audit_entry x) (take n t)))
        (sym (drop-drop m offset s.records))
      ∙ ap (map (read_entry x)) (
          sym (map-append (audit_entry x) (take m rest) (take n (drop m rest)))
          ∙ ap (map (audit_entry x)) (sym (take-add m n rest)))
      ∙ read_entries (take (m + n) rest)
          (All-take IsJournalable (m + n) rest (All-drop IsJournalable offset s.records h))

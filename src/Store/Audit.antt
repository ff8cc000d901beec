-- ===== src/Store/Audit.antt =====
-- `audit_json` of src/store.rs: a window of the journal.
use unidpp_archive.Prelude.{ℕ, List, [], ◌∷◌, length, take, drop, map}
use unidpp_archive.Text.{Str, text}
use unidpp_archive.Json.{Value, num, str, array, obj, Items, nil, item, insert_field, object}
use unidpp_archive.External.{External}
use unidpp_archive.Model.Record.{SnapshotRecord}
use unidpp_archive.Model.Journal.{to_journal_json}
use unidpp_archive.Store.Opening.{SnapshotStore}

-- A JSON array of a vector of values.
unfoldable pub items : List Value → Items
items [] = nil
items (v ∷ vs) = item v (items vs)

-- `as_object_mut` and `insert`
unfoldable pub insert_key : Str → Value → Value → Value
insert_key k v (obj fs) = obj (insert_field k v fs)
insert_key k v w = w

module _ (x : External) where
  open x use {Hash, hex}

  -- The record as the audit view shows it.
  unfoldable pub audit_entry : SnapshotRecord Hash → Value
  unfolding insert_key
  audit_entry r = insert_key (text "body_sha256") (str (hex r.body_digest)) (to_journal_json x r)

  -- `skip(offset)`, `take(limit)`.
  unfoldable pub audit_window : SnapshotStore Hash → ℕ → ℕ → List Value
  unfolding audit_entry
  audit_window s limit offset = map audit_entry (take limit (drop offset s.records))

  unfoldable pub audit_json : SnapshotStore Hash → ℕ → ℕ → Value
  unfolding audit_window items
  audit_json s limit offset =
      let slice = audit_window s limit offset in
      object (
        (text "count", num (length slice))
        ∷ (text "total", num (length s.records))
        ∷ (text "limit", num limit)
        ∷ (text "offset", num offset)
        ∷ (text "records", array (items slice))
        ∷ [])

-- ===== src/Store/Index.antt =====
-- The reads of src/store.rs: by id, and as of an instant.
use unidpp_archive.Prelude.{
  ℕ, Bool, true, ◌&&◌, Option, none, some, List, [], ◌∷◌, if◌then◌else◌, length,
}
use unidpp_archive.Text.{Str, eq_str}
use unidpp_archive.Time.{Timestamp, leb_timestamp}
use unidpp_archive.External.{External}
use unidpp_archive.Model.Record.{SnapshotRecord}
use unidpp_archive.Store.Opening.{SnapshotStore}

module _ (x : External) where
  open x use {Hash, from_str, to_line, sha256, eq_hash}

  unfoldable pub size : SnapshotStore Hash → ℕ
  size s = length s.records

  unfoldable pub find_record : Str → List (SnapshotRecord Hash) → Option (SnapshotRecord Hash)
  find_record id [] = none
  find_record id (r ∷ records) = if eq_str r.snapshot_id id then some r else find_record id records

  -- `SnapshotStore::get`
  unfoldable pub get_snapshot : SnapshotStore Hash → Str → Option (SnapshotRecord Hash)
  unfolding find_record
  get_snapshot s id = find_record id s.records

  -- The two filters of `list`.
  unfoldable pub is_listed : Option Str → Option Timestamp → SnapshotRecord Hash → Bool
  is_listed passport at r =
      elim passport [ none ↦ true | some p ↦ eq_str r.passport_id p ]
      && elim at [ none ↦ true | some t ↦ leb_timestamp r.notarized_at t ]

  unfoldable pub list_records :
      Option Str → Option Timestamp → List (SnapshotRecord Hash) → List (SnapshotRecord Hash)
  list_records passport at [] = []
  list_records passport at (r ∷ records) =
      let rest = list_records passport at records in
      if is_listed passport at r then r ∷ rest else rest

  -- `SnapshotStore::list`
  unfoldable pub list :
      SnapshotStore Hash → Option Str → Option Timestamp → List (SnapshotRecord Hash)
  unfolding list_records is_listed
  list s passport at = list_records passport at s.records

-- ===== src/Store/Opening.antt =====
-- The store of src/store.rs, and opening it: replay of the journal, and verification of the snapshot
-- files. An operation returns its result with the files that it leaves behind, also when it fails.
use unidpp_archive.Prelude.{
  ℕ, ◌+◌, Bool, true, false, not, ◌&&◌, Option, none, some, List, [], ◌∷◌, ◌++◌, ◌==◌,
  if◌then◌else◌, length, map,
}
use unidpp_archive.Result.{Result, ok, err, ◌>>=◌, ◌>>◌, map_err, fail_if}
use unidpp_archive.Text.{Str, text, trim, is_empty, eq_str}
use unidpp_archive.Text.Decimal.{to_string}
use unidpp_archive.Text.Lines.{split_lines, read_line}
use unidpp_archive.External.{External}
use unidpp_archive.Model.Record.{SnapshotRecord}
use unidpp_archive.Model.Document.{render_body}
use unidpp_archive.Model.Journal.{from_journal_json}
use unidpp_archive.Store.Files.{Disk, Io, WriteOutcome, write_result, touch_journal, put_written}

pub data StoreError : Type 0 where
  journal conflict : Str → StoreError

-- Which of the two optional files the store has: `journal.is_some()` and `snapshot_dir.is_some()`.
pub record SnapshotStore (Hash : Type 0) : Type 0 where
  pub records : List (SnapshotRecord Hash)
  pub journaled : Bool
  pub has_dir : Bool

-- The file of a snapshot in the snapshot directory.
unfoldable pub snapshot_path : Str → Str
snapshot_path snapshot_id = snapshot_id ++ text ".json"

abbrev pub is_last : {A : Type 0} → List A → Bool
is_last [] = true
is_last (a ∷ rest) = false

-- The line that is read ahead.
unfoldable pub check_next : List (Result Str Str) → Result StoreError (Unit {0})
check_next (err e ∷ rest) = err (journal (text "journal read error: " ++ e))
check_next _ = ok tt

-- Writing a snapshot file that is missing, whole, in part, or not at all.
unfoldable pub rematerialized :
    WriteOutcome → Str → List ℕ → Disk → Result StoreError (Unit {0}) × Disk
rematerialized outcome path body d = (
  map_err (λ e. journal (text "cannot re-materialize snapshot file " ++ path ++ text ": " ++ e))
      (write_result outcome),
  put_written outcome path body d,
)

-- The next step, unless there was an error.
abbrev pub after :
    Result StoreError (Unit {0}) × Disk
    → (Disk → Result StoreError (Unit {0}) × Disk)
    → Result StoreError (Unit {0}) × Disk
after (err e, d) next = (err e, d)
after (ok u, d) next = next d

module _ (x : External) where
  open x use {Hash, from_str, to_line, sha256, eq_hash}

  -- A parsed record of the journal is checked and kept.
  unfoldable pub replay_record :
      ℕ
      → List (SnapshotRecord Hash)
      → SnapshotRecord Hash
      → Result StoreError (List (SnapshotRecord Hash))
  replay_record line_no records r = do
    fail_if (not (r.seq == length records)) (
        journal (
          text "line "
          ++ to_string line_no
          ++ text ": seq "
          ++ to_string r.seq
          ++ text " is out of sequence (expected "
          ++ to_string (length records)
          ++ text ")"))
    fail_if (not (eq_hash (sha256 (render_body x r ∷ [])) r.body_digest)) (
        journal (
          text "line "
          ++ to_string line_no
          ++ text
              ": rendered body digest does not match the journaled digest (renderer drift or a tampered record)"))
    ok (records ++ r ∷ [])

  unfoldable pub parse_line : Str → Result Str (SnapshotRecord Hash)
  parse_line line = do v ← from_str line; from_journal_json x v

  -- The `match` on a parsed line: a last line that is not understood is dropped if it is not blank.
  unfoldable pub replay_parsed :
      ℕ
      → List (SnapshotRecord Hash)
      → Str
      → Bool
      → Result Str (SnapshotRecord Hash)
      → Result StoreError (List (SnapshotRecord Hash))
  replay_parsed line_no records line last (ok r) = replay_record line_no records r
  replay_parsed line_no records line last (err e) =
      if last && not (is_empty (trim line))
      then ok records
      else err (journal (text "line " ++ to_string line_no ++ text ": " ++ e))

  -- The loop of `replay` behind `line_no` lines.
  unfoldable pub replay_lines :
      ℕ
      → List (SnapshotRecord Hash)
      → List (Result Str Str)
      → Result StoreError (List (SnapshotRecord Hash))
  replay_lines line_no records [] = ok records
  replay_lines line_no records (err e ∷ rest) = err (journal (text "journal read error: " ++ e))
  replay_lines line_no records (ok line ∷ rest) = do
    check_next rest
    kept ← replay_parsed (line_no + 1) records line (is_last rest) (parse_line line)
    replay_lines (line_no + 1) kept rest

  unfoldable pub replay : List ℕ → Result StoreError (List (SnapshotRecord Hash))
  replay bytes = replay_lines 0 [] (map read_line (split_lines bytes))

  -- `verify_snapshot_files`, file by file.
  unfoldable pub verify_file :
      Io → SnapshotRecord Hash → Option (List ℕ) → Disk → Result StoreError (Unit {0}) × Disk
  verify_file io r (some bytes) d = if eq_str bytes (render_body x r) then (ok tt, d) else (
    err (
        journal (
          text "snapshot file "
          ++ snapshot_path r.snapshot_id
          ++ text " does not match the journaled record (tampered or stale)")),
    d,
  )
  verify_file io r none d =
      let path = snapshot_path r.snapshot_id in
      rematerialized (io.write_file path) path (render_body x r) d

  unfoldable pub verify_snapshot_files :
      Io → List (SnapshotRecord Hash) → Disk → Result StoreError (Unit {0}) × Disk
  verify_snapshot_files io [] d = (ok tt, d)
  verify_snapshot_files io (r ∷ records) d =
      after (verify_file io r (d.files (snapshot_path r.snapshot_id)) d)
        (verify_snapshot_files io records)

  -- The records of the journal file that was found.
  unfoldable pub found_records :
      Result Str (Unit {0}) → Option (List ℕ) → Result StoreError (List (SnapshotRecord Hash))
  found_records reading none = ok []
  found_records reading (some bytes) = do
    map_err (λ e. journal (text "cannot read journal: " ++ e)) reading
    replay bytes

  unfoldable pub read_records :
      Result Str (Unit {0})
      → Result Str (Unit {0})
      → Option (List ℕ)
      → Result StoreError (List (SnapshotRecord Hash))
  read_records parent reading found = do
    map_err (λ e. journal (text "cannot create journal dir: " ++ e)) parent
    found_records reading found

  -- Opening the journal for appending, after its records are read.
  unfoldable pub journal_opened :
      Result StoreError (List (SnapshotRecord Hash))
      → Result Str (Unit {0})
      → Disk
      → Result StoreError (List (SnapshotRecord Hash)) × Disk
  journal_opened (err e) appending d = (err e, d)
  journal_opened (ok records) (err e) d = (err (journal (text "cannot open journal: " ++ e)), d)
  journal_opened (ok records) (ok u) d = (ok records, touch_journal d)

  -- The journal part of `open`: the records that are replayed, and the file, which exists now.
  unfoldable pub open_journal :
      Io → Option (List ℕ) → Disk → Result StoreError (List (SnapshotRecord Hash)) × Disk
  open_journal io found d =
      journal_opened (read_records io.create_parent io.read_journal found) io.append_journal d

  unfoldable pub dir_verified :
      SnapshotStore Hash
      → Result StoreError (Unit {0}) × Disk
      → Result StoreError (SnapshotStore Hash) × Disk
  dir_verified s (err e, d) = (err e, d)
  dir_verified s (ok u, d) = (ok s, d)

  unfoldable pub dir_created :
      Io
      → Result Str (Unit {0})
      → SnapshotStore Hash
      → Disk
      → Result StoreError (SnapshotStore Hash) × Disk
  dir_created io (err e) s d = (err (journal (text "cannot create snapshot dir: " ++ e)), d)
  dir_created io (ok u) s d = dir_verified s (verify_snapshot_files io s.records d)

  -- The snapshot directory part of `open`.
  unfoldable pub open_dir :
      Io → Bool → SnapshotStore Hash → Disk → Result StoreError (SnapshotStore Hash) × Disk
  open_dir io false s d = (ok s, d)
  open_dir io true s d = dir_created io io.create_dir s d

  unfoldable pub journal_read :
      Io
      → Bool
      → Result StoreError (List (SnapshotRecord Hash)) × Disk
      → Result StoreError (SnapshotStore Hash) × Disk
  journal_read io has_dir (err e, d) = (err e, d)
  journal_read io has_dir (ok records, d) =
      open_dir io has_dir (record { records = records; journaled = true; has_dir = has_dir }) d

  -- `SnapshotStore::open`
  unfoldable pub open_store :
      Io → Bool → Bool → Disk → Result StoreError (SnapshotStore Hash) × Disk
  open_store io false has_dir d =
      open_dir io has_dir (record { records = []; journaled = false; has_dir = has_dir }) d
  open_store io true has_dir d = journal_read io has_dir (open_journal io d.journal d)

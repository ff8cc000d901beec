-- ===== src/Store/Appending.antt =====
-- `append_snapshot` of src/store.rs: the checks, the journal line, the snapshot file, the index.
use unidpp_archive.Prelude.{ℕ, Bool, true, false, not, List, [], ◌∷◌, ◌++◌, ◌==◌, length}
use unidpp_archive.Result.{Result, ok, err, ◌>>=◌, ◌>>◌, map_err, fail_if}
use unidpp_archive.Text.{Str, text}
use unidpp_archive.Text.Decimal.{to_string}
use unidpp_archive.External.{External}
use unidpp_archive.Model.Record.{SnapshotRecord}
use unidpp_archive.Model.Document.{render_body}
use unidpp_archive.Model.Journal.{to_journal_json}
use unidpp_archive.Store.Files.{
  Disk, Io, WriteOutcome, written, write_result, append_bytes, put_written,
}
use unidpp_archive.Store.Opening.{StoreError, journal, conflict, SnapshotStore, snapshot_path}

-- Writing a journal line, whole or in part.
unfoldable pub line_written : WriteOutcome → Str → Disk → Result StoreError (Unit {0}) × Disk
line_written outcome line d = (
  map_err (λ e. journal (text "journal write failed: " ++ e)) (write_result outcome),
  append_bytes (written outcome line) d,
)

-- Writing a snapshot file, whole, in part, or not at all.
unfoldable pub file_written :
    WriteOutcome → Str → List ℕ → Disk → Result StoreError (Unit {0}) × Disk
file_written outcome path body d = (
  map_err (λ e. journal (text "cannot write snapshot file " ++ path ++ text ": " ++ e))
      (write_result outcome),
  put_written outcome path body d,
)

module _ (x : External) where
  open x use {Hash, from_str, to_line, sha256, eq_hash}

  -- `reserve`, but for the clock.
  unfoldable pub next_seq : SnapshotStore Hash → ℕ
  next_seq s = length s.records

  -- The two checks of `append_snapshot`, before anything is written.
  unfoldable pub check_append :
      SnapshotStore Hash → SnapshotRecord Hash → Result StoreError (Unit {0})
  check_append s r = do
    fail_if (not (r.seq == length s.records)) (
        conflict (
          text "snapshot seq "
          ++ to_string r.seq
          ++ text " is not the next sequence number ("
          ++ to_string (length s.records)
          ++ text ")"))
    fail_if (not (eq_hash (sha256 (render_body x r ∷ [])) r.body_digest))
        (journal (text "record body digest does not match its rendered bytes"))

  -- The journal line and its end.
  unfoldable pub journal_line : SnapshotRecord Hash → Result Str Str
  journal_line r = do line ← to_line (to_journal_json x r); ok (line ++ 10 ∷ [])

  unfoldable pub append_printed : Io → Result Str Str → Disk → Result StoreError (Unit {0}) × Disk
  append_printed io (err e) d = (err (journal (text "cannot serialize record: " ++ e)), d)
  append_printed io (ok line) d = line_written io.write_line line d

  -- `if let Some(j) = self.journal`
  unfoldable pub append_line :
      Io → Bool → SnapshotRecord Hash → Disk → Result StoreError (Unit {0}) × Disk
  append_line io false r d = (ok tt, d)
  append_line io true r d = append_printed io (journal_line r) d

  -- `if let Some(dir) = &self.snapshot_dir`
  unfoldable pub append_file :
      Io → Bool → SnapshotRecord Hash → Disk → Result StoreError (Unit {0}) × Disk
  append_file io false r d = (ok tt, d)
  append_file io true r d =
      let path = snapshot_path r.snapshot_id in
      file_written (io.write_file path) path (render_body x r) d

  -- The record enters the index when nothing failed.
  unfoldable pub index_record :
      SnapshotStore Hash
      → SnapshotRecord Hash
      → Result StoreError (Unit {0}) × Disk
      → Result StoreError (SnapshotStore Hash) × Disk
  index_record s r (err e, d) = (err e, d)
  index_record s r (ok u, d) = (ok (record s { records = s.records ++ r ∷ [] }), d)

  -- What follows the journal line.
  unfoldable pub write_file_next :
      Io
      → SnapshotStore Hash
      → SnapshotRecord Hash
      → Result StoreError (Unit {0}) × Disk
      → Result StoreError (SnapshotStore Hash) × Disk
  write_file_next io s r (err e, d) = (err e, d)
  write_file_next io s r (ok u, d) = index_record s r (append_file io s.has_dir r d)

  -- What `append_snapshot` does after its checks.
  unfoldable pub write_record :
      Io
      → SnapshotStore Hash
      → SnapshotRecord Hash
      → Disk
      → Result StoreError (SnapshotStore Hash) × Disk
  write_record io s r d = write_file_next io s r (append_line io s.journaled r d)

  -- What follows the checks.
  unfoldable pub append_checked :
      Io
      → SnapshotStore Hash
      → SnapshotRecord Hash
      → Disk
      → Result StoreError (Unit {0})
      → Result StoreError (SnapshotStore Hash) × Disk
  append_checked io s r d (err e) = (err e, d)
  append_checked io s r d (ok u) = write_record io s r d

  -- On an error the index stays as it is.
  unfoldable pub append_snapshot :
      Io
      → SnapshotStore Hash
      → SnapshotRecord Hash
      → Disk
      → Result StoreError (SnapshotStore Hash) × Disk
  append_snapshot io s r d = append_checked io s r d (check_append s r)

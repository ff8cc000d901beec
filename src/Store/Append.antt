-- ===== src/Store/Append.antt =====
-- The index and the files of src/store.rs after an append.
use unidpp_archive.Prelude.{
  ℕ, suc, ◌+◌, ◌≡◌, sym, ap, ◌∙◌, true, some, List, [], ◌∷◌, ◌++◌, ◌==◌, length, append-nil,
  append_assoc, arith, subst, All,
}
use unidpp_archive.Result.{ok}
use unidpp_archive.Text.{Str}
use unidpp_archive.External.{External, Documented}
use unidpp_archive.Model.Record.{SnapshotRecord}
use unidpp_archive.Model.Document.{render_body}
use unidpp_archive.Store.Files.{Disk, Io, done, append_bytes, put_file, put_written}
use unidpp_archive.Store.Opening.{SnapshotStore, snapshot_path}
use unidpp_archive.Store.Appending.{
  journal_line, check_append, line_written, file_written, append_printed, index_record,
  write_file_next, append_line, append_file, write_record, append_checked, append_snapshot,
}
use unidpp_archive.Store.Lines.{IsRecordAt, IsHistory, journal_text, Line, line_of, or_empty}

-- Every call of the operating system succeeds.
pub record AllDone (io : Io) : Type 0 where
  pub parent_done : io.create_parent ≡ ok tt
  pub dir_done : io.create_dir ≡ ok tt
  pub read_done : io.read_journal ≡ ok tt
  pub append_done : io.append_journal ≡ ok tt
  pub line_done : io.write_line ≡ done
  pub file_done : (name : Str) → io.write_file name ≡ done

module _ (x : External) where
  open x use {Hash}

  -- The file of a record holds its rendered body.
  abbrev pub HasFile : Disk → SnapshotRecord Hash → Type 0
  HasFile d r = d.files (snapshot_path r.snapshot_id) ≡ some (render_body x r)

  -- A store with a journal and a snapshot directory, and the files that belong to its index.
  pub record IsConsistent (s : SnapshotStore Hash) (d : Disk) : Type 0 where
    pub journaled_is : s.journaled ≡ true
    pub has_dir_is : s.has_dir ≡ true
    pub history : IsHistory x 0 s.records
    pub journal_is : d.journal ≡ some (journal_text x s.records)
    pub files_are : All (HasFile d) s.records

  pub journal_text-append :
      (records : List (SnapshotRecord Hash)) (r : SnapshotRecord Hash)
      → journal_text x (records ++ r ∷ []) ≡ journal_text x records ++ or_empty (journal_line x r)
  journal_text-append [] r = append-nil _
  journal_text-append (q ∷ records) r =
      rw (journal_text-append records r)
        (sym (append_assoc (or_empty (journal_line x q)) (journal_text x records) _))

  pub IsHistory-append :
      (records : List (SnapshotRecord Hash)) (n : ℕ) (r : SnapshotRecord Hash)
      → IsHistory x n records
      → IsRecordAt x (n + length records) r
      → IsHistory x n (records ++ r ∷ [])
  IsHistory-append [] n r h at = (subst (λ k. IsRecordAt x k r) (omega arith) at, tt)
  IsHistory-append (q ∷ records) n r h at =
      (h.0, IsHistory-append records (suc n) r h.1 (subst (λ k. IsRecordAt x k r) (omega arith) at))

module _ (x : External) (documented : Documented x) where
  open x use {Hash}

  pub check_append-ok :
      (s : SnapshotStore Hash) (r : SnapshotRecord Hash)
      → IsRecordAt x (length s.records) r
      → check_append x s r ≡ ok tt
  unfolding check_append
  check_append-ok s r h =
      let same : (r.seq == length s.records) ≡ true = ground (arith, h.seq_is) in
      rw (same, h.digest)

  pub append_line-ok :
      (io : Io) (r : SnapshotRecord Hash) (d : Disk)
      → io.write_line ≡ done
      → Line x r
      → append_line x io true r d ≡ (ok tt, append_bytes (or_empty (journal_line x r)) d)
  unfolding append_line append_printed line_written
  append_line-ok io r d line_done line =
      rw line.written_as (ap (λ o. line_written o (line.content ++ 10 ∷ []) d) line_done)

  append_file-ok :
      (io : Io) (r : SnapshotRecord Hash) (d : Disk)
      → AllDone io
      → append_file x io true r d
        ≡ (ok tt, put_file (snapshot_path r.snapshot_id) (render_body x r) d)
  unfolding append_file file_written put_written
  append_file-ok io r d fine =
      ap (λ o. file_written o (snapshot_path r.snapshot_id) (render_body x r) d)
        (fine.file_done (snapshot_path r.snapshot_id))

  write_record-ok :
      (io : Io) (s : SnapshotStore Hash) (r : SnapshotRecord Hash) (d : Disk)
      → AllDone io
      → s.journaled ≡ true
      → s.has_dir ≡ true
      → Line x r
      → write_record x io s r d ≡ (
        ok (record s { records = s.records ++ r ∷ [] }),
        put_file
            (snapshot_path r.snapshot_id)
            (render_body x r)
            (append_bytes (or_empty (journal_line x r)) d),
      )
  unfolding write_record write_file_next index_record
  write_record-ok io s r d fine journaled dir line =
      let d₁ = append_bytes (or_empty (journal_line x r)) d in
      let line_done : append_line x io s.journaled r d ≡ (ok tt, d₁) =
        subst (λ b. append_line x io b r d ≡ (ok tt, d₁)) (sym journaled)
          (append_line-ok io r d fine.line_done line) in
      let file_done : append_file x io s.has_dir r d₁
          ≡ (ok tt, put_file (snapshot_path r.snapshot_id) (render_body x r) d₁) =
        subst
          (λ b.
            append_file x io b r d₁
            ≡ (ok tt, put_file (snapshot_path r.snapshot_id) (render_body x r) d₁))
          (sym dir) (append_file-ok io r d₁ fine) in
      ap (write_file_next x io s r) line_done ∙ ap (index_record x s r) file_done

  -- Appending the next record, with every write done.
  pub append_snapshot-ok :
      (io : Io) (s : SnapshotStore Hash) (r : SnapshotRecord Hash) (d : Disk)
      → AllDone io
      → s.journaled ≡ true
      → s.has_dir ≡ true
      → IsRecordAt x (length s.records) r
      → append_snapshot x io s r d ≡ (
        ok (record s { records = s.records ++ r ∷ [] }),
        put_file
            (snapshot_path r.snapshot_id)
            (render_body x r)
            (append_bytes (or_empty (journal_line x r)) d),
      )
  unfolding append_snapshot append_checked
  append_snapshot-ok io s r d fine journaled dir h =
      ap (append_checked x io s r d) (check_append-ok s r h)
      ∙ (write_record-ok io s r d fine journaled dir (line_of x documented r h.journalable))

-- ===== src/Store/Restart.antt =====
-- The index and the files of src/store.rs after an append and after a restart.
use unidpp_archive.Prelude.{
  ℕ, suc, ◌+◌, ◌<◌, ◌≡◌, ◌≢◌, refl, sym, ap, ap₂, ◌∙◌, true, some, List, [], ◌∷◌, ◌++◌, length,
  arith, subst, All, All-append,
}
use unidpp_archive.Result.{ok}
use unidpp_archive.Text.{eq_str_refl}
use unidpp_archive.External.{External, Documented}
use unidpp_archive.Model.Record.{SnapshotRecord, snapshot_id_of}
use unidpp_archive.Model.Document.{render_body}
use unidpp_archive.Model.Journal.Readable.{IsReadable}
use unidpp_archive.Store.Files.{Disk, Io, append_bytes, put_file}
use unidpp_archive.Store.Opening.{
  SnapshotStore, snapshot_path, verify_file, verify_snapshot_files, found_records, read_records,
  journal_opened, open_journal, dir_verified, dir_created, open_dir, journal_read, open_store,
}
use unidpp_archive.Store.Appending.{journal_line, append_snapshot}
use unidpp_archive.Store.Lines.{IsRecordAt, IsHistory, journal_text, or_empty}
use unidpp_archive.Store.Replay.{replay-journal_text}
use unidpp_archive.Store.Writes.{
  snapshot_path_injective, put_file-other, put_file-same, put_file-journal, append_bytes-journal,
  touch_journal-some,
}
use unidpp_archive.Store.Append.{
  AllDone, HasFile, IsConsistent, journal_text-append, IsHistory-append, append_snapshot-ok,
}

module _ (x : External) (documented : Documented x) where
  open x use {Hash}

  -- A record of another position keeps its file.
  HasFile-put :
      (q r : SnapshotRecord Hash) (d : Disk)
      → IsRecordAt x q.seq q
      → IsRecordAt x r.seq r
      → q.seq < r.seq
      → HasFile x d q
      → HasFile x (put_file (snapshot_path r.snapshot_id) (render_body x r) d) q
  HasFile-put q r d hq hr before there =
      let distinct : snapshot_path r.snapshot_id ≢ snapshot_path q.snapshot_id = λ e.
        let ids : snapshot_path (snapshot_id_of r.seq) ≡ snapshot_path (snapshot_id_of q.seq) =
          cc (hq.id_is, hr.id_is) in
        let same : r.seq ≡ q.seq =
          snapshot_path_injective r.seq q.seq hr.journalable.seq_in hq.journalable.seq_in ids in
        omega arith in
      put_file-other (snapshot_path r.snapshot_id) (snapshot_path q.snapshot_id) (render_body x r) d
        distinct
      ∙ there

  All-HasFile-put :
      (records : List (SnapshotRecord Hash)) (n : ℕ) (r : SnapshotRecord Hash) (d : Disk)
      → IsHistory x n records
      → IsRecordAt x (n + length records) r
      → All (HasFile x d) records
      → All (HasFile x (put_file (snapshot_path r.snapshot_id) (render_body x r) d)) records
  All-HasFile-put [] n r d h hr there = tt
  All-HasFile-put (q ∷ records) n r d h hr there =
      let later : IsRecordAt x (suc n + length records) r =
        subst (λ k. IsRecordAt x k r) (omega arith) hr in
      let before : q.seq < r.seq = omega (arith, h.0.seq_is, hr.seq_is) in
      let own : IsRecordAt x q.seq q = subst (λ k. IsRecordAt x k q) (sym h.0.seq_is) h.0 in
      let own_r : IsRecordAt x r.seq r = subst (λ k. IsRecordAt x k r) (sym hr.seq_is) hr in
      (
        HasFile-put q r d own own_r before there.0,
        All-HasFile-put records (suc n) r d h.1 later there.1,
      )

  pub All-HasFile-append_bytes :
      (records : List (SnapshotRecord Hash)) (bytes : List ℕ) (d : Disk)
      → All (HasFile x d) records
      → All (HasFile x (append_bytes bytes d)) records
  unfolding append_bytes
  All-HasFile-append_bytes records bytes d h = h

  -- What an append writes keeps the store consistent.
  pub appended-IsConsistent :
      (s : SnapshotStore Hash) (r : SnapshotRecord Hash) (d : Disk)
      → IsConsistent x s d
      → IsRecordAt x (length s.records) r
      → IsConsistent x
          (record s { records = s.records ++ r ∷ [] })
          (put_file
            (snapshot_path r.snapshot_id)
            (render_body x r)
            (append_bytes (or_empty (journal_line x r)) d))
  appended-IsConsistent s r d h hr =
      let line = or_empty (journal_line x r) in
      let d₁ = append_bytes line d in
      let d' = put_file (snapshot_path r.snapshot_id) (render_body x r) d₁ in
      let own : HasFile x d' r = put_file-same (snapshot_path r.snapshot_id) (render_body x r) d₁ in
      let at_end : IsRecordAt x (0 + length s.records) r =
        subst (λ k. IsRecordAt x k r) (omega arith) hr in
      record {
        journaled_is = h.journaled_is;
        has_dir_is = h.has_dir_is;
        history = IsHistory-append x s.records 0 r h.history at_end;
        journal_is =
            put_file-journal (snapshot_path r.snapshot_id) (render_body x r) d₁
            ∙ append_bytes-journal line (journal_text x s.records) d h.journal_is
            ∙ ap some (sym (journal_text-append x s.records r));
        files_are =
            All-append (HasFile x d') s.records (r ∷ [])
              (All-HasFile-put s.records 0 r d₁ h.history at_end
                (All-HasFile-append_bytes s.records line d h.files_are))
              (own, tt);
      }

  -- For a documented external library: when every call of the operating system succeeds, the
  -- store is consistent with its files, and the record is one that the journal can hold at the
  -- next position, then the append succeeds, the record stands at the end of the index, and the
  -- store is consistent with the files again.
  pub append_snapshot-IsConsistent :
      (io : Io) (s : SnapshotStore Hash) (r : SnapshotRecord Hash) (d : Disk)
      → AllDone io
      → IsConsistent x s d
      → IsRecordAt x (length s.records) r
      → (s' : SnapshotStore Hash) × (d' : Disk) × (append_snapshot x io s r d ≡ (ok s', d'))
        × (s'.records ≡ s.records ++ r ∷ [])
        × IsConsistent x s' d'
  append_snapshot-IsConsistent io s r d fine h hr = (
    record s { records = s.records ++ r ∷ [] },
    put_file (snapshot_path r.snapshot_id) (render_body x r)
        (append_bytes (or_empty (journal_line x r)) d),
    append_snapshot-ok x documented io s r d fine h.journaled_is h.has_dir_is hr,
    refl,
    appended-IsConsistent s r d h hr,
  )

  pub verify_file-same :
      (io : Io) (r : SnapshotRecord Hash) (d : Disk)
      → verify_file x io r (some (render_body x r)) d ≡ (ok tt, d)
  unfolding verify_file
  verify_file-same io r d = rw (eq_str_refl (render_body x r))

  -- Files that hold what the index says are left alone.
  verify_snapshot_files-same :
      (io : Io) (records : List (SnapshotRecord Hash)) (d : Disk)
      → All (HasFile x d) records
      → verify_snapshot_files x io records d ≡ (ok tt, d)
  unfolding verify_snapshot_files
  verify_snapshot_files-same io [] d h = refl
  verify_snapshot_files-same io (r ∷ records) d h =
      rw (h.0, verify_file-same io r d) (verify_snapshot_files-same io records d h.1)

  read_records-journal :
      (io : Io) (records : List (SnapshotRecord Hash))
      → AllDone io
      → IsHistory x 0 records
      → All IsReadable records
      → read_records x io.create_parent io.read_journal (some (journal_text x records)) ≡ ok records
  unfolding read_records found_records
  read_records-journal io records fine h readable =
      ap₂ (λ p q. read_records x p q (some (journal_text x records))) fine.parent_done
        fine.read_done
      ∙ replay-journal_text x documented records h readable

  pub open_journal-same :
      (io : Io) (records : List (SnapshotRecord Hash)) (d : Disk)
      → AllDone io
      → IsHistory x 0 records
      → All IsReadable records
      → d.journal ≡ some (journal_text x records)
      → open_journal x io d.journal d ≡ (ok records, d)
  unfolding open_journal journal_opened
  open_journal-same io records d fine h readable found =
      ap (λ j. open_journal x io j d) found
      ∙ ap₂ (λ p q. journal_opened x p q d) (read_records-journal io records fine h readable)
          fine.append_done
      ∙ ap (λ e. (ok records, e)) (touch_journal-some (journal_text x records) d found)

  pub open_dir-same :
      (io : Io) (s : SnapshotStore Hash) (d : Disk)
      → AllDone io
      → All (HasFile x d) s.records
      → open_dir x io true s d ≡ (ok s, d)
  unfolding open_dir dir_created dir_verified
  open_dir-same io s d fine h =
      ap (λ c. dir_created x io c s d) fine.dir_done
      ∙ ap (dir_verified x s) (verify_snapshot_files-same io s.records d h)

  -- For a documented external library: when every call of the operating system succeeds, opening the
  -- files that a store with a journal and a snapshot directory is consistent with gives that store,
  -- and leaves its files as they are, provided that the receipts of its records are read back
  -- (nested at most 125 deep, and with no other number than a `u64`).
  pub open_store-IsConsistent :
      (io : Io) (s : SnapshotStore Hash) (d : Disk)
      → AllDone io
      → IsConsistent x s d
      → All IsReadable s.records
      → open_store x io true true d ≡ (ok s, d)
  unfolding open_store journal_read
  open_store-IsConsistent io s d fine h readable =
      ap (journal_read x io true)
        (open_journal-same io s.records d fine h.history readable h.journal_is)
      ∙ open_dir-same io (record { records = s.records; journaled = true; has_dir = true }) d fine
          h.files_are
      ∙ ap₂ (λ a b. (ok (record { records = s.records; journaled = a; has_dir = b }), d))
          (sym h.journaled_is) (sym h.has_dir_is)

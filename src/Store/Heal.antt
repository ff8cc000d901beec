-- ===== src/Store/Heal.antt =====
-- Opening a store whose snapshot files are missing.
use unidpp_archive.Prelude.{
  ℕ, suc, ◌<◌, ◌≡◌, ◌≢◌, ◌⊎◌, inl, inr, refl, sym, ap, ◌∙◌, true, none, some, List, [], ◌∷◌, arith,
  subst, All,
}
use unidpp_archive.Result.{Result, ok, err}
use unidpp_archive.Text.{Str}
use unidpp_archive.External.{External, Documented}
use unidpp_archive.Model.Record.{SnapshotRecord, snapshot_id_of}
use unidpp_archive.Model.Document.{render_body}
use unidpp_archive.Model.Journal.Readable.{IsReadable}
use unidpp_archive.Store.Files.{Disk, Io, put_file, put_written}
use unidpp_archive.Store.Opening.{
  StoreError, SnapshotStore, snapshot_path, after, rematerialized, verify_file,
  verify_snapshot_files, open_dir, dir_created, dir_verified, journal_read, open_store,
}
use unidpp_archive.Store.Lines.{IsRecordAt, IsHistory, journal_text}
use unidpp_archive.Store.Append.{AllDone, HasFile, IsConsistent}
use unidpp_archive.Store.Writes.{
  snapshot_path_injective, put_file-other, put_file-same, put_file-journal,
}
use unidpp_archive.Store.Restart.{open_journal-same, verify_file-same}

module _ (x : External) (documented : Documented x) where
  open x use {Hash}

  -- The file of a record holds its body, or is not there.
  abbrev pub IsIntact : Disk → SnapshotRecord Hash → Type 0
  IsIntact d r = HasFile x d r ⊎ (d.files (snapshot_path r.snapshot_id) ≡ none)

  -- Records of two positions have two files.
  distinct_paths :
      (q r : SnapshotRecord Hash) (m n : ℕ)
      → IsRecordAt x m q
      → IsRecordAt x n r
      → m < n
      → snapshot_path q.snapshot_id ≢ snapshot_path r.snapshot_id
  distinct_paths q r m n hq hr before e =
      let ids : snapshot_path (snapshot_id_of q.seq) ≡ snapshot_path (snapshot_id_of r.seq) =
        cc (hq.id_is, hr.id_is) in
      let same : q.seq ≡ r.seq =
        snapshot_path_injective q.seq r.seq hq.journalable.seq_in hr.journalable.seq_in ids in
      omega (arith, same, hq.seq_is, hr.seq_is)

  -- The files of the records behind a position are other files.
  abbrev pub IsOther : Str → SnapshotRecord Hash → Type 0
  IsOther name r = name ≢ snapshot_path r.snapshot_id

  pub later_paths :
      (q : SnapshotRecord Hash) (m n : ℕ) (records : List (SnapshotRecord Hash))
      → IsRecordAt x m q
      → m < n
      → IsHistory x n records
      → All (IsOther (snapshot_path q.snapshot_id)) records
  later_paths q m n [] hq before h = tt
  later_paths q m n (r ∷ records) hq before h = (
    distinct_paths q r m n hq h.0 before,
    later_paths q m (suc n) records hq (omega (arith, before)) h.1,
  )

  -- Files that stay as they are stay intact.
  pub keep-IsIntact :
      (q : SnapshotRecord Hash) (d d' : Disk) (records : List (SnapshotRecord Hash))
      → All (IsOther (snapshot_path q.snapshot_id)) records
      → ((name : Str) → snapshot_path q.snapshot_id ≢ name → d'.files name ≡ d.files name)
      → All (IsIntact d) records
      → All (IsIntact d') records
  keep-IsIntact q d d' [] other same h = tt
  keep-IsIntact q d d' (r ∷ records) other same h =
      let kept = same (snapshot_path r.snapshot_id) other.0 in
      (
        elim h.0 [ inl e ↦ inl (kept ∙ e) | inr e ↦ inr (kept ∙ e) ],
        keep-IsIntact q d d' records other.1 same h.1,
      )

  -- Verification of one file that is intact: it is there afterwards, and the others are as before.
  pub record Verified (r : SnapshotRecord Hash) (d : Disk) (p : Result StoreError (Unit {0}) × Disk)
      : Type 0 where
    pub fine : p.0 ≡ ok tt
    pub there : HasFile x p.1 r
    pub journal_kept : p.1.journal ≡ d.journal
    pub others : (name : Str) → snapshot_path r.snapshot_id ≢ name → p.1.files name ≡ d.files name

  verify_file-missing :
      (io : Io) (r : SnapshotRecord Hash) (d : Disk)
      → AllDone io
      → verify_file x io r none d
        ≡ (ok tt, put_file (snapshot_path r.snapshot_id) (render_body x r) d)
  unfolding verify_file rematerialized put_written
  verify_file-missing io r d fine =
      ap (λ o. rematerialized o (snapshot_path r.snapshot_id) (render_body x r) d)
        (fine.file_done (snapshot_path r.snapshot_id))

  pub verify_file-IsIntact :
      (io : Io) (r : SnapshotRecord Hash) (d : Disk)
      → AllDone io
      → IsIntact d r
      → Verified r d (verify_file x io r (d.files (snapshot_path r.snapshot_id)) d)
  verify_file-IsIntact io r d fine (inl e) =
      let same : verify_file x io r (d.files (snapshot_path r.snapshot_id)) d ≡ (ok tt, d) =
        ap (λ f. verify_file x io r f d) e ∙ verify_file-same x documented io r d in
      subst (Verified r d) (sym same)
        (record { fine = refl; there = e; journal_kept = refl; others = λ name h. refl })
  verify_file-IsIntact io r d fine (inr e) =
      let path = snapshot_path r.snapshot_id in
      let made : verify_file x io r (d.files path) d ≡ (ok tt, put_file path (render_body x r) d) =
        ap (λ f. verify_file x io r f d) e ∙ verify_file-missing io r d fine in
      subst (Verified r d) (sym made) (record {
        fine = refl;
        there = put_file-same path (render_body x r) d;
        journal_kept = put_file-journal path (render_body x r) d;
        others = λ name h. put_file-other path name (render_body x r) d h;
      })

  -- Verification of all files that are intact.
  pub record AllVerified (records : List (SnapshotRecord Hash)) (d : Disk)
      (p : Result StoreError (Unit {0}) × Disk) : Type 0 where
    pub all_fine : p.0 ≡ ok tt
    pub all_there : All (HasFile x p.1) records
    pub journal_as_before : p.1.journal ≡ d.journal
    pub others_as_before : (name : Str) → All (IsOther name) records → p.1.files name ≡ d.files name

  pub after-ok :
      (p : Result StoreError (Unit {0}) × Disk) (next : Disk → Result StoreError (Unit {0}) × Disk)
      → p.0 ≡ ok tt
      → after p next ≡ next p.1
  after-ok (ok u, d) next h = refl
  after-ok (err e, d) next h = cc

  verify_snapshot_files-IsIntact :
      (io : Io) (records : List (SnapshotRecord Hash)) (n : ℕ) (d : Disk)
      → AllDone io
      → IsHistory x n records
      → All (IsIntact d) records
      → AllVerified records d (verify_snapshot_files x io records d)
  unfolding verify_snapshot_files
  verify_snapshot_files-IsIntact io [] n d fine h intact = record {
    all_fine = refl;
    all_there = tt;
    journal_as_before = refl;
    others_as_before = λ name o. refl;
  }
  verify_snapshot_files-IsIntact io (r ∷ records) n d fine h intact =
      let path = snapshot_path r.snapshot_id in
      let first = verify_file x io r (d.files path) d in
      let one = verify_file-IsIntact io r d fine intact.0 in
      let others = later_paths r n (suc n) records h.0 (omega arith) h.1 in
      let rest =
        verify_snapshot_files-IsIntact io records (suc n) first.1 fine h.1
          (keep-IsIntact r d first.1 records others one.others intact.1) in
      subst (AllVerified (r ∷ records) d)
        (sym (after-ok first (verify_snapshot_files x io records) one.fine))
        (record {
          all_fine = rest.all_fine;
          all_there = (rest.others_as_before path others ∙ one.there, rest.all_there);
          journal_as_before = rest.journal_as_before ∙ one.journal_kept;
          others_as_before =
              λ name o. rest.others_as_before name o.1 ∙ one.others name (λ e. o.0 (sym e));
        })

  -- Opening, when the journal is that of the records and the operating system does every call, goes on
  -- to the verification of the files.
  pub open_store-journal :
      (io : Io) (records : List (SnapshotRecord Hash)) (d : Disk)
      → AllDone io
      → IsHistory x 0 records
      → All IsReadable records
      → d.journal ≡ some (journal_text x records)
      → open_store x io true true d
        ≡ dir_verified x
            (record { records = records; journaled = true; has_dir = true })
            (verify_snapshot_files x io records d)
  unfolding open_store journal_read open_dir dir_created
  open_store-journal io records d fine h readable found =
      ap (journal_read x io true)
        (open_journal-same x documented io records d fine h readable found)
      ∙ ap
          (λ c.
            dir_created x io c (record { records = records; journaled = true; has_dir = true }) d)
          fine.dir_done

  dir_verified-ok :
      (s : SnapshotStore Hash) (p : Result StoreError (Unit {0}) × Disk)
      → p.0 ≡ ok tt
      → dir_verified x s p ≡ (ok s, p.1)
  unfolding dir_verified
  dir_verified-ok s (ok u, d) h = refl
  dir_verified-ok s (err e, d) h = cc

  -- For a documented external library, when the journal is that of records it can hold, the receipts
  -- of these are read back (nested at most 125 deep, and with no other number than a `u64`), every
  -- snapshot file is as it was written or is missing, and every call of the operating system
  -- succeeds, the store opens with these records, and every file is there again.
  pub open_store-IsIntact :
      (io : Io) (records : List (SnapshotRecord Hash)) (d : Disk)
      → AllDone io
      → IsHistory x 0 records
      → All IsReadable records
      → d.journal ≡ some (journal_text x records)
      → All (IsIntact d) records
      → (s : SnapshotStore Hash) × (d' : Disk) × (open_store x io true true d ≡ (ok s, d'))
        × (s.records ≡ records)
        × IsConsistent x s d'
  open_store-IsIntact io records d fine h readable found intact =
      let s : SnapshotStore Hash = record { records = records; journaled = true; has_dir = true } in
      let p = verify_snapshot_files x io records d in
      let all = verify_snapshot_files-IsIntact io records 0 d fine h intact in
      (
        s,
        p.1,
        open_store-journal io records d fine h readable found ∙ dir_verified-ok s p all.all_fine,
        refl,
        record {
          journaled_is = refl;
          has_dir_is = refl;
          history = h;
          journal_is = all.journal_as_before ∙ found;
          files_are = all.all_there;
        },
      )

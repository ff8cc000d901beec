-- ===== src/Store/Tampered.antt =====
-- Opening a store of which a snapshot file was changed.
use unidpp_archive.Prelude.{
  ℕ, suc, ◌≡◌, ◌≢◌, inl, inr, sym, ◌∙◌, true, false, some, List, [], ◌∷◌, ◌++◌, arith, subst, All,
  All-split, Bool-cases,
}
use unidpp_archive.Result.{Result, ok, err, IsErr}
use unidpp_archive.Text.{eq_str, eq_str→eq}
use unidpp_archive.External.{External, Documented}
use unidpp_archive.Model.Record.{SnapshotRecord}
use unidpp_archive.Model.Document.{render_body}
use unidpp_archive.Model.Journal.Readable.{IsReadable}
use unidpp_archive.Store.Files.{Disk, Io}
use unidpp_archive.Store.Opening.{
  StoreError, SnapshotStore, snapshot_path, after, verify_file, verify_snapshot_files, dir_verified,
  open_store,
}
use unidpp_archive.Store.Lines.{IsHistory, journal_text}
use unidpp_archive.Store.Append.{AllDone}
use unidpp_archive.Store.Heal.{
  IsIntact, verify_file-IsIntact, keep-IsIntact, after-ok, open_store-journal, later_paths, IsOther,
}

module _ (x : External) (documented : Documented x) where
  open x use {Hash}

  verify_file-tampered :
      (io : Io) (r : SnapshotRecord Hash) (bytes : List ℕ) (d : Disk)
      → eq_str bytes (render_body x r) ≡ false
      → IsErr (verify_file x io r (some bytes) d).0
  unfolding verify_file
  verify_file-tampered io r bytes d h = rw h tt

  after-IsErr :
      (p : Result StoreError (Unit {0}) × Disk) (next : Disk → Result StoreError (Unit {0}) × Disk)
      → IsErr p.0
      → IsErr (after p next).0
  after-IsErr (ok u, d) next h = absurd h
  after-IsErr (err e, d) next h = tt

  -- A changed file behind files that are intact.
  verify_snapshot_files-tampered :
      (io : Io) (before later : List (SnapshotRecord Hash)) (r : SnapshotRecord Hash) (n : ℕ)
      (bytes : List ℕ) (d : Disk)
      → AllDone io
      → IsHistory x n (before ++ r ∷ later)
      → All (IsIntact x documented d) before
      → d.files (snapshot_path r.snapshot_id) ≡ some bytes
      → eq_str bytes (render_body x r) ≡ false
      → IsErr (verify_snapshot_files x io (before ++ r ∷ later) d).0
  unfolding verify_snapshot_files
  verify_snapshot_files-tampered io [] later r n bytes d fine h intact found other =
      after-IsErr (verify_file x io r (d.files (snapshot_path r.snapshot_id)) d)
        (verify_snapshot_files x io later)
        (subst (λ f. IsErr (verify_file x io r f d).0) (sym found)
          (verify_file-tampered io r bytes d other))
  verify_snapshot_files-tampered io (q ∷ before) later r n bytes d fine h intact found other =
      let first = verify_file x io q (d.files (snapshot_path q.snapshot_id)) d in
      let one = verify_file-IsIntact x documented io q d fine intact.0 in
      let others =
        later_paths x documented q n (suc n) (before ++ r ∷ later) h.0 (omega arith) h.1 in
      let split =
        All-split (IsOther x documented (snapshot_path q.snapshot_id)) before (r ∷ later) others in
      subst (λ (p : Result StoreError (Unit {0}) × Disk). IsErr p.0)
        (sym
          (after-ok x documented first (verify_snapshot_files x io (before ++ r ∷ later)) one.fine))
        (verify_snapshot_files-tampered io before later r (suc n) bytes first.1 fine h.1
          (keep-IsIntact x documented q d first.1 before split.0 one.others intact.1)
          (one.others (snapshot_path r.snapshot_id) split.1.0 ∙ found) other)

  dir_verified-IsErr :
      (s : SnapshotStore Hash) (p : Result StoreError (Unit {0}) × Disk)
      → IsErr p.0
      → IsErr (dir_verified x s p).0
  unfolding dir_verified
  dir_verified-IsErr s (ok u, d) h = absurd h
  dir_verified-IsErr s (err e, d) h = tt

  -- For a documented external library, when the file of a record holds other bytes than the
  -- record's rendered body, the store does not open: with the journal of records it can hold, their
  -- receipts ones that are read back (nested at most 125 deep, and with no other number than a
  -- `u64`), with the files of the records before it intact, and every call of the operating system
  -- succeeding.
  pub open_store-tampered :
      (io : Io) (before later : List (SnapshotRecord Hash)) (r : SnapshotRecord Hash)
      (bytes : List ℕ) (d : Disk)
      → AllDone io
      → IsHistory x 0 (before ++ r ∷ later)
      → All IsReadable (before ++ r ∷ later)
      → d.journal ≡ some (journal_text x (before ++ r ∷ later))
      → All (IsIntact x documented d) before
      → d.files (snapshot_path r.snapshot_id) ≡ some bytes
      → bytes ≢ render_body x r
      → IsErr (open_store x io true true d).0
  open_store-tampered io before later r bytes d fine h readable found intact file other =
      let differs : eq_str bytes (render_body x r) ≡ false =
        elim (Bool-cases (eq_str bytes (render_body x r))) [
          | inl same ↦ absurd (other (eq_str→eq bytes (render_body x r) same))
          | inr e ↦ e
        ] in
      subst (λ (p : Result StoreError (SnapshotStore Hash) × Disk). IsErr p.0)
        (sym (open_store-journal x documented io (before ++ r ∷ later) d fine h readable found))
        (dir_verified-IsErr _ (verify_snapshot_files x io (before ++ r ∷ later) d)
          (verify_snapshot_files-tampered io before later r 0 bytes d fine h intact file differs))

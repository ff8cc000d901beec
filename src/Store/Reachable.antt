-- ===== src/Store/Reachable.antt =====
-- The stores that opening and appending can reach, and the invariant of their index.
use unidpp_archive.Prelude.{
  ℕ, ◌≡◌, refl, sym, Bool, true, false, List, [], ◌∷◌, ◌++◌, ◌==◌, length, arith, subst, Option,
  none, some,
}
use unidpp_archive.Result.{Result, ok, err, require-eq-ok, require-ok, ok_injective}
use unidpp_archive.Text.{Str}
use unidpp_archive.External.{External}
use unidpp_archive.Model.Record.{SnapshotRecord}
use unidpp_archive.Model.Document.{render_body}
use unidpp_archive.Store.Files.{Disk, Io}
use unidpp_archive.Store.Opening.{
  StoreError, SnapshotStore, found_records, read_records, verify_snapshot_files, journal_opened,
  open_journal, dir_verified, dir_created, open_dir, journal_read, open_store,
}
use unidpp_archive.Store.Appending.{
  check_append, append_line, append_file, index_record, write_file_next, write_record,
  append_checked, append_snapshot,
}
use unidpp_archive.Store.Invariant.{IsIndexedAt, IsIndexed, IsIndexed-append, replay-IsIndexed}

-- A result that is not an error, and its state.
abbrev pub IsDone : {E A D : Type 0} → Result E A × D → (A → Type 0) → Type 0
IsDone (ok a, d) P = P a
IsDone (err e, d) P = Unit

module _ (x : External) where
  open x use {Hash, sha256, eq_hash}

  -- The stores that a run of the service can have: opened on any files, with any answer of the
  -- operating system, and then changed by appends that succeed; an append that fails leaves the
  -- index, and between two steps the files can change in any way.
  pub data Reachable : SnapshotStore Hash → Type 0 where
    opened :
        (io : Io) (has_journal has_dir : Bool) (d d' : Disk) {s : SnapshotStore Hash}
        → open_store x io has_journal has_dir d ≡ (ok s, d')
        → Reachable s
    appended :
        (io : Io) (r : SnapshotRecord Hash) (d d' : Disk) {s s' : SnapshotStore Hash}
        → Reachable s
        → append_snapshot x io s r d ≡ (ok s', d')
        → Reachable s'

  -- An index all of whose records are in place.
  abbrev HasIndex : SnapshotStore Hash → Type 0
  HasIndex s = IsIndexed x 0 s.records

  dir_verified-HasIndex :
      (s : SnapshotStore Hash) (p : Result StoreError (Unit {0}) × Disk)
      → HasIndex s
      → IsDone (dir_verified x s p) HasIndex
  unfolding dir_verified
  dir_verified-HasIndex s (ok u, d) h = h
  dir_verified-HasIndex s (err e, d) h = tt

  dir_created-HasIndex :
      (io : Io) (created : Result Str (Unit {0})) (s : SnapshotStore Hash) (d : Disk)
      → HasIndex s
      → IsDone (dir_created x io created s d) HasIndex
  unfolding dir_created
  dir_created-HasIndex io (ok u) s d h =
      dir_verified-HasIndex s (verify_snapshot_files x io s.records d) h
  dir_created-HasIndex io (err e) s d h = tt

  open_dir-HasIndex :
      (io : Io) (has_dir : Bool) (s : SnapshotStore Hash) (d : Disk)
      → HasIndex s
      → IsDone (open_dir x io has_dir s d) HasIndex
  unfolding open_dir
  open_dir-HasIndex io true s d h = dir_created-HasIndex io io.create_dir s d h
  open_dir-HasIndex io false s d h = h

  read_records-IsIndexed :
      (parent reading : Result Str (Unit {0})) (found : Option (List ℕ))
      (records : List (SnapshotRecord Hash))
      → read_records x parent reading found ≡ ok records
      → IsIndexed x 0 records
  unfolding read_records found_records
  read_records-IsIndexed (err e) reading found records h = cc
  read_records-IsIndexed (ok u) reading none records h = subst (IsIndexed x 0) (ok_injective h) tt
  read_records-IsIndexed (ok u) (err e) (some bytes) records h = cc
  read_records-IsIndexed (ok u) (ok v) (some bytes) records h = replay-IsIndexed x bytes records h

  journal_opened-IsIndexed :
      (replayed : Result StoreError (List (SnapshotRecord Hash)))
      (appending : Result Str (Unit {0})) (d : Disk)
      → ((records : List (SnapshotRecord Hash)) → replayed ≡ ok records → IsIndexed x 0 records)
      → IsDone (journal_opened x replayed appending d) (IsIndexed x 0)
  unfolding journal_opened
  journal_opened-IsIndexed (err e) appending d h = tt
  journal_opened-IsIndexed (ok records) (err e) d h = tt
  journal_opened-IsIndexed (ok records) (ok u) d h = h records refl

  journal_read-HasIndex :
      (io : Io) (has_dir : Bool) (p : Result StoreError (List (SnapshotRecord Hash)) × Disk)
      → IsDone p (IsIndexed x 0)
      → IsDone (journal_read x io has_dir p) HasIndex
  unfolding journal_read
  journal_read-HasIndex io has_dir (err e, d) h = tt
  journal_read-HasIndex io has_dir (ok records, d) h =
      open_dir-HasIndex io has_dir
        (record { records = records; journaled = true; has_dir = has_dir }) d h

  open_store-HasIndex :
      (io : Io) (has_journal has_dir : Bool) (d : Disk)
      → IsDone (open_store x io has_journal has_dir d) HasIndex
  unfolding open_store open_journal
  open_store-HasIndex io false has_dir d =
      open_dir-HasIndex io has_dir (record { records = []; journaled = false; has_dir = has_dir }) d
        tt
  open_store-HasIndex io true has_dir d =
      journal_read-HasIndex io has_dir (open_journal x io d.journal d) (
        journal_opened-IsIndexed (read_records x io.create_parent io.read_journal d.journal)
          io.append_journal d (read_records-IsIndexed io.create_parent io.read_journal d.journal))

  check_append-IsIndexedAt :
      (s : SnapshotStore Hash) (r : SnapshotRecord Hash)
      → check_append x s r ≡ ok tt
      → IsIndexedAt x (length s.records) r
  unfolding check_append
  check_append-IsIndexedAt s r h =
      let (same, checked) = require-eq-ok (r.seq == length s.records) _ _ h in
      let digest = require-ok (eq_hash (sha256 (render_body x r ∷ [])) r.body_digest) _ checked in
      record { position = ground (arith, same); digest_is = digest }

  -- An append that succeeds adds the record, and only that, at the end of the index.
  index_record-ok :
      (s : SnapshotStore Hash) (r : SnapshotRecord Hash) (p : Result StoreError (Unit {0}) × Disk)
      → IsDone (index_record x s r p) (λ s'. s'.records ≡ s.records ++ r ∷ [])
  unfolding index_record
  index_record-ok s r (err e, d) = tt
  index_record-ok s r (ok u, d) = refl

  write_file_next-ok :
      (io : Io) (s : SnapshotStore Hash) (r : SnapshotRecord Hash)
      (p : Result StoreError (Unit {0}) × Disk)
      → IsDone (write_file_next x io s r p) (λ s'. s'.records ≡ s.records ++ r ∷ [])
  unfolding write_file_next
  write_file_next-ok io s r (err e, d) = tt
  write_file_next-ok io s r (ok u, d) = index_record-ok s r (append_file x io s.has_dir r d)

  abbrev pub IsAppendOf : SnapshotStore Hash → SnapshotRecord Hash → SnapshotStore Hash → Type 0
  IsAppendOf s r s' = (s'.records ≡ s.records ++ r ∷ []) × IsIndexedAt x (length s.records) r

  IsDone-map :
      {A D : Type 0} (p : Result StoreError A × D) (P Q : A → Type 0)
      → ((a : A) → P a → Q a)
      → IsDone p P
      → IsDone p Q
  IsDone-map (ok a, d) P Q f h = f a h
  IsDone-map (err e, d) P Q f h = tt

  append_checked-ok :
      (io : Io) (s : SnapshotStore Hash) (r : SnapshotRecord Hash) (d : Disk)
      (c : Result StoreError (Unit {0}))
      → check_append x s r ≡ c
      → IsDone (append_checked x io s r d c) (IsAppendOf s r)
  unfolding append_checked write_record
  append_checked-ok io s r d (err e) h = tt
  append_checked-ok io s r d (ok u) h =
      IsDone-map (write_record x io s r d) (λ s'. s'.records ≡ s.records ++ r ∷ []) (IsAppendOf s r)
        (λ s' grown. (grown, check_append-IsIndexedAt s r h))
        (write_file_next-ok io s r (append_line x io s.journaled r d))

  -- An append that succeeds, whatever the operating system answers, puts the record, and only
  -- that, at the end of the index, and the record stands at its sequence number and has the
  -- digest of its rendered body.
  pub append_snapshot-IsAppendOf :
      (io : Io) (s : SnapshotStore Hash) (r : SnapshotRecord Hash) (d : Disk)
      → IsDone (append_snapshot x io s r d) (IsAppendOf s r)
  unfolding append_snapshot
  append_snapshot-IsAppendOf io s r d = append_checked-ok io s r d (check_append x s r) refl

  IsDone-ok :
      {A D : Type 0} (p : Result StoreError A × D) (P : A → Type 0) {a : A} {d : D}
      → p ≡ (ok a, d)
      → IsDone p P
      → P a
  IsDone-ok p P e h = subst (λ q. IsDone q P) e h

  -- The index of every store that opening any files and appending any records can reach, whatever
  -- the operating system answers and however the files change in between: each record stands at
  -- its own sequence number and has the digest of its rendered body.
  pub Reachable-IsIndexed : (s : SnapshotStore Hash) → Reachable s → IsIndexed x 0 s.records
  Reachable-IsIndexed s (opened io has_journal has_dir d d' e) =
      IsDone-ok (open_store x io has_journal has_dir d) HasIndex e
        (open_store-HasIndex io has_journal has_dir d)
  Reachable-IsIndexed s (appended io r d d' {s = before} reached e) =
      let (grown, at) =
        IsDone-ok (append_snapshot x io before r d) (IsAppendOf before r) e
          (append_snapshot-IsAppendOf io before r d) in
      subst (IsIndexed x 0) (sym grown) (
        IsIndexed-append x before.records 0 r (Reachable-IsIndexed before reached)
          (subst (λ k. IsIndexedAt x k r) (omega arith) at))

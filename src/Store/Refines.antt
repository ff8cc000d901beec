-- ===== src/Store/Refines.antt =====
-- The store of src/store.rs and an abstract one: a list, with appends and restarts.
use unidpp_archive.Prelude.{
  ◌≡◌, refl, sym, ap, ◌∙◌, true, List, [], ◌∷◌, ◌++◌, length, subst, All, All-append,
}
use unidpp_archive.Result.{Result, ok, err}
use unidpp_archive.External.{External, Documented}
use unidpp_archive.Model.Record.{SnapshotRecord}
use unidpp_archive.Model.Journal.Readable.{IsReadable}
use unidpp_archive.Store.Files.{Disk, Io}
use unidpp_archive.Store.Opening.{StoreError, SnapshotStore, open_store}
use unidpp_archive.Store.Appending.{append_snapshot}
use unidpp_archive.Store.Lines.{IsRecordAt}
use unidpp_archive.Store.Append.{AllDone, IsConsistent}
use unidpp_archive.Store.Restart.{append_snapshot-IsConsistent, open_store-IsConsistent}

-- What a client does: append a record, or restart the service.
pub data Op (Hash : Type 0) : Type 0 where
  append_op : SnapshotRecord Hash → Op Hash
  restart_op : Op Hash

-- The specification: a list that grows at its end, and that a restart does not change.
abbrev pub spec :
    {Hash : Type 0} → List (Op Hash) → List (SnapshotRecord Hash) → List (SnapshotRecord Hash)
spec [] records = records
spec (append_op r ∷ ops) records = spec ops (records ++ r ∷ [])
spec (restart_op ∷ ops) records = spec ops records

-- The next operation, unless there was an error.
abbrev pub next_op :
    {Hash : Type 0}
    → (SnapshotStore Hash → Disk → Result StoreError (SnapshotStore Hash) × Disk)
    → Result StoreError (SnapshotStore Hash) × Disk
    → Result StoreError (SnapshotStore Hash) × Disk
next_op next (ok s, d) = next s d
next_op next (err e, d) = (err e, d)

module _ (x : External) where
  open x use {Hash}

  -- The operations on the index and on the files; a restart forgets the index.
  pub run :
      Io
      → List (Op Hash)
      → SnapshotStore Hash
      → Disk
      → Result StoreError (SnapshotStore Hash) × Disk
  run io [] s d = (ok s, d)
  run io (append_op r ∷ ops) s d = next_op (run io ops) (append_snapshot x io s r d)
  run io (restart_op ∷ ops) s d = next_op (run io ops) (open_store x io s.journaled s.has_dir d)

  -- Each record that is appended is one that the journal can hold at its position, and its receipt
  -- is one that is read back.
  abbrev pub IsRun : List (Op Hash) → List (SnapshotRecord Hash) → Type 0
  IsRun [] records = Unit
  IsRun (append_op r ∷ ops) records =
      IsRecordAt x (length records) r × IsReadable r × IsRun ops (records ++ r ∷ [])
  IsRun (restart_op ∷ ops) records = IsRun ops records

module _ (x : External) (documented : Documented x) where
  open x use {Hash}

  -- For a documented external library, from a store that is consistent with its files, with every
  -- call of the operating system succeeding, and when each record that is appended is one that the
  -- journal can hold at its position, and all receipts are ones that are read back (nested at most
  -- 125 deep, and with no other number than a `u64`): any sequence of appends and restarts succeeds,
  -- its index is the list of the specification, and it is consistent with its files.
  pub run-spec :
      (io : Io) (ops : List (Op Hash)) (s : SnapshotStore Hash) (d : Disk)
      → AllDone io
      → IsConsistent x s d
      → All IsReadable s.records
      → IsRun x ops s.records
      → (s' : SnapshotStore Hash) × (d' : Disk) × (run x io ops s d ≡ (ok s', d'))
        × (s'.records ≡ spec ops s.records)
        × IsConsistent x s' d'
  unfolding run
  run-spec io [] s d fine h readable valid = (s, d, refl, refl, h)
  run-spec io (append_op r ∷ ops) s d fine h readable valid =
      let (s₁, d₁, appended, grown, consistent) =
        append_snapshot-IsConsistent x documented io s r d fine h valid.0 in
      let (s', d', ran, same, consistent') =
        run-spec io ops s₁ d₁ fine consistent
          (subst (All IsReadable) (sym grown)
            (All-append IsReadable s.records (r ∷ []) readable (valid.1, tt)))
          (subst (IsRun x ops) (sym grown) valid.2) in
      (s', d', ap (next_op (run x io ops)) appended ∙ ran, same ∙ ap (spec ops) grown, consistent')
  run-spec io (restart_op ∷ ops) s d fine h readable valid =
      let (s', d', ran, same, consistent) = run-spec io ops s d fine h readable valid in
      let opened : open_store x io s.journaled s.has_dir d ≡ (ok s, d) =
        ap (λ b. open_store x io b s.has_dir d) h.journaled_is
        ∙ (ap (λ b. open_store x io true b d) h.has_dir_is
            ∙ open_store-IsConsistent x documented io s d fine h readable) in
      (s', d', ap (next_op (run x io ops)) opened ∙ ran, same, consistent)

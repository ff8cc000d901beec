-- ===== src/Store/Reads.antt =====
-- Reading the index of src/store.rs by id.
use unidpp_archive.Prelude.{
  ℕ, zero, suc, ◌+◌, ◌<◌, ◌^◌, ◌≡◌, refl, sym, ap, ◌∙◌, false, some, List, [], ◌∷◌, arith, subst,
  get_elem?, Bool-cases, inl, inr,
}
use unidpp_archive.Text.{eq_str, eq_str_refl, eq_str→eq}
use unidpp_archive.External.{External}
use unidpp_archive.Model.Record.{SnapshotRecord, snapshot_id_of}
use unidpp_archive.Store.Opening.{SnapshotStore, snapshot_path}
use unidpp_archive.Store.Index.{find_record, get_snapshot}
use unidpp_archive.Store.Lines.{IsRecordAt, IsHistory}
use unidpp_archive.Store.Writes.{snapshot_path_injective}

-- Two sequence numbers below 2 ^ 64 with the same id are the same.
pub snapshot_id_of_injective :
    (m n : ℕ) → m < 2 ^ 64 → n < 2 ^ 64 → snapshot_id_of m ≡ snapshot_id_of n → m ≡ n
unfolding snapshot_path
snapshot_id_of_injective m n hm hn e = snapshot_path_injective m n hm hn (ap snapshot_path e)

module _ (x : External) where
  open x use {Hash}

  IsHistory-position :
      (records : List (SnapshotRecord Hash)) (start n : ℕ) (r : SnapshotRecord Hash)
      → IsHistory x start records
      → get_elem? records n ≡ some r
      → IsRecordAt x (start + n) r
  IsHistory-position [] start n r h e = cc
  IsHistory-position (q ∷ records) start zero r h e =
      let same : q ≡ r = cc in
      subst (λ k. IsRecordAt x k r) (omega arith) (subst (IsRecordAt x start) same h.0)
  IsHistory-position (q ∷ records) start (suc n) r h e =
      subst (λ k. IsRecordAt x k r) (omega arith) (IsHistory-position records (suc start) n r h.1 e)

  -- Records of two positions have two ids.
  distinct_ids :
      (q r : SnapshotRecord Hash) (m n : ℕ)
      → IsRecordAt x m q
      → IsRecordAt x n r
      → m < n
      → eq_str q.snapshot_id r.snapshot_id ≡ false
  distinct_ids q r m n hq hr before = elim (Bool-cases (eq_str q.snapshot_id r.snapshot_id)) [
    | inr e ↦ e
    | inl e ↦
        let ids : snapshot_id_of q.seq ≡ snapshot_id_of r.seq =
          sym hq.id_is ∙ eq_str→eq q.snapshot_id r.snapshot_id e ∙ hr.id_is in
        let same : q.seq ≡ r.seq =
          snapshot_id_of_injective q.seq r.seq hq.journalable.seq_in hr.journalable.seq_in ids in
        absurd (omega (arith, same, hq.seq_is, hr.seq_is))
  ]

  find_record-position :
      (records : List (SnapshotRecord Hash)) (start n : ℕ) (r : SnapshotRecord Hash)
      → IsHistory x start records
      → get_elem? records n ≡ some r
      → find_record x r.snapshot_id records ≡ some r
  unfolding find_record
  find_record-position [] start n r h e = cc
  find_record-position (q ∷ records) start zero r h e =
      let same : q ≡ r = cc in
      subst (λ p. find_record x p.snapshot_id (q ∷ records) ≡ some p) same
        (rw (eq_str_refl q.snapshot_id) refl)
  find_record-position (q ∷ records) start (suc n) r h e =
      let at = IsHistory-position records (suc start) n r h.1 e in
      rw (distinct_ids q r start (suc start + n) h.0 at (omega arith))
        (find_record-position records (suc start) n r h.1 e)

  -- In an index of records that the journal can hold, the record at a position is found under the
  -- id of that position.
  pub get_snapshot-position :
      (s : SnapshotStore Hash) (n : ℕ) (r : SnapshotRecord Hash)
      → IsHistory x 0 s.records
      → get_elem? s.records n ≡ some r
      → get_snapshot x s (snapshot_id_of n) ≡ some r
  unfolding get_snapshot
  get_snapshot-position s n r h e =
      let at = IsHistory-position s.records 0 n r h e in
      let position : r.seq ≡ n = omega (arith, at.seq_is) in
      subst (λ id. find_record x id s.records ≡ some r) (at.id_is ∙ ap snapshot_id_of position)
        (find_record-position s.records 0 n r h e)

-- ===== src/Store/Invariant.antt =====
-- What holds of the index of every store that can be reached: positions and digests.
use unidpp_archive.Prelude.{
  ℕ, suc, ◌+◌, ◌≡◌, Bool, true, false, not, ◌&&◌, List, [], ◌∷◌, ◌++◌, ◌==◌, length, arith, subst,
  map, if◌then◌else◌,
}
use unidpp_archive.Result.{Result, ok, err, require-eq-ok, >>-eq-ok, >>=-eq-ok, ok_injective}
use unidpp_archive.Text.{Str, trim, is_empty}
use unidpp_archive.Text.Lines.{split_lines, read_line}
use unidpp_archive.External.{External}
use unidpp_archive.Model.Record.{SnapshotRecord}
use unidpp_archive.Model.Document.{render_body}
use unidpp_archive.Store.Opening.{
  StoreError, is_last, check_next, replay_record, parse_line, replay_parsed, replay_lines, replay,
}

module _ (x : External) where
  open x use {Hash, sha256, eq_hash}

  -- A record stands at its own position, and its digest is that of its rendered body.
  pub record IsIndexedAt (n : ℕ) (r : SnapshotRecord Hash) : Type 0 where
    pub position : r.seq ≡ n
    pub digest_is : eq_hash (sha256 (render_body x r ∷ [])) r.body_digest ≡ true

  abbrev pub IsIndexed : ℕ → List (SnapshotRecord Hash) → Type 0
  IsIndexed n [] = Unit
  IsIndexed n (r ∷ records) = IsIndexedAt n r × IsIndexed (suc n) records

  pub IsIndexed-append :
      (records : List (SnapshotRecord Hash)) (n : ℕ) (r : SnapshotRecord Hash)
      → IsIndexed n records
      → IsIndexedAt (n + length records) r
      → IsIndexed n (records ++ r ∷ [])
  IsIndexed-append [] n r h at = (subst (λ k. IsIndexedAt k r) (omega arith) at, tt)
  IsIndexed-append (q ∷ records) n r h at =
      (h.0, IsIndexed-append records (suc n) r h.1 (subst (λ k. IsIndexedAt k r) (omega arith) at))

  -- A property of the kept records that one more replayed record does not break.
  replay_record-IsIndexed :
      (n : ℕ) (pre out : List (SnapshotRecord Hash)) (r : SnapshotRecord Hash)
      → IsIndexed 0 pre
      → replay_record x n pre r ≡ ok out
      → IsIndexed 0 out
  unfolding replay_record
  replay_record-IsIndexed n pre out r h e =
      let (same, checked) = require-eq-ok (r.seq == length pre) _ _ e in
      let (digest, kept) =
        require-eq-ok (eq_hash (sha256 (render_body x r ∷ [])) r.body_digest) _ _ checked in
      let position : r.seq ≡ 0 + length pre = ground (arith, same) in
      subst (IsIndexed 0) (ok_injective kept)
        (IsIndexed-append pre 0 r h (record { position = position; digest_is = digest }))

  kept_or_failed :
      (b : Bool) (pre out : List (SnapshotRecord Hash)) (f : StoreError)
      → (if b then ok pre else err f) ≡ ok out
      → pre ≡ out
  kept_or_failed true pre out f h = ok_injective h
  kept_or_failed false pre out f h = cc

  replay_parsed-IsIndexed :
      (n : ℕ) (pre out : List (SnapshotRecord Hash)) (line : Str) (last : Bool)
      (p : Result Str (SnapshotRecord Hash))
      → IsIndexed 0 pre
      → replay_parsed x n pre line last p ≡ ok out
      → IsIndexed 0 out
  unfolding replay_parsed
  replay_parsed-IsIndexed n pre out line last (ok r) h e = replay_record-IsIndexed n pre out r h e
  replay_parsed-IsIndexed n pre out line last (err f) h e =
      subst (IsIndexed 0) (kept_or_failed (last && not (is_empty (trim line))) pre out _ e) h

  replay_lines-IsIndexed :
      (lines : List (Result Str Str)) (n : ℕ) (pre out : List (SnapshotRecord Hash))
      → IsIndexed 0 pre
      → replay_lines x n pre lines ≡ ok out
      → IsIndexed 0 out
  unfolding replay_lines
  replay_lines-IsIndexed [] n pre out h e = subst (IsIndexed 0) (ok_injective e) h
  replay_lines-IsIndexed (err f ∷ rest) n pre out h e = cc
  replay_lines-IsIndexed (ok line ∷ rest) n pre out h e =
      let (read, more) = >>-eq-ok (check_next rest) _ e in
      let (kept, parsed, later) =
        >>=-eq-ok (replay_parsed x (n + 1) pre line (is_last rest) (parse_line x line)) _ more in
      replay_lines-IsIndexed rest (n + 1) kept out
        (replay_parsed-IsIndexed (n + 1) pre kept line (is_last rest) (parse_line x line) h parsed)
        later

  -- Whatever the bytes of the journal, the records of a replay that succeeds stand at their
  -- sequence numbers and have the digests of their rendered bodies.
  pub replay-IsIndexed :
      (bytes : List ℕ) (records : List (SnapshotRecord Hash))
      → replay x bytes ≡ ok records
      → IsIndexed 0 records
  unfolding replay
  replay-IsIndexed bytes records e =
      replay_lines-IsIndexed (map read_line (split_lines bytes)) 0 [] records tt e

-- ===== src/Store/Reaches.antt =====
-- How far a replay of src/store.rs that succeeds has got, whatever the lines are read as.
use unidpp_archive.Prelude.{
  ℕ, suc, ◌+◌, ◌≡◌, ◌≢◌, refl, sym, ap, ◌∙◌, false, List, [], ◌∷◌, ◌++◌, ◌==◌, length,
  length-append, append_assoc, arith, subst,
}
use unidpp_archive.Result.{Result, ok, err, IsErr, ok_injective, >>-eq-ok, >>=-eq-ok, require-eq-ok}
use unidpp_archive.Text.{Str}
use unidpp_archive.External.{External, Documented}
use unidpp_archive.Model.Record.{SnapshotRecord}
use unidpp_archive.Model.Document.{render_body}
use unidpp_archive.Store.Opening.{
  StoreError, is_last, check_next, replay_record, parse_line, replay_parsed, replay_lines,
}
use unidpp_archive.Store.Appending.{journal_line}
use unidpp_archive.Store.Lines.{
  IsHistory, journal_text, read_lines, line_of, read_lines-line, or_empty,
}

module _ (x : External) (documented : Documented x) where
  open x use {Hash, sha256, eq_hash, to_line, from_str}

  pub length-snoc :
      (pre : List (SnapshotRecord Hash)) (r : SnapshotRecord Hash)
      → length (pre ++ r ∷ []) ≡ suc (length pre)
  length-snoc pre r = omega (arith, length-append pre (r ∷ []))

  pub IsErr-no_ok : {A : Type 0} (p : Result StoreError A) → ((a : A) → p ≢ ok a) → IsErr p
  IsErr-no_ok (ok a) never = never a refl
  IsErr-no_ok (err e) never = tt

  -- A line that is not the last is one more record, or the replay fails.
  replay_parsed-grows :
      (n : ℕ) (pre kept : List (SnapshotRecord Hash)) (line : Str)
      (p : Result Str (SnapshotRecord Hash))
      → replay_parsed x n pre line false p ≡ ok kept
      → length kept ≡ suc (length pre)
  unfolding replay_parsed replay_record
  replay_parsed-grows n pre kept line (ok r) e =
      let (same, checked) = require-eq-ok (r.seq == length pre) _ _ e in
      let (digest, added) =
        require-eq-ok (eq_hash (sha256 (render_body x r ∷ [])) r.body_digest) _ _ checked in
      ap length (sym (ok_injective added)) ∙ length-snoc pre r
  replay_parsed-grows n pre kept line (err f) e = cc

  is_last-journal_text :
      (records : List (SnapshotRecord Hash)) (n : ℕ) (bytes : List ℕ)
      → IsHistory x n records
      → is_last (read_lines x bytes) ≡ false
      → is_last (read_lines x (journal_text x records ++ bytes)) ≡ false
  is_last-journal_text [] n bytes h more = more
  is_last-journal_text (r ∷ records) n bytes h more =
      rw
        (
          append_assoc (or_empty (journal_line x r)) (journal_text x records) bytes,
          read_lines-line x documented r (line_of x documented r h.0.journalable),
        )
        refl

  -- Whatever the receipts, a replay that succeeds gets to the lines behind the journal of records
  -- with one more record for each of its lines.
  pub replay_lines-reaches :
      (records pre out : List (SnapshotRecord Hash)) (n k : ℕ) (bytes : List ℕ)
      → IsHistory x k records
      → is_last (read_lines x bytes) ≡ false
      → replay_lines x n pre (read_lines x (journal_text x records ++ bytes)) ≡ ok out
      → (m : ℕ) × (kept : List (SnapshotRecord Hash)) × (length kept ≡ length pre + length records)
        × (replay_lines x m kept (read_lines x bytes) ≡ ok out)
  unfolding replay_lines
  replay_lines-reaches [] pre out n k bytes h more e = (n, pre, omega arith, e)
  replay_lines-reaches (r ∷ records) pre out n k bytes h more e =
      let line = (line_of x documented r h.0.journalable).content in
      let rest = read_lines x (journal_text x records ++ bytes) in
      let split : read_lines x (journal_text x (r ∷ records) ++ bytes) ≡ ok line ∷ rest =
        ap (read_lines x)
          (append_assoc (or_empty (journal_line x r)) (journal_text x records) bytes)
        ∙ read_lines-line x documented r (line_of x documented r h.0.journalable)
            (journal_text x records ++ bytes) in
      let e' : replay_lines x n pre (ok line ∷ rest) ≡ ok out =
        subst (λ ls. replay_lines x n pre ls ≡ ok out) split e in
      let (read, checked) = >>-eq-ok (check_next rest) _ e' in
      let (kept, parsed, later) =
        >>=-eq-ok (replay_parsed x (n + 1) pre line (is_last rest) (parse_line x line)) _ checked in
      let longer = replay_parsed-grows (n + 1) pre kept line (parse_line x line) (
        subst (λ b. replay_parsed x (n + 1) pre line b (parse_line x line) ≡ ok kept)
          (is_last-journal_text records (suc k) bytes h.1 more) parsed) in
      let (m, kept', grown, reached) =
        replay_lines-reaches records kept out (n + 1) (suc k) bytes h.1 more later in
      (m, kept', omega (arith, longer, grown), reached)

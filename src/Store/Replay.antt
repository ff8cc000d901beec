-- ===== src/Store/Replay.antt =====
-- The replay of the journal of src/store.rs, for journals that records were appended to.
use unidpp_archive.Prelude.{
  ℕ, suc, ◌+◌, ◌<◌, ◌≡◌, refl, sym, ap, ap₂, ◌∙◌, true, false, List, [], ◌∷◌, ◌++◌, ◌==◌, length,
  map, append-nil, append_assoc, arith, subst, All,
}
use unidpp_archive.Result.{Result, ok, err, IsErr}
use unidpp_archive.Text.{Str, trim, is_empty}
use unidpp_archive.Text.Lines.{split_lines, read_line, is_utf8, IsLineByte, split_lines-newline}
use unidpp_archive.External.{External, Documented}
use unidpp_archive.Model.Record.{SnapshotRecord}
use unidpp_archive.Model.Journal.RoundTrip.{IsJournalable}
use unidpp_archive.Model.Journal.Readable.{IsReadable}
use unidpp_archive.Store.Opening.{
  is_last, check_next, replay_record, parse_line, replay_parsed, replay_lines, replay,
}
use unidpp_archive.Store.Appending.{journal_line}
use unidpp_archive.Store.Lines.{
  IsRecordAt, IsHistory, journal_text, read_lines, line_of, parse_line-line_of, read_lines-line,
  or_empty,
}
use unidpp_archive.Store.Reaches.{IsErr-no_ok, length-snoc, replay_lines-reaches}

module _ (x : External) (documented : Documented x) where
  open x use {Hash, sha256, eq_hash, to_line, from_str}

  replay_record-ok :
      (n : ℕ) (pre : List (SnapshotRecord Hash)) (r : SnapshotRecord Hash)
      → IsRecordAt x (length pre) r
      → replay_record x n pre r ≡ ok (pre ++ r ∷ [])
  unfolding replay_record
  replay_record-ok n pre r h =
      let same : (r.seq == length pre) ≡ true = ground (arith, h.seq_is) in rw (same, h.digest)

  check_next-journal :
      (records : List (SnapshotRecord Hash)) (n : ℕ) (tail : List ℕ)
      → IsHistory x n records
      → check_next (read_lines x tail) ≡ ok tt
      → check_next (read_lines x (journal_text x records ++ tail)) ≡ ok tt
  check_next-journal [] n tail h next = next
  check_next-journal (r ∷ records) n tail h next =
      rw
        (
          append_assoc (or_empty (journal_line x r)) (journal_text x records) tail,
          read_lines-line x documented r (line_of x documented r h.0.journalable),
        )
        (unfold check_next in refl)

  replay_lines-line :
      (n : ℕ) (pre : List (SnapshotRecord Hash)) (r : SnapshotRecord Hash) (content : Str)
      (rest : List (Result Str Str))
      → IsRecordAt x (length pre) r
      → parse_line x content ≡ ok r
      → check_next rest ≡ ok tt
      → replay_lines x n pre (ok content ∷ rest) ≡ replay_lines x (n + 1) (pre ++ r ∷ []) rest
  unfolding replay_lines replay_parsed
  replay_lines-line n pre r content rest h parsed next =
      rw (next, parsed, replay_record-ok (n + 1) pre r h)

  -- The replay reads the records, and goes on with the lines behind them.
  pub replay_lines-journal_text :
      (records pre : List (SnapshotRecord Hash)) (n : ℕ) (tail : List ℕ)
      → IsHistory x (length pre) records
      → All IsReadable records
      → check_next (read_lines x tail) ≡ ok tt
      → replay_lines x n pre (read_lines x (journal_text x records ++ tail))
        ≡ replay_lines x (n + length records) (pre ++ records) (read_lines x tail)
  replay_lines-journal_text [] pre n tail h readable next =
      rw (append-nil pre) (ap (λ k. replay_lines x k pre (read_lines x tail)) (omega arith))
  replay_lines-journal_text (r ∷ records) pre n tail h readable next =
      let later : IsHistory x (length (pre ++ r ∷ [])) records =
        subst (λ k. IsHistory x k records) (sym (length-snoc x documented pre r)) h.1 in
      rw
        (
          append_assoc (or_empty (journal_line x r)) (journal_text x records) tail,
          read_lines-line x documented r (line_of x documented r h.0.journalable),
        )
        (replay_lines-line n pre r (line_of x documented r h.0.journalable).content
            (read_lines x (journal_text x records ++ tail)) h.0
            (parse_line-line_of x documented r h.0.journalable readable.0)
            (check_next-journal records (suc (length pre)) tail h.1 next)
          ∙ (replay_lines-journal_text records (pre ++ r ∷ []) (n + 1) tail later readable.1 next
              ∙ ap₂ (λ k rs. replay_lines x k rs (read_lines x tail)) (omega arith)
                  (append_assoc pre (r ∷ []) records)))

  -- The journal of a history whose receipts are read back is replayed to that history.
  pub replay-journal_text :
      (records : List (SnapshotRecord Hash))
      → IsHistory x 0 records
      → All IsReadable records
      → replay x (journal_text x records) ≡ ok records
  unfolding replay
  replay-journal_text records h readable = rw (← append-nil (journal_text x records)) (
      replay_lines-journal_text records [] 0 [] h readable (unfold split_lines check_next in refl)
      ∙ unfold split_lines replay_lines in refl)

  -- For a documented external library: behind the journal of records whose receipts are read back
  -- (nested at most 125 deep, and with no other number than a `u64`), bytes of one last line that is
  -- UTF-8, not blank, and not understood are dropped: the replay gives the records.
  pub replay-torn :
      (records : List (SnapshotRecord Hash)) (tail line e : Str)
      → IsHistory x 0 records
      → All IsReadable records
      → split_lines tail ≡ line ∷ []
      → is_utf8 line ≡ true
      → is_empty (trim line) ≡ false
      → parse_line x line ≡ err e
      → replay x (journal_text x records ++ tail) ≡ ok records
  unfolding replay
  replay-torn records tail line e h readable one utf8 visible broken =
      let read : read_lines x tail ≡ ok line ∷ [] = rw one (unfold read_line in rw utf8) in
      replay_lines-journal_text records [] 0 tail h readable (rw read (unfold check_next in refl))
      ∙ rw read (unfold replay_lines replay_parsed check_next in rw (broken, visible))

  is_last-map : (lines : List Str) → is_last lines ≡ false → is_last (map read_line lines) ≡ false
  is_last-map [] h = cc
  is_last-map (l ∷ lines) h = refl

  replay_lines-broken :
      (n : ℕ) (pre : List (SnapshotRecord Hash)) (line e : Str) (rest : List (Result Str Str))
      → parse_line x line ≡ err e
      → is_last rest ≡ false
      → IsErr (replay_lines x n pre (ok line ∷ rest))
  unfolding replay_lines replay_parsed check_next
  replay_lines-broken n pre line e [] broken more = absurd (cc)
  replay_lines-broken n pre line e (err f ∷ rest) broken more = tt
  replay_lines-broken n pre line e (ok l ∷ rest) broken more = rw broken tt

  -- Behind the journal of records, a line that is UTF-8 and not understood, with at least one
  -- line after it, makes the replay fail.
  pub replay-corrupt :
      (records : List (SnapshotRecord Hash)) (line e : Str) (tail : List ℕ)
      → IsHistory x 0 records
      → All IsLineByte line
      → is_utf8 line ≡ true
      → parse_line x line ≡ err e
      → is_last (split_lines tail) ≡ false
      → IsErr (replay x (journal_text x records ++ (line ++ 10 ∷ tail)))
  unfolding replay
  replay-corrupt records line e tail h one utf8 broken more =
      let read : read_lines x (line ++ 10 ∷ tail) ≡ ok line ∷ read_lines x tail =
        rw (split_lines-newline line tail one) (unfold read_line in rw utf8) in
      IsErr-no_ok x documented (replay x (journal_text x records ++ (line ++ 10 ∷ tail))) (λ out e'.
        let (m, kept, grown, reached) =
          replay_lines-reaches x documented records [] out 0 0 (line ++ 10 ∷ tail) h (rw read refl)
            e' in
        subst IsErr reached (
          subst (λ ls. IsErr (replay_lines x m kept ls)) (sym read)
            (replay_lines-broken m kept line e (read_lines x tail) broken
              (is_last-map (split_lines tail) more))))

  replay_lines-repeated :
      (n : ℕ) (pre : List (SnapshotRecord Hash)) (r : SnapshotRecord Hash) (line : Str)
      → parse_line x line ≡ ok r
      → r.seq < length pre
      → IsErr (replay_lines x n pre (ok line ∷ []))
  unfolding replay_lines replay_parsed check_next replay_record
  replay_lines-repeated n pre r line parsed before =
      let other : (r.seq == length pre) ≡ false = ground (arith, before) in rw (parsed, other) tt

  -- A record that is read back and whose position is taken stops the replay.
  pub replay-repeated :
      (records : List (SnapshotRecord Hash)) (r : SnapshotRecord Hash)
      → IsHistory x 0 records
      → IsJournalable r
      → IsReadable r
      → r.seq < length records
      → IsErr (replay x (journal_text x records ++ or_empty (journal_line x r)))
  unfolding replay
  replay-repeated records r h journalable readable before =
      let line = line_of x documented r journalable in
      let bytes = or_empty (journal_line x r) in
      let no_lines : split_lines [] ≡ [] = unfold split_lines in refl in
      let read : read_lines x bytes ≡ ok line.content ∷ [] =
        ap (read_lines x) (sym (append-nil bytes))
        ∙ read_lines-line x documented r line []
        ∙ ap (λ t. ok line.content ∷ map read_line t) no_lines in
      IsErr-no_ok x documented (replay x (journal_text x records ++ bytes)) (λ out e.
        let (m, kept, grown, reached) =
          replay_lines-reaches x documented records [] out 0 0 bytes h (rw read refl) e in
        subst IsErr reached (
          subst (λ ls. IsErr (replay_lines x m kept ls)) (sym read)
            (replay_lines-repeated m kept r line.content
              (parse_line-line_of x documented r journalable readable)
              (omega (arith, grown, before)))))

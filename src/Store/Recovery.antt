-- ===== src/Store/Recovery.antt =====
-- A crash in the middle of writing a journal line, and the restart after it.
use unidpp_archive.Prelude.{
  ℕ, zero, suc, ◌≤◌, ◌≡◌, refl, sym, ap, ap₂, ◌∙◌, true, false, some, List, [], ◌∷◌, ◌++◌, length,
  take, arith, subst, All, All-take,
}
use unidpp_archive.Result.{ok, err}
use unidpp_archive.Text.{Str, text, trim, is_empty}
use unidpp_archive.Text.Lines.{split_lines, is_utf8, IsLineByte, split_lines-last}
use unidpp_archive.External.{External, Documented}
use unidpp_archive.Model.Record.{SnapshotRecord}
use unidpp_archive.Model.Journal.Readable.{IsReadable}
use unidpp_archive.Store.Files.{Disk, Io, torn, append_bytes}
use unidpp_archive.Store.Opening.{
  StoreError, journal, SnapshotStore, parse_line, found_records, read_records, journal_opened,
  open_journal, journal_read, open_store,
}
use unidpp_archive.Store.Appending.{
  line_written, append_printed, append_line, write_file_next, write_record, append_checked,
  append_snapshot,
}
use unidpp_archive.Store.Lines.{IsRecordAt, IsHistory, journal_text, Line}
use unidpp_archive.Store.Replay.{replay-torn}
use unidpp_archive.Store.Append.{AllDone, HasFile, IsConsistent, check_append-ok}
use unidpp_archive.Store.Writes.{append_bytes-journal, touch_journal-some}
use unidpp_archive.Store.Restart.{All-HasFile-append_bytes, open_dir-same}

take-append {ℓ} :
    {A : Type ℓ} (n : ℕ) (xs ys : List A) → n ≤ length xs → take n (xs ++ ys) ≡ take n xs
take-append zero xs ys h = refl
take-append (suc n) [] ys h = absurd (omega arith)
take-append (suc n) (a ∷ xs) ys h = ap (λ t. a ∷ t) (take-append n xs ys (omega arith))

-- A part of a line that is not empty is one line.
split_lines-part : (s : Str) → All IsLineByte s → is_empty s ≡ false → split_lines s ≡ s ∷ []
split_lines-part [] h e = cc
split_lines-part (c ∷ s) h e = split_lines-last c s h

-- What is not blank is not empty.
visible-filled : (s : Str) → is_empty (trim s) ≡ false → is_empty s ≡ false
unfolding trim
visible-filled [] h = cc
visible-filled (c ∷ s) h = refl

module _ (x : External) (documented : Documented x) where
  open x use {Hash}

  append_snapshot-torn :
      (io : Io) (s : SnapshotStore Hash) (r : SnapshotRecord Hash) (d : Disk) (line : Line x r)
      (n : ℕ) (e : Str)
      → io.write_line ≡ torn n e
      → s.journaled ≡ true
      → IsRecordAt x (length s.records) r
      → (f : StoreError) × (append_snapshot x io s r d
          ≡ (err f, append_bytes (take n (line.content ++ 10 ∷ [])) d))
  unfolding append_snapshot append_checked write_record write_file_next append_line append_printed
      line_written
  append_snapshot-torn io s r d line n e torn_at journaled hr =
      let content = line.content ++ 10 ∷ [] in
      let failed : append_line x io s.journaled r d ≡ line_written (torn n e) content d =
        subst (λ b. append_line x io b r d ≡ line_written (torn n e) content d) (sym journaled)
          (ap (λ p. append_printed x io p d) line.written_as
            ∙ ap (λ o. line_written o content d) torn_at) in
      (
        journal (text "journal write failed: " ++ e),
        ap (append_checked x io s r d) (check_append-ok x documented s r hr)
            ∙ ap (write_file_next x io s r) failed,
      )

  read_records-torn :
      (io : Io) (records : List (SnapshotRecord Hash)) (tail e : Str)
      → AllDone io
      → IsHistory x 0 records
      → All IsReadable records
      → split_lines tail ≡ tail ∷ []
      → is_utf8 tail ≡ true
      → is_empty (trim tail) ≡ false
      → parse_line x tail ≡ err e
      → read_records x io.create_parent io.read_journal (some (journal_text x records ++ tail))
        ≡ ok records
  unfolding read_records found_records
  read_records-torn io records tail e fine h readable one utf8 visible broken =
      ap₂ (λ p q. read_records x p q (some (journal_text x records ++ tail))) fine.parent_done
        fine.read_done
      ∙ replay-torn x documented records tail tail e h readable one utf8 visible broken

  open_store-torn :
      (io : Io) (s : SnapshotStore Hash) (d : Disk) (tail e : Str)
      → AllDone io
      → s.journaled ≡ true
      → s.has_dir ≡ true
      → IsHistory x 0 s.records
      → All IsReadable s.records
      → d.journal ≡ some (journal_text x s.records ++ tail)
      → All (HasFile x d) s.records
      → split_lines tail ≡ tail ∷ []
      → is_utf8 tail ≡ true
      → is_empty (trim tail) ≡ false
      → parse_line x tail ≡ err e
      → open_store x io true true d ≡ (ok s, d)
  unfolding open_store open_journal journal_opened journal_read
  open_store-torn io s d tail e fine journaled dir h readable found files one utf8 visible broken =
      let opened : open_journal x io d.journal d ≡ (ok s.records, d) =
        ap (λ j. open_journal x io j d) found
        ∙ (ap₂ (λ p q. journal_opened x p q d)
              (read_records-torn io s.records tail e fine h readable one utf8 visible broken)
              fine.append_done
            ∙ ap (λ t. (ok s.records, t))
                (touch_journal-some (journal_text x s.records ++ tail) d found)) in
      ap (journal_read x io true) opened
      ∙ open_dir-same x documented io
          (record { records = s.records; journaled = true; has_dir = true }) d fine files
      ∙ ap₂ (λ a b. (ok (record { records = s.records; journaled = a; has_dir = b }), d))
          (sym journaled) (sym dir)

  -- For a documented external library and in a consistent store, an append of the next record, one
  -- that the journal can hold, whose journal line is written only in part fails, and a restart,
  -- with every call of the operating system succeeding, finds the records from before it: when the
  -- receipts of these are read back (nested at most 125 deep, and with no other number than a
  -- `u64`), and the part is no longer than the line, and is UTF-8, not blank, and not understood.
  pub append_snapshot-crashed :
      (io io' : Io) (s : SnapshotStore Hash) (r : SnapshotRecord Hash) (d : Disk) (line : Line x r)
      (n : ℕ) (e f : Str)
      → io.write_line ≡ torn n e
      → AllDone io'
      → IsConsistent x s d
      → All IsReadable s.records
      → IsRecordAt x (length s.records) r
      → n ≤ length line.content
      → is_utf8 (take n line.content) ≡ true
      → is_empty (trim (take n line.content)) ≡ false
      → parse_line x (take n line.content) ≡ err f
      → (g : StoreError) × (d' : Disk) × (append_snapshot x io s r d ≡ (err g, d'))
        × (open_store x io' true true d' ≡ (ok s, d'))
  append_snapshot-crashed io io' s r d line n e f torn_at fine h readable hr within utf8 visible
        broken =
      let part = take n line.content in
      let d' = append_bytes part d in
      let (g, failed) = append_snapshot-torn io s r d line n e torn_at h.journaled_is hr in
      let cut : take n (line.content ++ 10 ∷ []) ≡ part =
        take-append n line.content (10 ∷ []) within in
      let filled : is_empty part ≡ false = visible-filled part visible in
      (
        g,
        d',
        failed ∙ ap (λ t. (err g, append_bytes t d)) cut,
        open_store-torn io' s d' part f fine h.journaled_is h.has_dir_is h.history readable
            (append_bytes-journal part (journal_text x s.records) d h.journal_is)
            (All-HasFile-append_bytes x documented s.records part d h.files_are)
            (split_lines-part part (All-take IsLineByte n line.content line.one_line) filled) utf8
            visible broken,
      )

-- ===== src/Store/Crash.antt =====
-- Failures in the middle of an append: what the files hold, and what the next start makes of it.
use unidpp_archive.Prelude.{
  ℕ, suc, ◌≡◌, refl, sym, ap, ◌∙◌, true, false, Option, some, List, [], ◌∷◌, ◌++◌, length,
  length-append, take, arith, subst, All, All-append, append_assoc,
}
use unidpp_archive.Result.{ok, err, map_err, IsErr}
use unidpp_archive.Text.{Str, text, trim, is_empty}
use unidpp_archive.Text.Lines.{split_lines, is_utf8, IsLineByte, split_lines-newline}
use unidpp_archive.External.{External, Documented}
use unidpp_archive.Model.Record.{SnapshotRecord}
use unidpp_archive.Model.Document.{render_body}
use unidpp_archive.Model.Journal.Readable.{IsReadable}
use unidpp_archive.Store.Files.{
  Disk, Io, WriteOutcome, done, torn, refused, write_result, append_bytes, put_file, put_written,
}
use unidpp_archive.Store.Opening.{
  StoreError, journal, SnapshotStore, snapshot_path, parse_line, replay,
}
use unidpp_archive.Store.Appending.{
  journal_line, file_written, append_line, append_file, index_record, write_file_next, write_record,
  append_checked, append_snapshot,
}
use unidpp_archive.Store.Lines.{IsRecordAt, IsHistory, journal_text, Line, line_of, or_empty}
use unidpp_archive.Store.Replay.{replay-torn, replay-repeated}
use unidpp_archive.Store.Append.{
  AllDone, IsConsistent, journal_text-append, IsHistory-append, append_snapshot-ok, append_line-ok,
  check_append-ok,
}
use unidpp_archive.Store.Writes.{append_bytes-journal, put_file-journal}

-- The journal of the files.
abbrev journal_of : Disk → Option (List ℕ)
journal_of d = d.journal

put_written-journal :
    (outcome : WriteOutcome) (name : Str) (bytes : List ℕ) (d : Disk)
    → (put_written outcome name bytes d).journal ≡ d.journal
unfolding put_written
put_written-journal done name bytes d = put_file-journal name bytes d
put_written-journal (torn n e) name bytes d = put_file-journal name (take n bytes) d
put_written-journal (refused e) name bytes d = refl

module _ (x : External) (documented : Documented x) where
  open x use {Hash}

  appended_journal :
      (s : SnapshotStore Hash) (r : SnapshotRecord Hash) (old : List ℕ) (d : Disk)
      → d.journal ≡ some old
      → (put_file
          (snapshot_path r.snapshot_id)
          (render_body x r)
          (append_bytes (or_empty (journal_line x r)) d)).journal
        ≡ some (old ++ or_empty (journal_line x r))
  appended_journal s r old d h =
      put_file-journal (snapshot_path r.snapshot_id) (render_body x r)
        (append_bytes (or_empty (journal_line x r)) d)
      ∙ append_bytes-journal (or_empty (journal_line x r)) old d h

  -- The line that comes to stand behind a torn one.
  replay-joined :
      (records : List (SnapshotRecord Hash)) (r : SnapshotRecord Hash) (tail e : Str)
      (line : Line x r)
      → IsHistory x 0 records
      → All IsReadable records
      → All IsLineByte tail
      → is_utf8 (tail ++ line.content) ≡ true
      → is_empty (trim (tail ++ line.content)) ≡ false
      → parse_line x (tail ++ line.content) ≡ err e
      → replay x ((journal_text x records ++ tail) ++ or_empty (journal_line x r)) ≡ ok records
  replay-joined records r tail e line h readable one utf8 visible broken =
      let bytes : (journal_text x records ++ tail) ++ or_empty (journal_line x r)
          ≡ journal_text x records ++ ((tail ++ line.content) ++ 10 ∷ []) =
        rw line.written_as (
          append_assoc (journal_text x records) tail (line.content ++ 10 ∷ [])
          ∙ ap (λ t. journal_text x records ++ t)
              (sym (append_assoc tail line.content (10 ∷ [])))) in
      let nothing : split_lines [] ≡ [] = unfold split_lines in refl in
      let split : split_lines ((tail ++ line.content) ++ 10 ∷ []) ≡ (tail ++ line.content) ∷ [] =
        split_lines-newline (tail ++ line.content) []
          (All-append IsLineByte tail line.content one line.one_line)
        ∙ ap (λ t. (tail ++ line.content) ∷ t) nothing in
      ap (replay x) bytes
      ∙ replay-torn x documented records ((tail ++ line.content) ++ 10 ∷ []) (tail ++ line.content)
          e h readable split utf8 visible broken

  -- For a documented external library: in a store whose journal ends in a part of a line, and with
  -- every call of the operating system succeeding, the append of the next record succeeds and puts
  -- it into the index; yet the replay of the journal that it leaves gives the records without it,
  -- when the receipts of these are read back (nested at most 125 deep, and with no other number than
  -- a `u64`), and the part and the record's line together are UTF-8, not blank, and not understood.
  pub append_snapshot-lost :
      (io : Io) (s : SnapshotStore Hash) (r : SnapshotRecord Hash) (d : Disk) (tail e : Str)
      (line : Line x r)
      → AllDone io
      → s.journaled ≡ true
      → s.has_dir ≡ true
      → IsHistory x 0 s.records
      → All IsReadable s.records
      → IsRecordAt x (length s.records) r
      → d.journal ≡ some (journal_text x s.records ++ tail)
      → All IsLineByte tail
      → is_utf8 (tail ++ line.content) ≡ true
      → is_empty (trim (tail ++ line.content)) ≡ false
      → parse_line x (tail ++ line.content) ≡ err e
      → (s' : SnapshotStore Hash) × (d' : Disk) × (bytes : List ℕ) × (append_snapshot x io s r d
          ≡ (ok s', d'))
        × (s'.records ≡ s.records ++ r ∷ [])
        × (d'.journal ≡ some bytes)
        × (replay x bytes ≡ ok s.records)
  append_snapshot-lost io s r d tail e line fine journaled dir h readable hr found one utf8 visible
        broken =
      (
        record s { records = s.records ++ r ∷ [] },
        put_file (snapshot_path r.snapshot_id) (render_body x r)
            (append_bytes (or_empty (journal_line x r)) d),
        (journal_text x s.records ++ tail) ++ or_empty (journal_line x r),
        append_snapshot-ok x documented io s r d fine journaled dir hr,
        refl,
        appended_journal s r (journal_text x s.records ++ tail) d found,
        replay-joined s.records r tail e line h readable one utf8 visible broken,
      )

  append_snapshot-file_failed :
      (io : Io) (s : SnapshotStore Hash) (r : SnapshotRecord Hash) (d : Disk) (e : Str)
      → io.write_line ≡ done
      → write_result (io.write_file (snapshot_path r.snapshot_id)) ≡ err e
      → s.journaled ≡ true
      → s.has_dir ≡ true
      → IsRecordAt x (length s.records) r
      → (f : StoreError) × (append_snapshot x io s r d ≡ (
        err f,
        put_written
            (io.write_file (snapshot_path r.snapshot_id))
            (snapshot_path r.snapshot_id)
            (render_body x r)
            (append_bytes (or_empty (journal_line x r)) d),
      ))
  unfolding append_snapshot append_checked write_record write_file_next append_file file_written
      index_record
  append_snapshot-file_failed io s r d e line_done file_failed journaled dir hr =
      let d₁ = append_bytes (or_empty (journal_line x r)) d in
      let path = snapshot_path r.snapshot_id in
      let outcome = io.write_file path in
      let line_in : append_line x io s.journaled r d ≡ (ok tt, d₁) =
        subst (λ b. append_line x io b r d ≡ (ok tt, d₁)) (sym journaled)
          (append_line-ok x documented io r d line_done (line_of x documented r hr.journalable)) in
      let file_in : append_file x io s.has_dir r d₁
          ≡ file_written outcome path (render_body x r) d₁ =
        subst (λ b. append_file x io b r d₁ ≡ file_written outcome path (render_body x r) d₁)
          (sym dir) refl in
      let failure : Str → StoreError =
        λ c. journal (text "cannot write snapshot file " ++ path ++ text ": " ++ c) in
      (
        failure e,
        ap (append_checked x io s r d) (check_append-ok x documented s r hr)
            ∙ (ap (write_file_next x io s r) line_in
                ∙ (ap (index_record x s r) file_in
                    ∙ ap
                        (λ w.
                          index_record x s r
                            (map_err failure w, put_written outcome path (render_body x r) d₁))
                        file_failed)),
      )

  -- For a documented external library: in a consistent store, a record whose journal line is written
  -- and whose snapshot file is not, or only in part, is refused. The append of another record for the same position,
  -- whose receipt is read back (nested at most 125 deep, and with no other number than a `u64`),
  -- then succeeds, when every call of the operating system does, and the replay of the journal that
  -- it leaves fails.
  pub append_snapshot-retried :
      (io io' : Io) (s : SnapshotStore Hash) (r q : SnapshotRecord Hash) (d : Disk) (e : Str)
      → io.write_line ≡ done
      → write_result (io.write_file (snapshot_path r.snapshot_id)) ≡ err e
      → AllDone io'
      → IsConsistent x s d
      → IsRecordAt x (length s.records) r
      → IsRecordAt x (length s.records) q
      → IsReadable q
      → (f : StoreError) × (d₁ : Disk) × (s' : SnapshotStore Hash) × (d₂ : Disk) × (bytes : List ℕ)
        × (append_snapshot x io s r d ≡ (err f, d₁))
        × (append_snapshot x io' s q d₁ ≡ (ok s', d₂))
        × (d₂.journal ≡ some bytes)
        × IsErr (replay x bytes)
  append_snapshot-retried io io' s r q d e line_done file_failed fine h hr hq readable =
      let (f, failed) =
        append_snapshot-file_failed io s r d e line_done file_failed h.journaled_is h.has_dir_is
          hr in
      let path = snapshot_path r.snapshot_id in
      let d₁ =
        put_written (io.write_file path) path (render_body x r)
          (append_bytes (or_empty (journal_line x r)) d) in
      let kept : d₁.journal ≡ some (journal_text x (s.records ++ r ∷ [])) =
        put_written-journal (io.write_file path) path (render_body x r)
          (append_bytes (or_empty (journal_line x r)) d)
        ∙ append_bytes-journal (or_empty (journal_line x r)) (journal_text x s.records) d
            h.journal_is
        ∙ ap some (sym (journal_text-append x s.records r)) in
      let longer : length (s.records ++ r ∷ []) ≡ suc (length s.records) =
        omega (arith, length-append s.records (r ∷ [])) in
      (
        f,
        d₁,
        record s { records = s.records ++ q ∷ [] },
        put_file (snapshot_path q.snapshot_id) (render_body x q)
            (append_bytes (or_empty (journal_line x q)) d₁),
        journal_text x (s.records ++ r ∷ []) ++ or_empty (journal_line x q),
        failed,
        append_snapshot-ok x documented io' s q d₁ fine h.journaled_is h.has_dir_is hq,
        appended_journal s q (journal_text x (s.records ++ r ∷ [])) d₁ kept,
        replay-repeated x documented (s.records ++ r ∷ []) q
            (IsHistory-append x s.records 0 r h.history
              (subst (λ k. IsRecordAt x k r) (omega arith) hr))
            hq.journalable readable (omega (arith, longer, hq.seq_is)),
      )

-- ===== src/Store/Lines.antt =====
-- The journal of src/store.rs that appending records leaves: its bytes, its lines, and the records
-- that it can hold.
use unidpp_archive.Prelude.{ℕ, suc, ◌≡◌, true, List, [], ◌∷◌, ◌++◌, map, append_assoc, All}
use unidpp_archive.Result.{Result, ok, err}
use unidpp_archive.Text.{Str}
use unidpp_archive.Text.Lines.{split_lines, read_line, IsLineByte, split_lines-newline}
use unidpp_archive.External.{External, Documented}
use unidpp_archive.Model.Record.{SnapshotRecord, snapshot_id_of}
use unidpp_archive.Model.Document.{render_body}
use unidpp_archive.Model.Journal.{to_journal_json}
use unidpp_archive.Model.Journal.RoundTrip.{IsJournalable, from_journal_json-to_journal_json}
use unidpp_archive.Model.Journal.Readable.{IsReadable, to_journal_json-is_readable}
use unidpp_archive.Store.Opening.{parse_line}
use unidpp_archive.Store.Appending.{journal_line}

abbrev pub or_empty : Result Str Str → Str
or_empty (ok s) = s
or_empty (err e) = []

module _ (x : External) where
  open x use {Hash, sha256, eq_hash, to_line, from_str}

  -- A record that the journal can hold at position `n`.
  pub record IsRecordAt (n : ℕ) (r : SnapshotRecord Hash) : Type 0 where
    pub seq_is : r.seq ≡ n
    pub id_is : r.snapshot_id ≡ snapshot_id_of r.seq
    pub digest : eq_hash (sha256 (render_body x r ∷ [])) r.body_digest ≡ true
    pub journalable : IsJournalable r

  -- The records from position `n` on.
  abbrev pub IsHistory : ℕ → List (SnapshotRecord Hash) → Type 0
  IsHistory n [] = Unit
  IsHistory n (r ∷ records) = IsRecordAt n r × IsHistory (suc n) records

  -- The bytes that appending the records writes.
  abbrev pub journal_text : List (SnapshotRecord Hash) → List ℕ
  journal_text [] = []
  journal_text (r ∷ records) = or_empty (journal_line x r) ++ journal_text records

  abbrev pub read_lines : List ℕ → List (Result Str Str)
  read_lines bytes = map read_line (split_lines bytes)

  -- A line of the journal: what is printed.
  pub record Line (r : SnapshotRecord Hash) : Type 0 where
    pub content : Str
    pub written_as : journal_line x r ≡ ok (content ++ 10 ∷ [])
    pub one_line : All IsLineByte content
    pub readable : read_line content ≡ ok content

module _ (x : External) (documented : Documented x) where
  open x use {Hash, to_line, from_str}

  pub line_of : (r : SnapshotRecord Hash) → IsJournalable r → Line x r
  unfolding journal_line read_line
  line_of r h =
      let (s, printed) = documented.to_line-ok (to_journal_json x r) in
      record {
        content = s;
        written_as = rw printed;
        one_line = documented.to_line-IsLine (to_journal_json x r) s printed;
        readable = rw (documented.to_line-is_utf8 (to_journal_json x r) s printed);
      }

  -- The line of a record whose receipt is read back is understood as the record.
  pub parse_line-line_of :
      (r : SnapshotRecord Hash) (h : IsJournalable r)
      → IsReadable r
      → parse_line x (line_of r h).content ≡ ok r
  unfolding parse_line line_of unidpp_archive.Model.Journal.from_journal_json
  parse_line-line_of r h receipt =
      let (s, printed) = documented.to_line-ok (to_journal_json x r) in
      rw (
        documented.from_str-to_line (to_journal_json x r) s
            (to_journal_json-is_readable x r h receipt) printed,
        from_journal_json-to_journal_json x documented r h,
      )

  -- The lines of a journal that goes on with `tail`.
  pub read_lines-line :
      (r : SnapshotRecord Hash) (line : Line x r) (bytes : List ℕ)
      → read_lines x (or_empty (journal_line x r) ++ bytes) ≡ ok line.content ∷ read_lines x bytes
  read_lines-line r line bytes = rw (
    line.written_as,
    append_assoc line.content (10 ∷ []) bytes,
    split_lines-newline line.content bytes line.one_line,
    line.readable,
  )

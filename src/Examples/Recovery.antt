-- ===== src/Examples/Recovery.antt =====
-- The theorems on restarts and on damaged files on concrete files.
use unidpp_archive.Prelude.{◌≡◌, map, refl, true, none, some, [], ◌∷◌, ◌++◌, arith, inr}
use unidpp_archive.Result.{ok, err, IsErr}
use unidpp_archive.Text.{Str, text}
use unidpp_archive.Store.Files.{Disk, Io, torn}
use unidpp_archive.Store.Opening.{StoreError, SnapshotStore, open_store}
use unidpp_archive.Store.Appending.{append_snapshot}
use unidpp_archive.Store.Append.{IsConsistent}
use unidpp_archive.Store.Lines.{journal_text}
use unidpp_archive.Store.Audit.{audit_window}
use unidpp_archive.Store.Pages.{read_entry, entry_of, audit_window-entries}
use unidpp_archive.Store.Heal.{open_store-IsIntact}
use unidpp_archive.Store.Tampered.{open_store-tampered}
use unidpp_archive.Store.Recovery.{append_snapshot-crashed}
use unidpp_archive.Store.Refines.{append_op, restart_op, run, run-spec}
use unidpp_archive.Text.{trim}
use unidpp_archive.Text.Lines.{is_utf8}
use unidpp_archive.Json.{object}
use unidpp_archive.Model.Document.{render_body, to_document}
use unidpp_archive.Store.Opening.{parse_line}
use unidpp_archive.Model.Journal.{to_journal_json}
use unidpp_archive.Examples.Codec.{print_value, read_value}
use unidpp_archive.Examples.Service.{
  sample, sample_documented, kept, kept-IsRecordAt, kept-IsReadable, kept-IsJournalable,
}
use unidpp_archive.Examples.Runs.{
  calm, calm_done, no_files, no_records, no_records-IsConsistent, first_at, one_record,
  one-IsHistory, line_at,
}

-- The journal of one record, without its file.
abbrev lost_file : Disk
lost_file = record { journal = some (journal_text sample (kept 0 ∷ [])); files = λ name. none }

-- The same with a file that somebody changed.
abbrev changed_file : Disk
changed_file = record lost_file { files = λ name. some (text "x") }

open_store-IsIntact_example :
    (s : SnapshotStore Str) × (d' : Disk) × (open_store sample calm true true lost_file
      ≡ (ok s, d'))
    × (s.records ≡ kept 0 ∷ [])
    × IsConsistent sample s d'
open_store-IsIntact_example =
    open_store-IsIntact sample sample_documented calm (kept 0 ∷ []) lost_file calm_done
      one-IsHistory (kept-IsReadable 0, tt) refl (inr refl, tt)

open_store-tampered_example : IsErr (open_store sample calm true true changed_file).0
unfolding text render_body to_document object
open_store-tampered_example =
    open_store-tampered sample sample_documented calm [] [] (kept 0) (text "x") changed_file
      calm_done one-IsHistory (kept-IsReadable 0, tt) refl tt refl (λ e. cc)

-- The first letter of a line is written.
abbrev cut : Io
cut = record calm { write_line = torn 1 (text "no space left on device") }

append_snapshot-crashed_example :
    (g : StoreError) × (d' : Disk) × (append_snapshot sample cut no_records (kept 0) no_files
      ≡ (err g, d'))
    × (open_store sample calm true true d' ≡ (ok no_records, d'))
unfolding line_at print_value text trim is_utf8 parse_line to_journal_json object read_value
append_snapshot-crashed_example =
    append_snapshot-crashed sample sample_documented cut calm no_records (kept 0) no_files
      (line_at 0) 1 (text "no space left on device") _ refl calm_done no_records-IsConsistent tt
      first_at (omega arith) refl refl refl

audit_window-entries_example :
    map
      (read_entry sample)
      (audit_window sample one_record 1 0 ++ audit_window sample one_record 3 1)
    ≡ map (entry_of sample) (kept 0 ∷ [])
audit_window-entries_example =
    audit_window-entries sample sample_documented one_record 1 3 0
      (kept-IsJournalable 0 (omega arith), tt)

run-spec_example :
    (s' : SnapshotStore Str) × (d' : Disk) × (run sample calm
        (append_op (kept 0) ∷ restart_op ∷ append_op (kept 1) ∷ [])
        no_records
        no_files
      ≡ (ok s', d'))
    × (s'.records ≡ kept 0 ∷ kept 1 ∷ [])
    × IsConsistent sample s' d'
run-spec_example =
    run-spec sample sample_documented calm
      (append_op (kept 0) ∷ restart_op ∷ append_op (kept 1) ∷ []) no_records no_files calm_done
      no_records-IsConsistent tt
      (first_at, kept-IsReadable 0, (kept-IsRecordAt 1 (omega arith), kept-IsReadable 1, tt))

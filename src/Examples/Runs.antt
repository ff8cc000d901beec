-- ===== src/Examples/Runs.antt =====
-- The theorems of the store on concrete files.
use unidpp_archive.Prelude.{
  ℕ, ◌≡◌, ◌⊎◌, refl, true, false, none, some, List, [], ◌∷◌, ◌++◌, arith, All,
}
use unidpp_archive.Prelude.Int.{pos}
use unidpp_archive.Result.{ok, err, IsErr}
use unidpp_archive.Text.{Str, text, trim, is_empty, trim-IsGraphic}
use unidpp_archive.Text.Lines.{split_lines, read_line, IsLineByte, split_lines-last}
use unidpp_archive.Time.{from_secs}
use unidpp_archive.Model.Record.{snapshot_id_of}
use unidpp_archive.Model.Document.{render_body}
use unidpp_archive.Model.Journal.{to_journal_json}
use unidpp_archive.Store.Files.{Disk, Io, done, torn, append_bytes, put_file}
use unidpp_archive.Store.Opening.{
  StoreError, SnapshotStore, snapshot_path, parse_line, replay, open_store,
}
use unidpp_archive.Store.Appending.{journal_line, append_snapshot}
use unidpp_archive.Store.Index.{get_snapshot, list}
use unidpp_archive.Store.Lines.{IsRecordAt, IsHistory, journal_text, Line, or_empty}
use unidpp_archive.Store.Replay.{replay-torn, replay-corrupt}
use unidpp_archive.Store.Append.{AllDone, IsConsistent}
use unidpp_archive.Store.Restart.{
  appended-IsConsistent, append_snapshot-IsConsistent, open_store-IsConsistent,
}
use unidpp_archive.Store.Crash.{append_snapshot-lost, append_snapshot-retried}
use unidpp_archive.Store.Invariant.{IsIndexed}
use unidpp_archive.Store.Reachable.{opened, Reachable-IsIndexed}
use unidpp_archive.Store.Reads.{get_snapshot-position}
use unidpp_archive.Store.Listing.{IsListed, Listing, list-Listing, list-append}
use unidpp_archive.Examples.Codec.{
  read_value-unknown, print_value, print_value-IsLetter, IsLetter, letters-is_utf8,
  letters-IsGraphic,
}
use unidpp_archive.Examples.Service.{
  sample, sample_documented, kept, kept-IsRecordAt, kept-IsReadable,
}

abbrev pub calm : Io
calm = record {
  create_parent = ok tt;
  create_dir = ok tt;
  read_journal = ok tt;
  append_journal = ok tt;
  write_line = done;
  write_file = λ name. done;
}

pub calm_done : AllDone calm
calm_done = record {
  parent_done = refl;
  dir_done = refl;
  read_done = refl;
  append_done = refl;
  line_done = refl;
  file_done = λ name. refl;
}

abbrev pub no_files : Disk
no_files = record { journal = some []; files = λ name. none }

abbrev pub no_records : SnapshotStore Str
no_records = record { records = []; journaled = true; has_dir = true }

pub no_records-IsConsistent : IsConsistent sample no_records no_files
no_records-IsConsistent = record {
  journaled_is = refl;
  has_dir_is = refl;
  history = tt;
  journal_is = refl;
  files_are = tt;
}

pub first_at : IsRecordAt sample 0 (kept 0)
first_at = kept-IsRecordAt 0 (omega arith)

-- The store of one record, and its files.
abbrev pub one_record : SnapshotStore Str
one_record = record { records = kept 0 ∷ []; journaled = true; has_dir = true }

abbrev pub one_file : Disk
one_file =
    put_file (snapshot_path (kept 0).snapshot_id) (render_body sample (kept 0))
      (append_bytes (or_empty (journal_line sample (kept 0))) no_files)

append_snapshot-IsConsistent_example :
    (s' : SnapshotStore Str) × (d' : Disk) × (append_snapshot sample calm no_records
        (kept 0)
        no_files
      ≡ (ok s', d'))
    × (s'.records ≡ kept 0 ∷ [])
    × IsConsistent sample s' d'
append_snapshot-IsConsistent_example =
    append_snapshot-IsConsistent sample sample_documented calm no_records (kept 0) no_files
      calm_done no_records-IsConsistent first_at

pub one_record-IsConsistent : IsConsistent sample one_record one_file
one_record-IsConsistent =
    appended-IsConsistent sample sample_documented no_records (kept 0) no_files
      no_records-IsConsistent first_at

open_store-IsConsistent_example :
    open_store sample calm true true one_file ≡ (ok one_record, one_file)
open_store-IsConsistent_example =
    open_store-IsConsistent sample sample_documented calm one_record one_file calm_done
      one_record-IsConsistent (kept-IsReadable 0, tt)

-- The line of a record.
abbrev pub line_text : ℕ → Str
line_text n = print_value (to_journal_json sample (kept n))

unfoldable pub line_at : (n : ℕ) → Line sample (kept n)
unfolding journal_line read_line
line_at n = record {
  content = line_text n;
  written_as = refl;
  one_line = sample_documented.to_line-IsLine (to_journal_json sample (kept n)) (line_text n) refl;
  readable =
      rw (sample_documented.to_line-is_utf8 (to_journal_json sample (kept n)) (line_text n) refl);
}

-- A journal that ends in a part of a line.
abbrev torn_disk : Disk
torn_disk = record { journal = some (text "x"); files = λ name. none }

pub x_letters : All IsLetter (120 ∷ line_text 0)
x_letters = ((omega arith, omega arith), print_value-IsLetter (to_journal_json sample (kept 0)))

pub visible : (b : ℕ) (s : Str) → All IsLetter (b ∷ s) → is_empty (trim (b ∷ s)) ≡ false
visible b s h = rw (trim-IsGraphic (b ∷ s) (letters-IsGraphic (b ∷ s) h))

pub unknown : (s : Str) → (e : Str) × (parse_line sample (120 ∷ s) ≡ err e)
unfolding parse_line
unknown s = let (e, bad) = read_value-unknown s in (e, rw bad)

append_snapshot-lost_example :
    (s' : SnapshotStore Str) × (d' : Disk) × (bytes : List ℕ) × (append_snapshot sample calm
        no_records
        (kept 0)
        torn_disk
      ≡ (ok s', d'))
    × (s'.records ≡ kept 0 ∷ [])
    × (d'.journal ≡ some bytes)
    × (replay sample bytes ≡ ok [])
unfolding text line_at print_value
append_snapshot-lost_example =
    append_snapshot-lost sample sample_documented calm no_records (kept 0) torn_disk (text "x")
      (unknown (line_text 0)).0 (line_at 0) calm_done refl refl tt tt first_at refl
      ((λ e. omega arith, λ e. omega arith), tt) (letters-is_utf8 (120 ∷ line_text 0) x_letters)
      (visible 120 (line_text 0) x_letters) (unknown (line_text 0)).1

-- The file of the first record cannot be written.
abbrev full_disk : Io
full_disk = record calm { write_file = λ name. torn 1 (text "no space left on device") }

append_snapshot-retried_example :
    (f : StoreError) × (d₁ : Disk) × (s' : SnapshotStore Str) × (d₂ : Disk) × (bytes : List ℕ)
    × (append_snapshot sample full_disk no_records (kept 0) no_files ≡ (err f, d₁))
    × (append_snapshot sample calm no_records (kept 0) d₁ ≡ (ok s', d₂))
    × (d₂.journal ≡ some bytes)
    × IsErr (replay sample bytes)
append_snapshot-retried_example =
    append_snapshot-retried sample sample_documented full_disk calm no_records (kept 0) (kept 0)
      no_files (text "no space left on device") refl refl calm_done no_records-IsConsistent first_at
      first_at (kept-IsReadable 0)

pub one-IsHistory : IsHistory sample 0 (kept 0 ∷ [])
one-IsHistory = (first_at, tt)

x_line : All IsLineByte (text "x")
unfolding text
x_line = ((λ e. omega arith, λ e. omega arith), tt)

replay-torn_example :
    replay sample (journal_text sample (kept 0 ∷ []) ++ text "x") ≡ ok (kept 0 ∷ [])
unfolding text
replay-torn_example =
    replay-torn sample sample_documented (kept 0 ∷ []) (text "x") (text "x") (unknown []).0
      one-IsHistory (kept-IsReadable 0, tt) (split_lines-last 120 [] x_line)
      (letters-is_utf8 (text "x") ((omega arith, omega arith), tt))
      (visible 120 [] ((omega arith, omega arith), tt)) (unknown []).1

replay-corrupt_example :
    IsErr (replay sample (journal_text sample (kept 0 ∷ []) ++ (text "x" ++ 10 ∷ text "y")))
unfolding text
replay-corrupt_example =
    replay-corrupt sample sample_documented (kept 0 ∷ []) (text "x") (unknown []).0 (text "y")
      one-IsHistory x_line (letters-is_utf8 (text "x") ((omega arith, omega arith), tt))
      (unknown []).1 (unfold split_lines in refl)

Reachable-IsIndexed_example : IsIndexed sample 0 (kept 0 ∷ [])
Reachable-IsIndexed_example = Reachable-IsIndexed sample one_record (
    opened calm true true one_file one_file (
      open_store-IsConsistent sample sample_documented calm one_record one_file calm_done
        one_record-IsConsistent (kept-IsReadable 0, tt)))

get_snapshot-position_example : get_snapshot sample one_record (snapshot_id_of 0) ≡ some (kept 0)
get_snapshot-position_example =
    get_snapshot-position sample one_record 0 (kept 0) one-IsHistory refl

list-Listing_example :
    Listing sample none
      (some (from_secs (pos 5)))
      (kept 0 ∷ [])
      (list sample one_record none (some (from_secs (pos 5))))
list-Listing_example = list-Listing sample one_record none (some (from_secs (pos 5)))

list-append_example :
    (IsListed sample none (some (from_secs (pos 5))) (kept 1)
      × (list sample
            (record one_record { records = kept 0 ∷ kept 1 ∷ [] })
            none
            (some (from_secs (pos 5)))
          ≡ list sample one_record none (some (from_secs (pos 5))) ++ kept 1 ∷ []))
    ⊎ (¬ IsListed sample none (some (from_secs (pos 5))) (kept 1)
        × (list sample
              (record one_record { records = kept 0 ∷ kept 1 ∷ [] })
              none
              (some (from_secs (pos 5)))
            ≡ list sample one_record none (some (from_secs (pos 5)))))
list-append_example = list-append sample one_record (kept 1) none (some (from_secs (pos 5)))

-- ===== src/Store/Files.antt =====
-- The files that src/store.rs reads and writes: the journal, and the snapshot directory by file
-- name. What the operating system answers to each call is an argument, `Io`.
use unidpp_archive.Prelude.{ℕ, Option, none, some, List, [], ◌++◌, take, if◌then◌else◌}
use unidpp_archive.Result.{Result, ok, err}
use unidpp_archive.Text.{Str, eq_str}

pub record Disk : Type 0 where
  -- The bytes of the journal file, if it exists.
  pub journal : Option (List ℕ)
  -- The bytes of a snapshot file that can be read.
  pub files : Str → Option (List ℕ)

-- The outcome of writing bytes: all of them, an error after a number of them, or an error before
-- the file is opened.
pub data WriteOutcome : Type 0 where
  done : WriteOutcome
  torn : ℕ → Str → WriteOutcome
  refused : Str → WriteOutcome

abbrev pub written : WriteOutcome → List ℕ → List ℕ
written done bytes = bytes
written (torn n e) bytes = take n bytes
written (refused e) bytes = []

abbrev pub write_result : WriteOutcome → Result Str (Unit {0})
write_result done = ok tt
write_result (torn n e) = err e
write_result (refused e) = err e

-- What the operating system answers.
pub record Io : Type 0 where
  -- `create_dir_all` for the journal's parent and for the snapshot directory.
  pub create_parent : Result Str (Unit {0})
  pub create_dir : Result Str (Unit {0})
  -- Opening the journal, for reading and for appending.
  pub read_journal : Result Str (Unit {0})
  pub append_journal : Result Str (Unit {0})
  -- Writing a journal line, and writing a snapshot file.
  pub write_line : WriteOutcome
  pub write_file : Str → WriteOutcome

abbrev pub contents : Option (List ℕ) → List ℕ
contents none = []
contents (some bytes) = bytes

-- Bytes added at the end of the journal.
unfoldable pub append_bytes : List ℕ → Disk → Disk
append_bytes bytes d = record d { journal = some (contents d.journal ++ bytes) }

-- Opening for appending creates the file.
unfoldable pub touch_journal : Disk → Disk
touch_journal d = record d { journal = some (contents d.journal) }

-- The file of that name holds these bytes, whatever it held before.
unfoldable pub put_file : Str → List ℕ → Disk → Disk
put_file name bytes d = record d {
  files = λ other. if eq_str name other then some bytes else d.files other;
}

-- `std::fs::write`: the file is opened, which empties it, and the bytes are written; a file that
-- cannot be opened stays as it was.
unfoldable pub put_written : WriteOutcome → Str → List ℕ → Disk → Disk
put_written (refused e) name bytes d = d
put_written outcome name bytes d = put_file name (written outcome bytes) d

-- ===== src/Store/Writes.antt =====
-- The names of the snapshot files of src/store.rs, and the files after a write.
use unidpp_archive.Prelude.{
  ℕ, ◌<◌, ◌^◌, ◌≡◌, ◌≢◌, refl, sym, ap, ap₂, ◌∙◌, some, List, [], ◌∷◌, ◌++◌, length, length-append,
  arith, Bool-cases, inl, inr,
}
use unidpp_archive.Text.{Str, text, eq_str, eq_str_refl, eq_str→eq}
use unidpp_archive.Text.Decimal.{pad_zero_injective, pad_zero}
use unidpp_archive.Model.Record.{snapshot_id_of}
use unidpp_archive.Store.Files.{Disk, contents, append_bytes, touch_journal, put_file}
use unidpp_archive.Store.Opening.{snapshot_path}

append_cancel : (a b c : Str) → a ++ c ≡ b ++ c → a ≡ b
append_cancel [] [] c e = refl
append_cancel [] (y ∷ b) c e = absurd (omega (arith, ap length e, length-append b c))
append_cancel (y ∷ a) [] c e = absurd (omega (arith, ap length e, length-append a c))
append_cancel (y ∷ a) (z ∷ b) c e =
    let heads : y ≡ z = cc in
    let tails : a ++ c ≡ b ++ c = cc in ap₂ (λ h t. h ∷ t) heads (append_cancel a b c tails)

-- Two sequence numbers have two files.
pub snapshot_path_injective :
    (m n : ℕ)
    → m < 2 ^ 64
    → n < 2 ^ 64
    → snapshot_path (snapshot_id_of m) ≡ snapshot_path (snapshot_id_of n)
    → m ≡ n
unfolding snapshot_path snapshot_id_of text
snapshot_path_injective m n hm hn e =
    let ids : pad_zero 12 m ≡ pad_zero 12 n =
      cc (append_cancel (snapshot_id_of m) (snapshot_id_of n) (text ".json") e) in
    pad_zero_injective 12 m n hm hn ids

pub put_file-other :
    (name other : Str) (bytes : List ℕ) (d : Disk)
    → name ≢ other
    → (put_file name bytes d).files other ≡ d.files other
unfolding put_file
put_file-other name other bytes d h = elim (Bool-cases (eq_str name other)) [
  | inl same ↦ absurd (h (eq_str→eq name other same))
  | inr e ↦ rw e
]

pub put_file-same :
    (name : Str) (bytes : List ℕ) (d : Disk) → (put_file name bytes d).files name ≡ some bytes
unfolding put_file
put_file-same name bytes d = rw (eq_str_refl name)

pub put_file-journal :
    (name : Str) (bytes : List ℕ) (d : Disk) → (put_file name bytes d).journal ≡ d.journal
unfolding put_file
put_file-journal name bytes d = refl

pub append_bytes-journal :
    (bytes old : List ℕ) (d : Disk)
    → d.journal ≡ some old
    → (append_bytes bytes d).journal ≡ some (old ++ bytes)
unfolding append_bytes
append_bytes-journal bytes old d h = rw h

pub touch_journal-some : (old : List ℕ) (d : Disk) → d.journal ≡ some old → touch_journal d ≡ d
unfolding touch_journal
touch_journal-some old d h =
    ap (λ j. record d { journal = j }) (ap (λ j. some (contents j)) h ∙ sym h)

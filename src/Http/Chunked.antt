-- ===== src/Http/Chunked.antt =====
-- `decode_chunked_body` of src/http.rs: bodies in the chunked transfer coding.
pub mod Steps
pub mod Faults
pub mod Rounds
pub mod Stable
pub mod Digits
pub mod Encode
use unidpp_archive.Prelude.{
  ℕ, zero, suc, ◌+◌, ◌-◌, ◌*◌, ◌^◌, ◌≡◌, refl, Bool, true, false, ◌&&◌, Option, none, some, List,
  [], ◌∷◌, ◌++◌, ltb, leb, ◌==◌, if◌then◌else◌, length, take, drop, not,
}
use unidpp_archive.Result.{Result, ok, err, ◌>>=◌, ◌>>◌, ok_or, fail_if, keep_if}
use unidpp_archive.Text.{Str, text, trim}
use unidpp_archive.Text.Lines.{is_utf8}
use unidpp_archive.Text.Search.{find_subslice, before}

-- How decoding fails: with a message, by the panic of an addition or of a slice that is out of range,
-- or (in the model only) for want of fuel.
pub data Fault : Type 0 where
  message : Str → Fault
  panicked : Fault
  out_of_fuel : Fault

abbrev pub crlf : Str
crlf = 13 ∷ 10 ∷ []

-- `char::to_digit(16)`
unfoldable pub hex_value : ℕ → Option ℕ
hex_value c =
    if leb b'0' c && leb c b'9'
    then some (c - b'0')
    else if leb b'a' c && leb c b'f'
    then some (c - b'a' + 10)
    else if leb b'A' c && leb c b'F'
    then some (c - b'A' + 10)
    else none

unfoldable pub scan_hex : ℕ → Str → Option ℕ
unfolding hex_value
scan_hex acc [] = some acc
scan_hex acc (c ∷ s) = elim (hex_value c) [ none ↦ none | some d ↦ scan_hex (acc * 16 + d) s ]

unfoldable pub hex_number : Str → Option ℕ
unfolding scan_hex
hex_number [] = none
hex_number (c ∷ s) = keep_if (scan_hex 0 (c ∷ s)) (λ n. ltb n (2 ^ 64))

-- `usize::from_str_radix(s, 16)`, which takes one leading `+`.
unfoldable pub from_str_radix : Str → Option ℕ
unfolding hex_number
from_str_radix [] = none
from_str_radix (c ∷ s) = if c == b'+' then hex_number s else hex_number (c ∷ s)

unfoldable pub chunk_size : Str → Result Fault ℕ
unfolding from_str_radix before trim text is_utf8
chunk_size line =
    fail_if (not (is_utf8 line)) (message (text "bad chunk header"))
    >> (let size_hex = trim (before b';' line) in
        ok_or (from_str_radix size_hex) (message (text "bad chunk size `" ++ size_hex ++ text "`")))

-- The size line at a position: the size, and the position after the line.
unfoldable pub size_line : Str → ℕ → Result Fault (ℕ × ℕ)
unfolding chunk_size find_subslice text
size_line raw pos = do
  found ← ok_or (find_subslice (drop pos raw) crlf) (message (text "incomplete chunk header"))
  size ← chunk_size (take found (drop pos raw))
  ok (size, found + pos + 2)

-- The data of a chunk of a size at a position, and the position after it and its line end. A size of 0
-- ends the body.
unfoldable pub chunk_data : Str → ℕ × ℕ → Result Fault (Option (Str × ℕ))
unfolding text
chunk_data raw (zero, pos) = ok none
chunk_data raw (suc n, pos) = do
  fail_if (leb (2 ^ 64) (pos + suc n)) panicked
  fail_if (ltb (length raw) (pos + suc n)) (message (text "incomplete chunk data"))
  fail_if (ltb (length raw) (pos + suc n + 2)) (message (text "incomplete chunk trailer"))
  ok (some (take (suc n) (drop pos raw), pos + suc n + 2))

-- One round of the loop.
unfoldable pub chunk_at : Str → ℕ → Result Fault (Option (Str × ℕ))
unfolding size_line chunk_data
chunk_at raw pos = do line ← size_line raw pos; chunk_data raw line

-- The loop from a position, with what was decoded before.
unfoldable pub decode_rounds : ℕ → Str → ℕ → Str → Result Fault Str
unfolding chunk_at
decode_rounds zero raw pos out = err out_of_fuel
decode_rounds (suc fuel) raw pos out = elim (chunk_at raw pos) [
  | err fault ↦ err fault
  | ok none ↦ ok out
  | ok (some (data_bytes, next)) ↦ decode_rounds fuel raw next (out ++ data_bytes)
]

-- Every round moves on, so that as many rounds as there are bytes, and one, are enough.
unfoldable pub decode_chunked_body : Str → Result Fault Str
unfolding decode_rounds
decode_chunked_body raw = decode_rounds (suc (length raw)) raw 0 []

decode_runs :
    decode_chunked_body (text "4;x=1\r\nWiki\r\n5\r\npedia\r\n0\r\n\r\n") ≡ ok (text "Wikipedia")
unfolding decode_chunked_body text
decode_runs = refl

decode_waits : decode_chunked_body (text "4\r\nWik") ≡ err (message (text "incomplete chunk data"))
unfolding decode_chunked_body text
decode_waits = refl

decode_panics : decode_chunked_body (text "ffffffffffffffff\r\n") ≡ err panicked
unfolding decode_chunked_body text
decode_panics = refl

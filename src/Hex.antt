-- ===== src/Hex.antt =====
-- src/hex.rs: the hex codec of seeds, keys, signatures and receipts.
pub mod RoundTrip
pub mod Tests
use unidpp_archive.Prelude.{
  ℕ, ◌+◌, ◌-◌, ◌*◌, ◌/◌, ◌%◌, Option, none, some, Bool, ◌&&◌, not, List, [], ◌∷◌, ◌++◌, ltb, leb,
  ◌==◌, if◌then◌else◌, length,
}
use unidpp_archive.Result.{Result, ok, err, ◌>>=◌, ◌>>◌, fail_if}
use unidpp_archive.Text.{Str, text, encode_char, trim, strip_prefix}
use unidpp_archive.Text.Decimal.{to_string}

-- One digit of `{:x}`.
unfoldable pub hex_digit : ℕ → ℕ
hex_digit n = if ltb n 10 then b'0' + n else b'a' + (n - 10)

unfoldable pub hex_encode : List ℕ → Str
unfolding hex_digit
hex_encode [] = []
hex_encode (b ∷ bytes) = hex_digit (b / 16) ∷ hex_digit (b % 16) ∷ hex_encode bytes

unfoldable pub hex_nibble : ℕ → Result Str ℕ
hex_nibble b =
    if leb b'0' b && leb b b'9'
    then ok (b - b'0')
    else if leb b'a' b && leb b b'f'
    then ok (b - b'a' + 10)
    else if leb b'A' b && leb b b'F'
    then ok (b - b'A' + 10)
    else err (text "not a hex digit `" ++ encode_char b ++ text "`")

-- The loop over pairs of characters. Both nibbles are below 16, so `(hi << 4) | lo` is a sum. It is
-- called on an even number of characters only, so that the second clause is never met.
unfoldable pub decode_pairs : Str → Result Str (List ℕ)
unfolding hex_nibble
decode_pairs [] = ok []
decode_pairs (a ∷ []) = ok []
decode_pairs (a ∷ b ∷ s) = do
  hi ← hex_nibble a
  lo ← hex_nibble b
  rest ← decode_pairs s
  ok ((hi * 16 + lo) ∷ rest)

-- The text behind an optional `0x` or `0X`.
unfoldable pub hex_body : Str → Str
hex_body trimmed = elim (strip_prefix (text "0x") trimmed) [
  | some rest ↦ rest
  | none ↦ elim (strip_prefix (text "0X") trimmed) [ some rest ↦ rest | none ↦ trimmed ]
]

unfoldable pub hex_decode : Str → Result Str (List ℕ)
unfolding hex_body decode_pairs
hex_decode s = do
  let body = hex_body (trim s)
  fail_if (not (length body % 2 == 0))
      (text "hex string of odd length `" ++ to_string (length body) ++ text "`")
  decode_pairs body

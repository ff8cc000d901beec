-- ===== src/Hex/RoundTrip.antt =====
-- Decoding and encoding of src/hex.rs, one after the other.
use unidpp_archive.Prelude.{
  not, ℕ, ◌+◌, ◌*◌, ◌/◌, ◌%◌, ◌<◌, ◌≤◌, ◌≡◌, ◌⊎◌, refl, ap, none, List, [], ◌∷◌, map, arith, leb,
  ◌==◌, ◌&&◌, if◌then◌else◌, length, All,
}
use unidpp_archive.Result.{Result, ok, ◌>>=◌, ◌>>◌, fail_if}
use unidpp_archive.Text.{Str, text, trim, strip_prefix, IsGraphic, trim-IsGraphic}
use unidpp_archive.Hex.{hex_digit, hex_encode, hex_nibble, decode_pairs, hex_body, hex_decode}

abbrev pub IsByte : ℕ → Type 0
IsByte b = b < 256

hex_nibble-hex_digit : (n : ℕ) → n < 16 → hex_nibble (hex_digit n) ≡ ok n
unfolding hex_nibble hex_digit
hex_nibble-hex_digit n lt = ground arith

-- One round of the loop.
decode_pairs-cons :
    (a b : ℕ) (s : Str)
    → decode_pairs (a ∷ b ∷ s)
      ≡ (do hi ← hex_nibble a; lo ← hex_nibble b; rest ← decode_pairs s; ok ((hi * 16 + lo) ∷ rest))
unfolding decode_pairs
decode_pairs-cons a b s = refl

pub decode_pairs-hex_encode :
    (bytes : List ℕ) → All IsByte bytes → decode_pairs (hex_encode bytes) ≡ ok bytes
unfolding decode_pairs hex_encode
decode_pairs-hex_encode [] h = refl
decode_pairs-hex_encode (b ∷ bytes) h =
    rw
      (
        decode_pairs-cons (hex_digit (b / 16)) (hex_digit (b % 16)) (hex_encode bytes),
        hex_nibble-hex_digit (b / 16) (omega arith),
        hex_nibble-hex_digit (b % 16) (omega arith),
        decode_pairs-hex_encode bytes h.1,
      )
      (ap (λ c. ok (c ∷ bytes)) (omega arith))

length-hex_encode : (bytes : List ℕ) → length (hex_encode bytes) ≡ 2 * length bytes
unfolding hex_encode
length-hex_encode [] = refl
length-hex_encode (b ∷ bytes) = omega (arith, length-hex_encode bytes)

hex_digit-IsGraphic : (n : ℕ) → n < 16 → IsGraphic (hex_digit n)
unfolding hex_digit
hex_digit-IsGraphic n lt = ground arith

pub hex_encode-IsGraphic : (bytes : List ℕ) → All IsByte bytes → All IsGraphic (hex_encode bytes)
unfolding hex_encode
hex_encode-IsGraphic [] h = tt
hex_encode-IsGraphic (b ∷ bytes) h = (
  hex_digit-IsGraphic (b / 16) (omega arith),
  (hex_digit-IsGraphic (b % 16) (omega arith), hex_encode-IsGraphic bytes h.1),
)

no_prefix :
    (c a b : ℕ) (s : Str) → 102 < c → b ≤ 102 → strip_prefix (b'0' ∷ c ∷ []) (a ∷ b ∷ s) ≡ none
unfolding strip_prefix
no_prefix c a b s hc hb = ground arith

hex_digit-le : (n : ℕ) → n < 16 → hex_digit n ≤ 102
unfolding hex_digit
hex_digit-le n lt = ground arith

hex_body-cons :
    (a b : ℕ) (s : Str) → b ≤ 87 ⊎ (97 ≤ b) × (b ≤ 102) → hex_body (a ∷ b ∷ s) ≡ a ∷ b ∷ s
unfolding hex_body text strip_prefix
hex_body-cons a b s h = ground arith

hex_digit-plain : (n : ℕ) → n < 16 → hex_digit n ≤ 87 ⊎ (97 ≤ hex_digit n) × (hex_digit n ≤ 102)
unfolding hex_digit
hex_digit-plain n lt = ground arith

hex_body-hex_encode :
    (bytes : List ℕ) → All IsByte bytes → hex_body (hex_encode bytes) ≡ hex_encode bytes
unfolding hex_encode
hex_body-hex_encode [] h = unfold hex_body text strip_prefix in refl
hex_body-hex_encode (b ∷ bytes) h =
    hex_body-cons (hex_digit (b / 16)) (hex_digit (b % 16)) (hex_encode bytes)
      (hex_digit-plain (b % 16) (omega arith))

-- Bytes are decoded from the hexadecimal text that they are encoded to.
pub hex_decode-hex_encode :
    (bytes : List ℕ) → All IsByte bytes → hex_decode (hex_encode bytes) ≡ ok bytes
unfolding hex_decode
hex_decode-hex_encode bytes h =
    let even : length (hex_encode bytes) % 2 ≡ 0 = omega (arith, length-hex_encode bytes) in
    rw
      (
        trim-IsGraphic (hex_encode bytes) (hex_encode-IsGraphic bytes h),
        hex_body-hex_encode bytes h,
        even,
      )
      (decode_pairs-hex_encode bytes h)

-- `A` to `F` written small; other characters are kept.
abbrev pub lower_hex : ℕ → ℕ
lower_hex c = if leb b'A' c && leb c b'F' then c + 32 else c

hex_digit-hex_nibble : (c n : ℕ) → hex_nibble c ≡ ok n → (n < 16) × (hex_digit n ≡ lower_hex c)
unfolding hex_nibble hex_digit
hex_digit-hex_nibble c n h = ground arith

-- A round that succeeds has read two digits.
record Round (ma mb : Result Str ℕ) (mr : Result Str (List ℕ)) (bytes : List ℕ) : Type 0 where
  hi : ℕ
  lo : ℕ
  rest : List ℕ
  high : ma ≡ ok hi
  low : mb ≡ ok lo
  others : mr ≡ ok rest
  result : bytes ≡ (hi * 16 + lo) ∷ rest

Round-of_ok :
    (ma mb : Result Str ℕ) (mr : Result Str (List ℕ)) (bytes : List ℕ)
    → (do hi ← ma; lo ← mb; rest ← mr; ok ((hi * 16 + lo) ∷ rest)) ≡ ok bytes
    → Round ma mb mr bytes
Round-of_ok (ok hi) (ok lo) (ok rest) bytes h = record {
  hi = hi;
  lo = lo;
  rest = rest;
  high = refl;
  low = refl;
  others = refl;
  result = cc;
}
Round-of_ok _ _ _ bytes h = cc

encode_round :
    (a b hi lo : ℕ) (s rest bytes : List ℕ)
    → hex_nibble a ≡ ok hi
    → hex_nibble b ≡ ok lo
    → bytes ≡ (hi * 16 + lo) ∷ rest
    → (hex_encode rest ≡ map lower_hex s) × All IsByte rest
    → (hex_encode bytes ≡ map lower_hex (a ∷ b ∷ s)) × All IsByte bytes
unfolding hex_encode
encode_round a b hi lo s rest bytes ha hb e ih =
    let (ha16, da) = hex_digit-hex_nibble a hi ha in
    let (hb16, db) = hex_digit-hex_nibble b lo hb in
    let top : (hi * 16 + lo) / 16 ≡ hi = omega arith in
    let bottom : (hi * 16 + lo) % 16 ≡ lo = omega arith in
    rw e (rw (top, bottom, da, db, ih.0) refl, (omega arith, ih.1))

-- What the loop returns is written, in small digits, by the characters that it has read.
hex_encode-decode_pairs :
    (s : Str) (bytes : List ℕ)
    → length s % 2 ≡ 0
    → decode_pairs s ≡ ok bytes
    → (hex_encode bytes ≡ map lower_hex s) × All IsByte bytes
hex_encode-decode_pairs [] bytes even h = unfold decode_pairs hex_encode in ground arith
hex_encode-decode_pairs (a ∷ []) bytes even h = absurd (omega arith)
hex_encode-decode_pairs (a ∷ b ∷ s) bytes even h =
    encode_round a b r.hi r.lo s r.rest bytes r.high r.low r.result
      (hex_encode-decode_pairs s r.rest (omega arith) r.others)
  where
    r : Round (hex_nibble a) (hex_nibble b) (decode_pairs s) bytes
    r =
        Round-of_ok (hex_nibble a) (hex_nibble b) (decode_pairs s) bytes
          (rw (decode_pairs-cons a b s) at h)

even_of_ok :
    (body : Str) (bytes : List ℕ) (e : Str)
    → (do fail_if (not (length body % 2 == 0)) e; decode_pairs body) ≡ ok bytes
    → (length body % 2 ≡ 0) × (decode_pairs body ≡ ok bytes)
even_of_ok body bytes e h = ground arith

-- When a text decodes to bytes, their encoding is the text, less white space at its ends and its
-- prefix, in lower case, and they are bytes.
pub hex_encode-hex_decode :
    (s : Str) (bytes : List ℕ)
    → hex_decode s ≡ ok bytes
    → (hex_encode bytes ≡ map lower_hex (hex_body (trim s))) × All IsByte bytes
unfolding hex_decode
hex_encode-hex_decode s bytes h =
    let (even, decoded) = even_of_ok (hex_body (trim s)) bytes _ h in
    hex_encode-decode_pairs (hex_body (trim s)) bytes even decoded

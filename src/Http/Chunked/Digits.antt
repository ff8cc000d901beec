-- ===== src/Http/Chunked/Digits.antt =====
-- Numbers in hexadecimal, as the size lines of chunked bodies hold them.
use native.Mathlib.Nat.{pow-suc}
use unidpp_archive.Prelude.{
  ℕ, zero, suc, ◌+◌, ◌-◌, ◌*◌, ◌/◌, ◌%◌, ◌^◌, ◌≤◌, ◌<◌, ◌≡◌, ◌≢◌, refl, ap, ◌∙◌, false, Option,
  none, some, [], ◌∷◌, ◌++◌, arith, length, length-append, ltb, ltb→lt, lt→ltb, Bool-cases, inl,
  inr, All, All-append, if◌then◌else◌, ◌==◌,
}
use unidpp_archive.Result.{ok, keep_if-true, some_injective}
use unidpp_archive.Text.{Str, eq_str, IsGraphic, trim-IsGraphic}
use unidpp_archive.Text.Lines.{IsAscii, ascii-is_utf8}
use unidpp_archive.Text.Search.{find_subslice, starts_with, before}
use unidpp_archive.Http.Chunked.{crlf, hex_value, scan_hex, hex_number, from_str_radix, chunk_size}

abbrev pub hex_letter : ℕ → ℕ
hex_letter d = if ltb d 10 then b'0' + d else b'a' + (d - 10)

-- The hexadecimal digits of a number below 16 ^ fuel.
abbrev pub hex_digits : ℕ → ℕ → Str
hex_digits zero n = []
hex_digits (suc fuel) n =
    let high = hex_digits fuel (n / 16) in
    if ltb n 16 then hex_letter n ∷ [] else high ++ hex_letter (n % 16) ∷ []

abbrev pub IsSizeByte : ℕ → Type 0
IsSizeByte c = (b'0' ≤ c) × (c ≤ b'f') × (c ≢ b';')

pub hex_digits-IsSizeByte : (f n : ℕ) → All IsSizeByte (hex_digits f n)
hex_digits-IsSizeByte zero n = tt
hex_digits-IsSizeByte (suc f) n =
    let last : All IsSizeByte (hex_letter (n % 16) ∷ []) = letter (n % 16) (omega arith) in
    let more : All IsSizeByte (hex_digits f (n / 16) ++ hex_letter (n % 16) ∷ []) =
      All-append IsSizeByte _ _ (hex_digits-IsSizeByte f (n / 16)) last in
    ground (arith, last, more)
  where
    letter : (d : ℕ) → d < 16 → All IsSizeByte (hex_letter d ∷ [])
    letter d h = ground arith

hex_value-hex_letter : (d : ℕ) → d < 16 → hex_value (hex_letter d) ≡ some d
unfolding hex_value
hex_value-hex_letter d h = ground arith

-- A digit more, when the rest of the text is known to go on with it.
scan_step :
    (value : Option ℕ) (acc n d : ℕ) (s : Str)
    → ((acc' : ℕ)
        → scan_hex acc' s ≡ some n
        → scan_hex acc' (s ++ hex_letter d ∷ []) ≡ some (n * 16 + d))
    → elim value [ none ↦ none | some e ↦ scan_hex (acc * 16 + e) s ] ≡ some n
    → elim value [ none ↦ none | some e ↦ scan_hex (acc * 16 + e) (s ++ hex_letter d ∷ []) ]
      ≡ some (n * 16 + d)
scan_step none acc n d s goes h = cc
scan_step (some e) acc n d s goes h = goes (acc * 16 + e) h

scan_hex-snoc :
    (s : Str) (acc n d : ℕ)
    → scan_hex acc s ≡ some n
    → d < 16
    → scan_hex acc (s ++ hex_letter d ∷ []) ≡ some (n * 16 + d)
unfolding scan_hex
scan_hex-snoc [] acc n d h lt =
    let same : acc ≡ n = some_injective h in
    rw (hex_value-hex_letter d lt, scan_hex) (ap (λ a. some (a * 16 + d)) same)
scan_hex-snoc (c ∷ s) acc n d h lt =
    scan_step (hex_value c) acc n d s (λ acc' h'. scan_hex-snoc s acc' n d h' lt) h

one_digit : (n : ℕ) → n < 16 → scan_hex 0 (hex_letter n ∷ []) ≡ some n
unfolding scan_hex
one_digit n lt = rw (hex_value-hex_letter n lt, scan_hex) (ap some (omega arith))

scan_hex-hex_digits : (f n : ℕ) → n < 16 ^ suc f → scan_hex 0 (hex_digits (suc f) n) ≡ some n
scan_hex-hex_digits zero n lt = rw (lt→ltb n 16 lt) (one_digit n lt)
scan_hex-hex_digits (suc f) n lt = elim (Bool-cases (ltb n 16)) [
  | inl small ↦ rw small (one_digit n (ltb→lt n 16 small))
  | inr large ↦ rw large (
      scan_hex-snoc (hex_digits (suc f) (n / 16)) 0 (n / 16) (n % 16)
        (scan_hex-hex_digits f (n / 16) (omega (arith, pow-suc 16 (suc f)))) (omega arith)
      ∙ ap some (omega arith))
]

hex_digits_pos : (f n : ℕ) → 0 < length (hex_digits (suc f) n)
hex_digits_pos f n =
    ground (arith, length-append (hex_digits f (n / 16)) (hex_letter (n % 16) ∷ []))

number_of_digits :
    (s : Str) (n : ℕ)
    → All IsSizeByte s
    → 0 < length s
    → scan_hex 0 s ≡ some n
    → n < 2 ^ 64
    → from_str_radix s ≡ some n
unfolding from_str_radix hex_number
number_of_digits [] n h pos e lt = absurd (omega arith)
number_of_digits (c ∷ s) n h pos e lt =
    let plain : (c == b'+') ≡ false = ground (arith, h.0) in
    rw (plain, e) (keep_if-true n (λ k. ltb k (2 ^ 64)) (lt→ltb n (2 ^ 64) lt))

before-IsSizeByte : (s : Str) → All IsSizeByte s → before b';' s ≡ s
unfolding before
before-IsSizeByte [] h = refl
before-IsSizeByte (c ∷ s) h = ground (arith, before-IsSizeByte s h.1)

graphic : (s : Str) → All IsSizeByte s → All IsGraphic s
graphic [] h = tt
graphic (c ∷ s) h = (omega (arith, h.0), graphic s h.1)

ascii : (s : Str) → All IsSizeByte s → All IsAscii s
ascii [] h = tt
ascii (c ∷ s) h = (omega (arith, h.0), ascii s h.1)

not_crlf : (c : ℕ) (s : Str) → IsSizeByte c → starts_with (c ∷ s) crlf ≡ false
unfolding starts_with eq_str
not_crlf c s h = ground (arith, h.0)

pub find_crlf :
    (s t : Str) → All IsSizeByte s → find_subslice (s ++ 13 ∷ 10 ∷ t) crlf ≡ some (length s)
unfolding find_subslice starts_with eq_str
find_crlf [] t h = refl
find_crlf (c ∷ s) t h =
    rw (not_crlf c (s ++ 13 ∷ 10 ∷ t) h.0, find_crlf s t h.1, find_subslice) refl

-- The size line of a chunk.
pub chunk_size-hex_digits : (n : ℕ) → n < 2 ^ 64 → chunk_size (hex_digits 16 n) ≡ ok n
unfolding chunk_size
chunk_size-hex_digits n lt =
    let digits = hex_digits-IsSizeByte 16 n in
    rw
      (
        ascii-is_utf8 (hex_digits 16 n) (ascii (hex_digits 16 n) digits),
        before-IsSizeByte (hex_digits 16 n) digits,
        trim-IsGraphic (hex_digits 16 n) (graphic (hex_digits 16 n) digits),
        number_of_digits (hex_digits 16 n) n digits (hex_digits_pos 15 n)
            (scan_hex-hex_digits 15 n (omega arith)) lt,
      )
      refl

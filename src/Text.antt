-- ===== src/Text.antt =====
-- Rust's `str` as the list of its UTF-8 bytes, with the methods of the standard library that the
-- program calls on it.
pub mod Decimal
pub mod Lines
pub mod Lossy
pub mod Search
use Prim.Native.Char.{code}
use Prim.Native.String.{String}
use unidpp_archive.Prelude.{
  ℕ, zero, suc, ◌+◌, ◌-◌, ◌*◌, ◌/◌, ◌%◌, ◌≡◌, refl, Bool, true, false, ◌&&◌, ◌||◌, Option, none,
  some, List, [], ◌∷◌, ◌++◌, reverse, arith, ltb, leb, ◌==◌, if◌then◌else◌, length, drop, ◌≤◌, All,
  All-reverse, reverse-reverse,
}

-- The bytes of a text; its length is `str::len`.
abbrev pub Str : Type 0
Str = List ℕ

-- UTF-8 of one code point.
unfoldable pub encode_char : ℕ → Str
encode_char c =
    if ltb c 0x80
    then c ∷ []
    else if ltb c 0x800
    then (0xC0 + c / 64) ∷ (0x80 + c % 64) ∷ []
    else if ltb c 0x10000
    then (0xE0 + c / 4096) ∷ (0x80 + c / 64 % 64) ∷ (0x80 + c % 64) ∷ []
    else (0xF0 + c / 262144) ∷ (0x80 + c / 4096 % 64) ∷ (0x80 + c / 64 % 64) ∷ (0x80 + c % 64) ∷ []

-- The bytes of a text literal of the source.
unfoldable pub text : String → Str
unfolding encode_char
text String.[] = []
text (String.◌∷◌ c s) = encode_char (code c) ++ text s

-- Equality of texts (and of `[u8]`).
unfoldable pub eq_str : Str → Str → Bool
eq_str [] [] = true
eq_str (a ∷ s) (b ∷ t) = a == b && eq_str s t
eq_str _ _ = false

pub eq_str_refl : (s : Str) → eq_str s s ≡ true
unfolding eq_str
eq_str_refl [] = refl
eq_str_refl (a ∷ s) = ground (arith, eq_str_refl s)

pub eq_str→eq : (s t : Str) → eq_str s t ≡ true → s ≡ t
unfolding eq_str
eq_str→eq [] [] h = refl
eq_str→eq [] (b ∷ t) h = cc
eq_str→eq (a ∷ s) [] h = cc
eq_str→eq (a ∷ s) (b ∷ t) h = ground (arith, eq_str→eq s t)

-- The number of bytes of the white-space character (Unicode `White_Space`) that the text begins
-- with, and 0 where it begins with another.
unfoldable pub white_prefix : Str → ℕ
white_prefix [] = 0
white_prefix (a ∷ []) = if leb 9 a && leb a 13 || a == 32 then 1 else 0
white_prefix (a ∷ b ∷ []) =
    if leb 9 a && leb a 13 || a == 32
    then 1
    else if a == 0xC2 && (b == 0x85 || b == 0xA0)
    then 2
    else 0
white_prefix (a ∷ b ∷ c ∷ s) =
    if leb 9 a && leb a 13 || a == 32
    then 1
    else if a == 0xC2 && (b == 0x85 || b == 0xA0)
    then 2
    else if a == 0xE1 && b == 0x9A && c == 0x80
        || a == 0xE2
          && b == 0x80
          && (leb 0x80 c && leb c 0x8A || c == 0xA8 || c == 0xA9 || c == 0xAF)
        || a == 0xE2 && b == 0x81 && c == 0x9F
        || a == 0xE3 && b == 0x80 && c == 0x80
    then 3
    else 0

-- The same at the end of the text, which is given in reverse.
white_suffix : Str → ℕ
white_suffix [] = 0
white_suffix (a ∷ []) = if leb 9 a && leb a 13 || a == 32 then 1 else 0
white_suffix (b ∷ a ∷ []) =
    if leb 9 b && leb b 13 || b == 32
    then 1
    else if a == 0xC2 && (b == 0x85 || b == 0xA0)
    then 2
    else 0
white_suffix (c ∷ b ∷ a ∷ s) =
    if leb 9 c && leb c 13 || c == 32
    then 1
    else if b == 0xC2 && (c == 0x85 || c == 0xA0)
    then 2
    else if a == 0xE1 && b == 0x9A && c == 0x80
        || a == 0xE2
          && b == 0x80
          && (leb 0x80 c && leb c 0x8A || c == 0xA8 || c == 0xA9 || c == 0xAF)
        || a == 0xE2 && b == 0x81 && c == 0x9F
        || a == 0xE3 && b == 0x80 && c == 0x80
    then 3
    else 0

-- Characters are dropped as long as the text begins with white space; a round drops one or more
-- bytes, so that as many rounds as there are bytes are enough.
strip_white : (Str → ℕ) → ℕ → Str → Str
strip_white width zero s = s
strip_white width (suc fuel) s = elim (width s) [
  | zero ↦ s
  | suc n ↦ strip_white width fuel (drop (suc n) s)
]

-- `str::trim`
unfoldable pub trim : Str → Str
unfolding strip_white white_prefix white_suffix
trim s =
    let t = strip_white white_prefix (length s) s in
    reverse (strip_white white_suffix (length t) (reverse t))

-- `str::is_empty`
abbrev pub is_empty : Str → Bool
is_empty [] = true
is_empty (a ∷ s) = false

-- `str::strip_prefix`
unfoldable pub strip_prefix : Str → Str → Option Str
strip_prefix [] s = some s
strip_prefix (a ∷ p) [] = none
strip_prefix (a ∷ p) (b ∷ s) = if a == b then strip_prefix p s else none

-- `u8::is_ascii_digit`
abbrev pub is_ascii_digit : ℕ → Bool
is_ascii_digit c = leb b'0' c && leb c b'9'

-- A visible ASCII character.
abbrev pub IsGraphic : ℕ → Type 0
IsGraphic c = (33 ≤ c) × (c ≤ 126)

white_prefix-IsGraphic : (a : ℕ) (s : Str) → IsGraphic a → white_prefix (a ∷ s) ≡ 0
unfolding white_prefix
white_prefix-IsGraphic a [] h = ground arith
white_prefix-IsGraphic a (b ∷ []) h = ground arith
white_prefix-IsGraphic a (b ∷ c ∷ s) h = ground arith

white_suffix-IsGraphic : (a : ℕ) (s : Str) → IsGraphic a → white_suffix (a ∷ s) ≡ 0
unfolding white_suffix
white_suffix-IsGraphic a [] h = ground arith
white_suffix-IsGraphic a (b ∷ []) h = ground arith
white_suffix-IsGraphic a (b ∷ c ∷ s) h = ground arith

strip_white-stop : (width : Str → ℕ) (f : ℕ) (s : Str) → width s ≡ 0 → strip_white width f s ≡ s
unfolding strip_white
strip_white-stop width zero s h = refl
strip_white-stop width (suc f) s h = rw (h, strip_white)

strip_prefix_white : (s : Str) (f : ℕ) → All IsGraphic s → strip_white white_prefix f s ≡ s
strip_prefix_white [] f h = strip_white-stop white_prefix f [] (unfold white_prefix in refl)
strip_prefix_white (a ∷ s) f h =
    strip_white-stop white_prefix f (a ∷ s) (white_prefix-IsGraphic a s h.0)

strip_suffix_white : (s : Str) (f : ℕ) → All IsGraphic s → strip_white white_suffix f s ≡ s
strip_suffix_white [] f h = strip_white-stop white_suffix f [] (unfold white_suffix in refl)
strip_suffix_white (a ∷ s) f h =
    strip_white-stop white_suffix f (a ∷ s) (white_suffix-IsGraphic a s h.0)

-- Visible ASCII text has nothing to trim.
pub trim-IsGraphic : (s : Str) → All IsGraphic s → trim s ≡ s
unfolding trim
trim-IsGraphic s h =
    rw
      (
        strip_prefix_white s (length s) h,
        strip_suffix_white (reverse s) (length s) (All-reverse IsGraphic s h),
      )
      (reverse-reverse s)

trim_runs : trim (text "\t  a b  ") ≡ text "a b"
unfolding trim text
trim_runs = refl

-- ===== src/Text/Lines.antt =====
-- `BufRead::lines` on the bytes of a file: the lines, each refused if it is not UTF-8.
use unidpp_archive.Prelude.{
  ℕ, zero, suc, ◌≡◌, refl, Bool, true, false, ◌&&◌, ◌||◌, Option, none, some, List, [], ◌∷◌, ◌++◌,
  arith, ◌<◌, lt→ltb, ltb, leb, ◌==◌, if◌then◌else◌, All, ◌≢◌,
}
use unidpp_archive.Result.{Result, ok, err}
use unidpp_archive.Text.{Str, text}

-- After a lead byte: how many bytes follow, and the range of the first of them.
unfoldable pub lead : ℕ → Option (ℕ × ℕ × ℕ)
lead b =
    if ltb b 0x80
    then some (0, 0, 0)
    else if leb 0xC2 b && leb b 0xDF
    then some (1, 0x80, 0xBF)
    else if b == 0xE0
    then some (2, 0xA0, 0xBF)
    else if leb 0xE1 b && leb b 0xEC || leb 0xEE b && leb b 0xEF
    then some (2, 0x80, 0xBF)
    else if b == 0xED
    then some (2, 0x80, 0x9F)
    else if b == 0xF0
    then some (3, 0x90, 0xBF)
    else if leb 0xF1 b && leb b 0xF3
    then some (3, 0x80, 0xBF)
    else if b == 0xF4
    then some (3, 0x80, 0x8F)
    else none

utf8_from : ℕ → ℕ → ℕ → List ℕ → Bool
utf8_from zero lo hi [] = true
utf8_from (suc need) lo hi [] = false
utf8_from zero lo hi (b ∷ s) = elim (lead b) [
  | none ↦ false
  | some (need, lo', hi') ↦ utf8_from need lo' hi' s
]
utf8_from (suc need) lo hi (b ∷ s) = elim (leb lo b && leb b hi) [
  | true ↦ utf8_from need 0x80 0xBF s
  | false ↦ false
]

-- `str::from_utf8` succeeds.
unfoldable pub is_utf8 : List ℕ → Bool
unfolding utf8_from lead
is_utf8 s = utf8_from 0 0 0 s

abbrev starts_newline : List ℕ → Bool
starts_newline [] = false
starts_newline (c ∷ s) = c == 10

abbrev prepend : ℕ → List (List ℕ) → List (List ℕ)
prepend c [] = (c ∷ []) ∷ []
prepend c (l ∷ ls) = (c ∷ l) ∷ ls

-- The lines without their ends `\n` or `\r\n`; the last line may have no end.
unfoldable pub split_lines : List ℕ → List (List ℕ)
split_lines [] = []
split_lines (c ∷ s) =
    let rest = split_lines s in
    if c == 10 then [] ∷ rest else if c == 13 && starts_newline s then rest else prepend c rest

unfoldable pub read_line : Str → Result Str Str
read_line l = if is_utf8 l then ok l else err (text "stream did not contain valid UTF-8")

-- A byte that does not end a line.
abbrev pub IsLineByte : ℕ → Type 0
IsLineByte c = (c ≢ 10) × (c ≢ 13)

pub split_lines-newline :
    (l s : List ℕ) → All IsLineByte l → split_lines (l ++ 10 ∷ s) ≡ l ∷ split_lines s
unfolding split_lines
split_lines-newline [] s h = refl
split_lines-newline (c ∷ l) s h = ground (arith, split_lines-newline l s)

pub split_lines-last :
    (c : ℕ) (l : List ℕ) → All IsLineByte (c ∷ l) → split_lines (c ∷ l) ≡ (c ∷ l) ∷ []
unfolding split_lines
split_lines-last c [] h = ground arith
split_lines-last c (d ∷ l) h = ground (arith, split_lines-last d l)

abbrev pub IsAscii : ℕ → Type 0
IsAscii b = b < 128

lead-ascii : (b : ℕ) → b < 128 → lead b ≡ some (0, 0, 0)
unfolding lead
lead-ascii b h = rw (lt→ltb b 0x80 h)

utf8_from-ascii : (lo hi : ℕ) (s : List ℕ) → All IsAscii s → utf8_from 0 lo hi s ≡ true
unfolding utf8_from
utf8_from-ascii lo hi [] h = refl
utf8_from-ascii lo hi (b ∷ s) h = rw (lead-ascii b h.0, utf8_from) (utf8_from-ascii 0 0 s h.1)

-- ASCII is UTF-8.
pub ascii-is_utf8 : (s : List ℕ) → All IsAscii s → is_utf8 s ≡ true
unfolding is_utf8
ascii-is_utf8 s h = utf8_from-ascii 0 0 s h

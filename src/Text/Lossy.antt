-- ===== src/Text/Lossy.antt =====
-- `String::from_utf8_lossy`: UTF-8 with a replacement character in place of what is not UTF-8.
use unidpp_archive.Prelude.{
  ℕ, zero, suc, ◌≡◌, refl, ap, true, false, ◌&&◌, none, some, List, [], ◌∷◌, ◌++◌, leb, All, lt→ltb,
  ◌<◌,
}
use unidpp_archive.Text.{Str}
use unidpp_archive.Text.Lines.{lead, IsAscii}

-- U+FFFD
abbrev replacement : Str
replacement = 0xEF ∷ 0xBF ∷ 0xBD ∷ []

-- The text of the bytes that follow the bytes `held` of a character, of which `need` more are to
-- come, the first of them in a range. A part that no byte continues is replaced as a whole, and the
-- byte after it is read anew.
lossy_from : Str → ℕ → ℕ → ℕ → List ℕ → Str
unfolding lead
lossy_from held zero lo hi [] = []
lossy_from held (suc need) lo hi [] = replacement
lossy_from held zero lo hi (b ∷ s) = elim (lead b) [
  | none ↦ replacement ++ lossy_from [] 0 0 0 s
  | some (zero, lo', hi') ↦ b ∷ lossy_from [] 0 0 0 s
  | some (suc need, lo', hi') ↦ lossy_from (b ∷ []) (suc need) lo' hi' s
]
lossy_from held (suc need) lo hi (b ∷ s) = elim (leb lo b && leb b hi) [
  | true ↦ elim need [
    | zero ↦ held ++ b ∷ lossy_from [] 0 0 0 s
    | suc more ↦ lossy_from (held ++ b ∷ []) (suc more) 0x80 0xBF s
  ]
  | false ↦ replacement ++ elim (lead b) [
    | none ↦ replacement ++ lossy_from [] 0 0 0 s
    | some (zero, lo', hi') ↦ b ∷ lossy_from [] 0 0 0 s
    | some (suc more, lo', hi') ↦ lossy_from (b ∷ []) (suc more) lo' hi' s
  ]
]

unfoldable pub from_utf8_lossy : List ℕ → Str
unfolding lossy_from
from_utf8_lossy bytes = lossy_from [] 0 0 0 bytes

lossy_runs :
    from_utf8_lossy (0xC3 ∷ 0xA9 ∷ 0xE2 ∷ 0x82 ∷ 65 ∷ 0xFF ∷ [])
    ≡ 0xC3 ∷ 0xA9 ∷ replacement ++ 65 ∷ replacement
unfolding from_utf8_lossy
lossy_runs = refl

lead-ascii : (b : ℕ) → b < 128 → lead b ≡ some (0, 0, 0)
unfolding lead
lead-ascii b h = rw (lt→ltb b 0x80 h) refl

lossy_from-ascii :
    (held : Str) (lo hi : ℕ) (s : Str) → All IsAscii s → lossy_from held 0 lo hi s ≡ s
unfolding lossy_from
lossy_from-ascii held lo hi [] h = refl
lossy_from-ascii held lo hi (b ∷ s) h =
    rw (lead-ascii b h.0, lossy_from) (ap (λ t. b ∷ t) (lossy_from-ascii [] 0 0 s h.1))

-- ASCII stays as it is.
pub from_utf8_lossy-ascii : (s : Str) → All IsAscii s → from_utf8_lossy s ≡ s
unfolding from_utf8_lossy
from_utf8_lossy-ascii s h = lossy_from-ascii [] 0 0 s h

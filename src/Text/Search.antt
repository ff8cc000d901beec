-- ===== src/Text/Search.antt =====
-- Searching and splitting texts: `find_subslice` of src/http.rs, and the methods of Rust's `str` that
-- look for a part of a text.
use unidpp_archive.Prelude.{
  ℕ, zero, suc, ◌+◌, ◌≤◌, ◌≡◌, refl, ap, Bool, true, false, ◌&&◌, Option, none, some, List, [], ◌∷◌,
  ◌++◌, arith, ◌==◌, if◌then◌else◌, length, take, drop, map, leb, ◌⊎◌, inl, inr,
}
use unidpp_archive.Result.{map_option, is_some}
use unidpp_archive.Text.{Str, eq_str, eq_str→eq, white_prefix}

-- The text begins with the needle.
unfoldable pub starts_with : Str → Str → Bool
unfolding eq_str
starts_with s needle = eq_str (take (length needle) s) needle

-- The position of the first window that is the needle, which is not empty.
unfoldable pub find_subslice : Str → Str → Option ℕ
unfolding starts_with
find_subslice [] needle = none
find_subslice (b ∷ s) needle =
    let later = find_subslice s needle in
    if starts_with (b ∷ s) needle then some 0 else map_option suc later

-- `str::split_once`, with the separator as a text.
unfoldable pub split_once : Str → Str → Option (Str × Str)
unfolding find_subslice
split_once s separator =
    map_option (λ i. (take i s, drop (i + length separator) s)) (find_subslice s separator)

-- `str::rsplit_once` at a byte
unfoldable pub rsplit_once : Str → ℕ → Option (Str × Str)
rsplit_once [] c = none
rsplit_once (b ∷ s) c = elim (rsplit_once s c) [
  | some (h, t) ↦ some (b ∷ h, t)
  | none ↦ if b == c then some ([], s) else none
]

-- `str::contains`
unfoldable pub contains : Str → Str → Bool
unfolding find_subslice
contains s needle = is_some (find_subslice s needle)

-- `u8::to_ascii_lowercase`
abbrev pub lower : ℕ → ℕ
lower b = if leb b'A' b && leb b b'Z' then b + 32 else b

-- `str::to_ascii_lowercase`
unfoldable pub to_ascii_lowercase : Str → Str
to_ascii_lowercase s = map lower s

-- `str::eq_ignore_ascii_case`
unfoldable pub eq_ignore_ascii_case : Str → Str → Bool
unfolding eq_str to_ascii_lowercase
eq_ignore_ascii_case s t = eq_str (to_ascii_lowercase s) (to_ascii_lowercase t)

abbrev prepend : ℕ → List Str → List Str
prepend b [] = (b ∷ []) ∷ []
prepend b (l ∷ ls) = (b ∷ l) ∷ ls

-- `str::split("\r\n")`
unfoldable pub split_crlf : Str → List Str
split_crlf [] = [] ∷ []
split_crlf (a ∷ []) = (a ∷ []) ∷ []
split_crlf (a ∷ b ∷ s) = elim (a == 13 && b == 10) [
  | true ↦ [] ∷ split_crlf s
  | false ↦ prepend a (split_crlf (b ∷ s))
]

abbrev push : Str → List Str → List Str
push [] ws = ws
push (b ∷ w) ws = (b ∷ w) ∷ ws

-- The words of a text, after `skip` bytes of a white-space character and the bytes of a word.
words : ℕ → Str → Str → List Str
unfolding white_prefix
words skip word [] = push word []
words (suc skip) word (b ∷ s) = words skip word s
words zero word (b ∷ s) = elim (white_prefix (b ∷ s)) [
  | zero ↦ words 0 (word ++ b ∷ []) s
  | suc skip ↦ push word (words skip [] s)
]

-- `str::split_whitespace`
unfoldable pub split_whitespace : Str → List Str
unfolding words
split_whitespace s = words 0 [] s

-- The first part of `str::split` at a byte.
unfoldable pub before : ℕ → Str → Str
before c [] = []
before c (b ∷ s) = let rest = before c s in if b == c then [] else b ∷ rest

pub take-append : (n : ℕ) (s t : Str) → n ≤ length s → take n (s ++ t) ≡ take n s
take-append zero s t h = refl
take-append (suc n) [] t h = absurd (omega arith)
take-append (suc n) (b ∷ s) t h = ap (λ l. b ∷ l) (take-append n s t (omega arith))

pub drop-append : (n : ℕ) (s t : Str) → n ≤ length s → drop n (s ++ t) ≡ drop n s ++ t
drop-append zero s t h = refl
drop-append (suc n) [] t h = absurd (omega arith)
drop-append (suc n) (b ∷ s) t h = drop-append n s t (omega arith)

pub take-length : (s t : Str) → take (length s) (s ++ t) ≡ s
take-length [] t = refl
take-length (b ∷ s) t = ap (λ l. b ∷ l) (take-length s t)

pub drop-length : (s t : Str) → drop (length s) (s ++ t) ≡ t
drop-length [] t = refl
drop-length (b ∷ s) t = drop-length s t

length-take_≤ : (n : ℕ) (s : Str) → length (take n s) ≤ length s
length-take_≤ zero s = omega arith
length-take_≤ (suc n) [] = omega arith
length-take_≤ (suc n) (b ∷ s) = omega (arith, length-take_≤ n s)

starts_with_≤ : (s needle : Str) → starts_with s needle ≡ true → length needle ≤ length s
unfolding starts_with
starts_with_≤ s needle h =
    let e = ap (λ l. length l) (eq_str→eq (take (length needle) s) needle h) in
    omega (arith, e, length-take_≤ (length needle) s)

map_option-eq-some :
    (o : Option ℕ) (i : ℕ) → map_option suc o ≡ some i → (j : ℕ) × (o ≡ some j) × (i ≡ suc j)
map_option-eq-some none i h = cc
map_option-eq-some (some j) i h = (j, refl, cc)

found_cases :
    (here : Bool) (later : Option ℕ) (i : ℕ)
    → (if here then some 0 else map_option suc later) ≡ some i
    → ((here ≡ true) × (i ≡ 0)) ⊎ ((here ≡ false) × (j : ℕ) × (later ≡ some j) × (i ≡ suc j))
found_cases true later i h = inl (refl, cc)
found_cases false later i h =
    let (j, at, next) = map_option-eq-some later i h in inr (refl, j, at, next)

-- A needle that is found lies in the text.
pub find_subslice_≤ :
    (s needle : Str) (i : ℕ) → find_subslice s needle ≡ some i → i + length needle ≤ length s
unfolding find_subslice
find_subslice_≤ [] needle i h = cc
find_subslice_≤ (b ∷ s) needle i h =
    elim (found_cases (starts_with (b ∷ s) needle) (find_subslice s needle) i h) [
      | inl (here, at) ↦ omega (arith, at, starts_with_≤ (b ∷ s) needle here)
      | inr (absent, j, later, at) ↦ omega (arith, find_subslice_≤ s needle j later)
    ]

starts_with-append :
    (s t needle : Str)
    → length needle ≤ length s
    → starts_with (s ++ t) needle ≡ starts_with s needle
unfolding starts_with
starts_with-append s t needle h = ap (λ l. eq_str l needle) (take-append (length needle) s t h)

-- Where a needle is found does not change when the text goes on.
pub find_subslice-append :
    (s t needle : Str) (i : ℕ)
    → find_subslice s needle ≡ some i
    → find_subslice (s ++ t) needle ≡ some i
unfolding find_subslice
find_subslice-append [] t needle i h = cc
find_subslice-append (b ∷ s) t needle i h =
    elim (found_cases (starts_with (b ∷ s) needle) (find_subslice s needle) i h) [
      | inl (here, at) ↦
          rw (starts_with-append (b ∷ s) t needle (starts_with_≤ (b ∷ s) needle here), here, at)
            refl
      | inr (absent, j, later, at) ↦
          let inside : length needle ≤ length (b ∷ s) =
            omega (arith, find_subslice_≤ s needle j later) in
          rw
            (
              starts_with-append (b ∷ s) t needle inside,
              absent,
              find_subslice-append s t needle j later,
              at,
            )
            refl
    ]

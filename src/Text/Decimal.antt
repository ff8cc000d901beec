-- ===== src/Text/Decimal.antt =====
-- Numbers in text: `u64::to_string`, the padded form `{:0w}`, and `str::parse::<u64>`.
use native.Mathlib.Nat.{pow-suc, pow-le-pow_right}
use unidpp_archive.Prelude.{
  ℕ, zero, suc, ◌+◌, ◌-◌, ◌*◌, ◌/◌, ◌%◌, ◌^◌, ◌<◌, ◌≤◌, ◌≡◌, refl, ap, sym, ◌∙◌, Option, none, some,
  List, [], ◌∷◌, ◌++◌, arith, ltb, leb, ◌==◌, ◌&&◌, if◌then◌else◌, ltb→lt, lt→ltb, Bool-cases, inl,
  inr, length, length-append, replicate, append_assoc, All, All-append,
}

-- The decimal digits of a number below 10 ^ fuel, the most significant first.
decimal_digits : ℕ → ℕ → List ℕ
decimal_digits zero n = []
decimal_digits (suc fuel) n =
    let high = decimal_digits fuel (n / 10) in
    if ltb n 10 then (b'0' + n) ∷ [] else high ++ (b'0' + n % 10) ∷ []

-- `u64::to_string`. A `u64` has at most twenty digits.
unfoldable pub to_string : ℕ → List ℕ
unfolding decimal_digits
to_string n = decimal_digits 20 n

-- `{:0w}` of an unsigned number.
unfoldable pub pad_zero : ℕ → ℕ → List ℕ
unfolding to_string
pad_zero w n = replicate (w - length (to_string n)) b'0' ++ to_string n

scan_digits : ℕ → List ℕ → Option ℕ
scan_digits acc [] = some acc
scan_digits acc (c ∷ s) =
    if leb b'0' c && leb c b'9' then scan_digits (acc * 10 + (c - b'0')) s else none

-- The digits without a sign: at least one, and a value that fits 64 bits.
parse_digits : List ℕ → Option ℕ
unfolding scan_digits
parse_digits [] = none
parse_digits (c ∷ s) = elim (scan_digits 0 (c ∷ s)) [
  | none ↦ none
  | some n ↦ if ltb n (2 ^ 64) then some n else none
]

-- `str::parse::<u64>`, which takes one leading `+`. `usize` is 64 bits wide too.
unfoldable pub parse_u64 : List ℕ → Option ℕ
unfolding parse_digits
parse_u64 [] = none
parse_u64 (c ∷ s) = if c == b'+' then parse_digits s else parse_digits (c ∷ s)

abbrev pub IsDigit : ℕ → Type 0
IsDigit c = (b'0' ≤ c) × (c ≤ b'9')

decimal_digits-IsDigit : (f n : ℕ) → All IsDigit (decimal_digits f n)
unfolding decimal_digits
decimal_digits-IsDigit zero n = tt
decimal_digits-IsDigit (suc f) n =
    let last : All IsDigit ((b'0' + n % 10) ∷ []) = omega arith in
    let more : All IsDigit (decimal_digits f (n / 10) ++ (b'0' + n % 10) ∷ []) =
      All-append IsDigit _ _ (decimal_digits-IsDigit f (n / 10)) last in
    ground arith

pub to_string-IsDigit : (n : ℕ) → All IsDigit (to_string n)
unfolding to_string
to_string-IsDigit n = decimal_digits-IsDigit 20 n

scan_digits-snoc :
    (s : List ℕ) (acc n d : ℕ)
    → scan_digits acc s ≡ some n
    → d < 10
    → scan_digits acc (s ++ (b'0' + d) ∷ []) ≡ some (n * 10 + d)
unfolding scan_digits
scan_digits-snoc [] acc n d h lt = ground arith
scan_digits-snoc (c ∷ s) acc n d h lt =
    ground (arith, scan_digits-snoc s (acc * 10 + (c - b'0')) n d)

one_digit : (n : ℕ) → n < 10 → scan_digits 0 ((b'0' + n) ∷ []) ≡ some n
unfolding scan_digits
one_digit n lt = ground arith

scan_digits-decimal_digits :
    (f n : ℕ) → n < 10 ^ suc f → scan_digits 0 (decimal_digits (suc f) n) ≡ some n
unfolding decimal_digits
scan_digits-decimal_digits zero n lt = rw (lt→ltb n 10 lt) (one_digit n lt)
scan_digits-decimal_digits (suc f) n lt = elim (Bool-cases (ltb n 10)) [
  | inl small ↦ rw small (one_digit n (ltb→lt n 10 small))
  | inr large ↦ rw large (
      scan_digits-snoc (decimal_digits (suc f) (n / 10)) 0 (n / 10) (n % 10)
        (scan_digits-decimal_digits f (n / 10) (omega (arith, pow-suc 10 (suc f)))) (omega arith)
      ∙ ap some (omega arith))
]

decimal_digits_pos : (f n : ℕ) → 0 < length (decimal_digits (suc f) n)
unfolding decimal_digits
decimal_digits_pos f n =
    ground (arith, length-append (decimal_digits f (n / 10)) ((b'0' + n % 10) ∷ []))

parse_u64-scan_digits :
    (s : List ℕ) (n : ℕ)
    → All IsDigit s
    → 0 < length s
    → scan_digits 0 s ≡ some n
    → n < 2 ^ 64
    → parse_u64 s ≡ some n
unfolding parse_u64
parse_u64-scan_digits [] n h pos e lt = absurd (omega arith)
parse_u64-scan_digits (c ∷ s) n h pos e lt = ground arith

-- A 64-bit number is read back from its decimal text.
pub parse_u64-to_string : (n : ℕ) → n < 2 ^ 64 → parse_u64 (to_string n) ≡ some n
unfolding to_string
parse_u64-to_string n lt =
    parse_u64-scan_digits (decimal_digits 20 n) n (decimal_digits-IsDigit 20 n)
      (decimal_digits_pos 19 n) (scan_digits-decimal_digits 19 n (omega arith)) lt

pub to_string_injective : (m n : ℕ) → m < 2 ^ 64 → n < 2 ^ 64 → to_string m ≡ to_string n → m ≡ n
to_string_injective m n hm hn e = cc (parse_u64-to_string m hm, parse_u64-to_string n hn)

scan_digits-replicate :
    (k : ℕ) (s : List ℕ) → scan_digits 0 (replicate k b'0' ++ s) ≡ scan_digits 0 s
unfolding scan_digits
scan_digits-replicate zero s = refl
scan_digits-replicate (suc k) s = scan_digits-replicate k s

scan_digits-pad_zero : (w n : ℕ) → n < 2 ^ 64 → scan_digits 0 (pad_zero w n) ≡ some n
unfolding pad_zero
scan_digits-pad_zero w n lt =
    scan_digits-replicate (w - length (decimal_digits 20 n)) (decimal_digits 20 n)
    ∙ scan_digits-decimal_digits 19 n (omega arith)

-- Different numbers have different padded forms, whatever the width.
replicate-IsDigit : (n : ℕ) → All IsDigit (replicate n b'0')
replicate-IsDigit zero = tt
replicate-IsDigit (suc n) = (omega arith, replicate-IsDigit n)

pub pad_zero-IsDigit : (w n : ℕ) → All IsDigit (pad_zero w n)
unfolding pad_zero
pad_zero-IsDigit w n =
    All-append IsDigit (replicate (w - length (to_string n)) b'0') (to_string n)
      (replicate-IsDigit (w - length (to_string n))) (to_string-IsDigit n)

pub pad_zero_injective : (w m n : ℕ) → m < 2 ^ 64 → n < 2 ^ 64 → pad_zero w m ≡ pad_zero w n → m ≡ n
pad_zero_injective w m n hm hn e = cc (scan_digits-pad_zero w m hm, scan_digits-pad_zero w n hn)

-- The last `w` decimal digits of a number.
abbrev pub last_digits : ℕ → ℕ → List ℕ
last_digits zero n = []
last_digits (suc w) n = last_digits w (n / 10) ++ (b'0' + n % 10) ∷ []

abbrev pad_to : ℕ → List ℕ → List ℕ
pad_to w s = replicate (w - length s) b'0' ++ s

replicate-snoc : (k : ℕ) → replicate {A = ℕ} (suc k) b'0' ≡ replicate k b'0' ++ b'0' ∷ []
replicate-snoc zero = refl
replicate-snoc (suc k) = ap (λ s. b'0' ∷ s) (replicate-snoc k)

last_digits-zero : (w : ℕ) → last_digits w 0 ≡ replicate {A = ℕ} w b'0'
last_digits-zero zero = refl
last_digits-zero (suc w) = rw (last_digits-zero w) (sym (replicate-snoc w))

pad_to-snoc : (w d : ℕ) (s : List ℕ) → pad_to (suc w) (s ++ d ∷ []) ≡ pad_to w s ++ d ∷ []
pad_to-snoc w d s =
    let count : suc w - length (s ++ d ∷ []) ≡ w - length s =
      omega (arith, length-append s (d ∷ [])) in
    rw count (sym (append_assoc (replicate (w - length s) b'0') s (d ∷ [])))

pad_to-small : (w n : ℕ) → n < 10 → pad_to (suc w) ((b'0' + n) ∷ []) ≡ last_digits (suc w) n
pad_to-small w n lt =
    let high : n / 10 ≡ 0 = omega arith in
    let low : n % 10 ≡ n = omega arith in
    let count : suc w - 1 ≡ w = omega arith in
    rw (high, low, last_digits-zero w) (ap (λ k. replicate k b'0' ++ (b'0' + n) ∷ []) count)

pad_to-decimal_digits :
    (w f n : ℕ)
    → n < 10 ^ suc w
    → n < 10 ^ suc f
    → pad_to (suc w) (decimal_digits (suc f) n) ≡ last_digits (suc w) n
unfolding decimal_digits
pad_to-decimal_digits zero f n hw hf = rw (lt→ltb n 10 hw) (pad_to-small 0 n hw)
pad_to-decimal_digits (suc w) zero n hw hf = rw (lt→ltb n 10 hf) (pad_to-small (suc w) n hf)
pad_to-decimal_digits (suc w) (suc f) n hw hf = elim (Bool-cases (ltb n 10)) [
  | inl small ↦ rw small (pad_to-small (suc w) n (ltb→lt n 10 small))
  | inr large ↦ rw large (
      pad_to-snoc (suc w) (b'0' + n % 10) (decimal_digits (suc f) (n / 10))
      ∙ ap (λ s. s ++ (b'0' + n % 10) ∷ [])
          (pad_to-decimal_digits w f (n / 10) (omega (arith, pow-suc 10 (suc w)))
            (omega (arith, pow-suc 10 (suc f)))))
]

below : (w n : ℕ) → w < 20 → n < 10 ^ suc w → n < 10 ^ 20
below w n hw lt =
    omega (arith, pow-le-pow_right {n = 10} (omega arith) {i = suc w} {j = 20} (omega arith))

-- A number that fits the width is padded to its last `w` digits.
pub pad_zero-last_digits :
    (w n : ℕ) → w < 20 → n < 10 ^ suc w → pad_zero (suc w) n ≡ last_digits (suc w) n
unfolding pad_zero
pad_zero-last_digits w n hw lt = pad_to-decimal_digits w 19 n lt (below w n hw lt)

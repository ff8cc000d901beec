-- ===== src/Http/Chunked/Steps.antt =====
-- One round of the decoding of a chunked body: where it ends.
use unidpp_archive.Prelude.{
  ℕ, zero, suc, ◌+◌, ◌≤◌, ◌<◌, ◌≡◌, refl, sym, ap, Option, none, some, ◌⊎◌, inl, inr, [], ◌∷◌, ◌++◌,
  arith, length, take, drop, ltb, leb, false, ◌^◌,
}
use unidpp_archive.Result.{
  Result, ok, err, >>=-eq-ok, >>-eq-ok, fail_if, ok_or, ok_injective, some_injective, fail_if-ok,
}
use unidpp_archive.Text.{Str}
use unidpp_archive.Text.Search.{find_subslice, find_subslice_≤}
use unidpp_archive.Http.Chunked.{
  Fault, panicked, crlf, chunk_size, size_line, chunk_data, chunk_at, decode_rounds,
}

pub ok_or-eq-ok : {A : Type 0} (o : Option A) (e : Fault) (a : A) → ok_or o e ≡ ok a → o ≡ some a
ok_or-eq-ok none e a h = cc
ok_or-eq-ok (some b) e a h = ap some (ok_injective h)

pub err_injective : {A : Type 0} {a b : Fault} → Path (Result Fault A) (err a) (err b) → a ≡ b
err_injective h = cc

pub length-drop : (n : ℕ) (s : Str) → n ≤ length s → n + length (drop n s) ≡ length s
length-drop zero s h = omega arith
length-drop (suc n) [] h = absurd (omega arith)
length-drop (suc n) (b ∷ s) h = omega (arith, length-drop n s)

-- A size line that is read lies in the text.
pub size_line_≤ :
    (raw : Str) (pos size next : ℕ)
    → pos ≤ length raw
    → size_line raw pos ≡ ok (size, next)
    → (pos + 2 ≤ next) × (next ≤ length raw)
unfolding size_line
size_line_≤ raw pos size next inside h =
    let (found, at, rest) = >>=-eq-ok (ok_or (find_subslice (drop pos raw) crlf) _) _ h in
    let (given, size_is, last) = >>=-eq-ok (chunk_size (take found (drop pos raw))) _ rest in
    let next_is : found + pos + 2 ≡ next = ap (λ (p : ℕ × ℕ). p.1) (ok_injective last) in
    let bound = find_subslice_≤ (drop pos raw) crlf found (ok_or-eq-ok _ _ found at) in
    omega (arith, next_is, bound, length-drop pos raw inside)

-- What the data of a chunk needs to be there.
pub data_fits :
    (raw : Str) (n pos : ℕ) (piece : Str) (next : ℕ)
    → chunk_data raw (suc n, pos) ≡ ok (some (piece, next))
    → (leb (2 ^ 64) (pos + suc n) ≡ false)
      × (pos + suc n + 2 ≤ length raw)
      × (take (suc n) (drop pos raw) ≡ piece)
      × (pos + suc n + 2 ≡ next)
unfolding chunk_data
data_fits raw n pos piece next h =
    let (small, rest) = >>-eq-ok (fail_if (leb (2 ^ 64) (pos + suc n)) panicked) _ h in
    let (held, rest') = >>-eq-ok (fail_if (ltb (length raw) (pos + suc n)) _) _ rest in
    let (ended, last) = >>-eq-ok (fail_if (ltb (length raw) (pos + suc n + 2)) _) _ rest' in
    let short = fail_if-ok (ltb (length raw) (pos + suc n + 2)) _ ended in
    let pair : Path (Str × ℕ) (take (suc n) (drop pos raw), pos + suc n + 2) (piece, next) =
      some_injective (ok_injective last) in
    (
      fail_if-ok (leb (2 ^ 64) (pos + suc n)) panicked small,
      ground (arith, short),
      ap (λ (p : Str × ℕ). p.0) pair,
      ap (λ (p : Str × ℕ). p.1) pair,
    )

last_chunk : {a : Str × ℕ} → Path (Option (Str × ℕ)) none (some a) → ⊥
last_chunk h = cc

chunk_data_≤ :
    (raw : Str) (line : ℕ × ℕ) (piece : Str) (next : ℕ)
    → chunk_data raw line ≡ ok (some (piece, next))
    → (line.1 ≤ next) × (next ≤ length raw)
unfolding chunk_data
chunk_data_≤ raw (zero, pos) piece next h = absurd (last_chunk (ok_injective h))
chunk_data_≤ raw (suc n, pos) piece next h =
    let (small, inside, piece_is, next_is) = data_fits raw n pos piece next h in
    omega (arith, next_is)

-- A chunk with data is not the last.
pub data_goes_on : (raw : Str) (n pos : ℕ) → chunk_data raw (suc n, pos) ≡ ok none → ⊥
unfolding chunk_data
data_goes_on raw n pos h =
    let (small, rest) = >>-eq-ok (fail_if (leb (2 ^ 64) (pos + suc n)) panicked) _ h in
    let (held, rest') = >>-eq-ok (fail_if (ltb (length raw) (pos + suc n)) _) _ rest in
    let (ended, last) = >>-eq-ok (fail_if (ltb (length raw) (pos + suc n + 2)) _) _ rest' in
    last_chunk (sym (ok_injective last))

-- A round moves on, and stays in the text.
pub chunk_at_≤ :
    (raw : Str) (pos : ℕ) (piece : Str) (next : ℕ)
    → pos ≤ length raw
    → chunk_at raw pos ≡ ok (some (piece, next))
    → (pos < next) × (next ≤ length raw)
unfolding chunk_at
chunk_at_≤ raw pos piece next inside h =
    let (line, line_is, rest) = >>=-eq-ok (size_line raw pos) (chunk_data raw) h in
    let (after, within) = size_line_≤ raw pos line.0 line.1 inside line_is in
    let (more, last) = chunk_data_≤ raw line piece next rest in omega (arith, after, more, last)

-- The three answers of a round.
pub round_cases :
    (answer : Result Fault (Option (Str × ℕ)))
    → ((fault : Fault) × (answer ≡ err fault))
      ⊎ (answer ≡ ok none)
      ⊎ ((piece : Str) × (next : ℕ) × (answer ≡ ok (some (piece, next))))
round_cases (err fault) = inl (fault, refl)
round_cases (ok none) = inr (inl refl)
round_cases (ok (some (piece, next))) = inr (inr (piece, next, refl))

pub rounds-fault :
    (fuel : ℕ) (raw : Str) (pos : ℕ) (out : Str) (fault : Fault)
    → chunk_at raw pos ≡ err fault
    → decode_rounds (suc fuel) raw pos out ≡ err fault
unfolding decode_rounds
rounds-fault fuel raw pos out fault h = rw (h, decode_rounds) refl

pub rounds-last :
    (fuel : ℕ) (raw : Str) (pos : ℕ) (out : Str)
    → chunk_at raw pos ≡ ok none
    → decode_rounds (suc fuel) raw pos out ≡ ok out
unfolding decode_rounds
rounds-last fuel raw pos out h = rw (h, decode_rounds) refl

pub rounds-more :
    (fuel : ℕ) (raw : Str) (pos : ℕ) (out piece : Str) (next : ℕ)
    → chunk_at raw pos ≡ ok (some (piece, next))
    → decode_rounds (suc fuel) raw pos out ≡ decode_rounds fuel raw next (out ++ piece)
unfolding decode_rounds
rounds-more fuel raw pos out piece next h = rw (h, decode_rounds) refl

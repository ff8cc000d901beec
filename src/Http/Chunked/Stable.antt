-- ===== src/Http/Chunked/Stable.antt =====
-- The decoding of a chunked body when more bytes arrive.
use unidpp_archive.Prelude.{
  ℕ, zero, suc, ◌+◌, ◌≤◌, ◌≡◌, ◌≢◌, refl, sym, ap, ◌∙◌, Option, none, some, inl, inr, [], ◌++◌,
  arith, length, length-append, take, drop, ltb, false, subst,
}
use unidpp_archive.Result.{Result, ok, err, ◌>>=◌, >>=-eq-ok, ok_or}
use unidpp_archive.Text.{Str}
use unidpp_archive.Text.Search.{
  find_subslice, find_subslice_≤, find_subslice-append, take-append, drop-append,
}
use unidpp_archive.Http.Chunked.Steps.{
  ok_or-eq-ok, data_goes_on, data_fits, chunk_at_≤, size_line_≤, length-drop, round_cases,
  rounds-fault, rounds-last, rounds-more, err_injective,
}
use unidpp_archive.Http.Chunked.Faults.{data_overflows, message-panicked, size_line-silent}
use unidpp_archive.Http.Chunked.Rounds.{rounds_stop}
use unidpp_archive.Http.Chunked.{
  Fault, message, panicked, out_of_fuel, crlf, size_line, chunk_data, chunk_at, decode_rounds,
  decode_chunked_body,
}

-- A round that answers gives the same when the text goes on.
size_line-append :
    (raw more : Str) (pos : ℕ) (line : ℕ × ℕ)
    → pos ≤ length raw
    → size_line raw pos ≡ ok line
    → size_line (raw ++ more) pos ≡ ok line
unfolding size_line
size_line-append raw more pos line inside h =
    let (found, at, rest) = >>=-eq-ok (ok_or (find_subslice (drop pos raw) crlf) _) _ h in
    let here = ok_or-eq-ok (find_subslice (drop pos raw) crlf) _ found at in
    let bound = find_subslice_≤ (drop pos raw) crlf found here in
    rw
      (
        drop-append pos raw more inside,
        find_subslice-append (drop pos raw) more crlf found here,
        take-append found (drop pos raw) more (omega (arith, bound)),
      )
      rest

chunk_data-append :
    (raw more : Str) (line : ℕ × ℕ) (c : Option (Str × ℕ))
    → line.1 ≤ length raw
    → chunk_data raw line ≡ ok c
    → chunk_data (raw ++ more) line ≡ ok c
unfolding chunk_data
chunk_data-append raw more (zero, pos) c inside h = h
chunk_data-append raw more (suc n, pos) none inside h = absurd (data_goes_on raw n pos h)
chunk_data-append raw more (suc n, pos) (some (piece, next)) inside h =
    let (small, fits, piece_is, next_is) = data_fits raw n pos piece next h in
    let long : pos + suc n + 2 ≤ length (raw ++ more) =
      omega (arith, fits, length-append raw more) in
    let held : ltb (length (raw ++ more)) (pos + suc n) ≡ false = ground (arith, long) in
    let ended : ltb (length (raw ++ more)) (pos + suc n + 2) ≡ false = ground (arith, long) in
    let start : take (suc n) (drop pos raw ++ more) ≡ take (suc n) (drop pos raw) =
      take-append (suc n) (drop pos raw) more (omega (arith, fits, length-drop pos raw inside)) in
    rw (small, held, ended, drop-append pos raw more inside, start, piece_is, next_is) refl

chunk_data-overflow :
    (raw more : Str) (line : ℕ × ℕ)
    → chunk_data raw line ≡ err panicked
    → chunk_data (raw ++ more) line ≡ err panicked
unfolding chunk_data
chunk_data-overflow raw more (zero, pos) h = h
chunk_data-overflow raw more (suc n, pos) h = rw (data_overflows raw n pos h) refl

chunk_at-append :
    (raw more : Str) (pos : ℕ) (c : Option (Str × ℕ))
    → pos ≤ length raw
    → chunk_at raw pos ≡ ok c
    → chunk_at (raw ++ more) pos ≡ ok c
unfolding chunk_at
chunk_at-append raw more pos c inside h =
    let (line, line_is, rest) = >>=-eq-ok (size_line raw pos) (chunk_data raw) h in
    let (after, within) = size_line_≤ raw pos line.0 line.1 inside line_is in
    rw (size_line-append raw more pos line inside line_is)
      (chunk_data-append raw more line c within rest)

overflow_cases :
    (raw more : Str) (pos : ℕ) (read : Result Fault (ℕ × ℕ))
    → read ≢ err panicked
    → (read >>= chunk_data raw) ≡ err panicked
    → (line : ℕ × ℕ) × (read ≡ ok line) × (chunk_data raw line ≡ err panicked)
overflow_cases raw more pos (err fault) never h = absurd (never (ap err (err_injective h)))
overflow_cases raw more pos (ok line) never h = (line, refl, h)

chunk_at-overflow :
    (raw more : Str) (pos : ℕ)
    → pos ≤ length raw
    → chunk_at raw pos ≡ err panicked
    → chunk_at (raw ++ more) pos ≡ err panicked
unfolding chunk_at
chunk_at-overflow raw more pos inside h =
    let (line, line_is, rest) =
      overflow_cases raw more pos (size_line raw pos)
        (size_line-silent panicked message-panicked raw pos) h in
    rw (size_line-append raw more pos line inside line_is) (chunk_data-overflow raw more line rest)

-- An answer after which no more is read.
abbrev pub IsFinal : Result Fault Str → Type 0
IsFinal (ok out) = Unit
IsFinal (err (message s)) = ⊥
IsFinal (err panicked) = Unit
IsFinal (err out_of_fuel) = ⊥

fault_final :
    (raw more : Str) (pos : ℕ) (fault : Fault)
    → pos ≤ length raw
    → IsFinal (err fault)
    → chunk_at raw pos ≡ err fault
    → chunk_at (raw ++ more) pos ≡ err fault
fault_final raw more pos (message s) inside final h = absurd final
fault_final raw more pos panicked inside final h = chunk_at-overflow raw more pos inside h
fault_final raw more pos out_of_fuel inside final h = absurd final

rounds-append :
    (fuel : ℕ) (raw more : Str) (pos : ℕ) (out : Str)
    → pos ≤ length raw
    → IsFinal (decode_rounds fuel raw pos out)
    → decode_rounds fuel (raw ++ more) pos out ≡ decode_rounds fuel raw pos out
rounds-append zero raw more pos out inside final = unfold decode_rounds in refl
rounds-append (suc fuel) raw more pos out inside final = elim (round_cases (chunk_at raw pos)) [
  | inl (fault, e) ↦
      let here = rounds-fault fuel raw pos out fault e in
      rounds-fault fuel (raw ++ more) pos out fault
        (fault_final raw more pos fault inside (subst IsFinal here final) e)
      ∙ sym here
  | inr (inl e) ↦
      rounds-last fuel (raw ++ more) pos out (chunk_at-append raw more pos none inside e)
      ∙ sym (rounds-last fuel raw pos out e)
  | inr (inr (piece, next, e)) ↦
      let here = rounds-more fuel raw pos out piece next e in
      let (after, within) = chunk_at_≤ raw pos piece next inside e in
      rounds-more fuel (raw ++ more) pos out piece next
        (chunk_at-append raw more pos (some (piece, next)) inside e)
      ∙ rounds-append fuel raw more next (out ++ piece) within (subst IsFinal here final)
      ∙ sym here
]

not_out_of_fuel : (answer : Result Fault Str) → IsFinal answer → answer ≢ err out_of_fuel
not_out_of_fuel (ok out) final h = cc
not_out_of_fuel (err (message s)) final h = final
not_out_of_fuel (err panicked) final h = cc
not_out_of_fuel (err out_of_fuel) final h = final

-- What is decoded, or that the size overflows, stays when more bytes arrive.
pub decode_chunked_body-append :
    (raw more : Str)
    → IsFinal (decode_chunked_body raw)
    → decode_chunked_body (raw ++ more) ≡ decode_chunked_body raw
unfolding decode_chunked_body
decode_chunked_body-append raw more final =
    let same = rounds-append (suc (length raw)) raw more 0 [] (omega arith) final in
    let count : suc (length (raw ++ more)) ≡ suc (length raw) + length more =
      omega (arith, length-append raw more) in
    rw count (
      rounds_stop (suc (length raw)) (length more) (raw ++ more) 0 []
        (λ e. not_out_of_fuel (decode_rounds (suc (length raw)) raw 0 []) final (sym same ∙ e))
      ∙ same)

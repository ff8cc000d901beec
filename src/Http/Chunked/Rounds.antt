-- ===== src/Http/Chunked/Rounds.antt =====
-- The rounds of the decoding of a chunked body, and how many are enough.
use unidpp_archive.Prelude.{
  ℕ, zero, suc, ◌+◌, ◌≤◌, ◌<◌, ◌≡◌, ◌≢◌, refl, sym, ap, ◌∙◌, inl, inr, [], ◌++◌, arith, length,
}
use unidpp_archive.Result.{err}
use unidpp_archive.Text.{Str}
use unidpp_archive.Http.Chunked.{out_of_fuel, chunk_at, decode_rounds, decode_chunked_body}
use unidpp_archive.Http.Chunked.Steps.{
  err_injective, chunk_at_≤, round_cases, rounds-fault, rounds-last, rounds-more,
}
use unidpp_archive.Http.Chunked.Faults.{chunk_at-fuel}

pub rounds_end :
    (fuel : ℕ) (raw : Str) (pos : ℕ) (out : Str)
    → pos ≤ length raw
    → length raw < fuel + pos
    → decode_rounds fuel raw pos out ≢ err out_of_fuel
rounds_end zero raw pos out inside enough h = absurd (omega arith)
rounds_end (suc fuel) raw pos out inside enough h = elim (round_cases (chunk_at raw pos)) [
  | inl (fault, e) ↦
      let over : fault ≡ out_of_fuel =
        err_injective (sym (rounds-fault fuel raw pos out fault e) ∙ h) in
      chunk_at-fuel raw pos (e ∙ ap err over)
  | inr (inl e) ↦ cc (sym (rounds-last fuel raw pos out e) ∙ h)
  | inr (inr (piece, next, e)) ↦
      let (after, within) = chunk_at_≤ raw pos piece next inside e in
      rounds_end fuel raw next (out ++ piece) within (omega (arith, after, enough))
        (sym (rounds-more fuel raw pos out piece next e) ∙ h)
]

-- More rounds change nothing.
pub rounds_stop :
    (fuel more : ℕ) (raw : Str) (pos : ℕ) (out : Str)
    → decode_rounds fuel raw pos out ≢ err out_of_fuel
    → decode_rounds (fuel + more) raw pos out ≡ decode_rounds fuel raw pos out
rounds_stop zero more raw pos out h = absurd (h (unfold decode_rounds in refl))
rounds_stop (suc fuel) more raw pos out h =
    let e : suc fuel + more ≡ suc (fuel + more) = omega arith in
    rw e (elim (round_cases (chunk_at raw pos)) [
      | inl (fault, e) ↦
          rounds-fault (fuel + more) raw pos out fault e
          ∙ sym (rounds-fault fuel raw pos out fault e)
      | inr (inl e) ↦ rounds-last (fuel + more) raw pos out e ∙ sym (rounds-last fuel raw pos out e)
      | inr (inr (piece, next, e)) ↦
          rounds-more (fuel + more) raw pos out piece next e
          ∙ rounds_stop fuel more raw next (out ++ piece)
              (λ g. h (rounds-more fuel raw pos out piece next e ∙ g))
          ∙ sym (rounds-more fuel raw pos out piece next e)
    ])

-- Decoding a body ends: the rounds that it is given are enough, whatever the bytes.
pub decode_chunked_body-end : (raw : Str) → decode_chunked_body raw ≢ err out_of_fuel
unfolding decode_chunked_body
decode_chunked_body-end raw = rounds_end (suc (length raw)) raw 0 [] (omega arith) (omega arith)

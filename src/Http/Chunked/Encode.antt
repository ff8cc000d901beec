-- ===== src/Http/Chunked/Encode.antt =====
-- A sender of chunked bodies, for `decode_chunked_body` of src/http.rs.
use unidpp_archive.Prelude.{
  ℕ, zero, suc, ◌+◌, ◌^◌, ◌≤◌, ◌<◌, ◌≡◌, refl, sym, ap, ◌∙◌, false, none, some, List, [], ◌∷◌, ◌++◌,
  arith, length, length-append, drop, ltb, leb, All, append_assoc, append-nil,
}
use unidpp_archive.Result.{ok}
use unidpp_archive.Text.{Str, eq_str, trim}
use unidpp_archive.Text.Lines.{is_utf8}
use unidpp_archive.Text.Search.{find_subslice, starts_with, before, take-length, drop-length}
use unidpp_archive.Http.Chunked.{
  from_str_radix, chunk_size, size_line, chunk_data, chunk_at, decode_rounds, decode_chunked_body,
}
use unidpp_archive.Http.Chunked.Steps.{length-drop, rounds-last, rounds-more}
use unidpp_archive.Http.Chunked.Digits.{
  hex_digits, hex_digits-IsSizeByte, find_crlf, chunk_size-hex_digits,
}

-- A chunk, and what follows it. A length of 64 bits has at most sixteen digits.
abbrev pub encode_chunk : Str → Str → Str
encode_chunk piece rest = hex_digits 16 (length piece) ++ 13 ∷ 10 ∷ (piece ++ 13 ∷ 10 ∷ rest)

-- A body in chunks, with the last chunk and no trailers.
abbrev pub encode_chunks : List Str → Str
encode_chunks [] = b'0' ∷ 13 ∷ 10 ∷ 13 ∷ 10 ∷ []
encode_chunks (piece ∷ pieces) = encode_chunk piece (encode_chunks pieces)

drop_nil : (n : ℕ) → drop {A = ℕ} n [] ≡ []
drop_nil zero = refl
drop_nil (suc n) = refl

drop-drop : (m n : ℕ) (s : Str) → drop (m + n) s ≡ drop n (drop m s)
drop-drop zero n s = ap (λ k. drop k s) (omega arith)
drop-drop (suc m) n [] = let e : suc m + n ≡ suc (m + n) = omega arith in rw e (sym (drop_nil n))
drop-drop (suc m) n (b ∷ s) =
    let e : suc m + n ≡ suc (m + n) = omega arith in rw e (drop-drop m n s)

size_line-encode :
    (raw piece rest : Str) (pos : ℕ)
    → drop pos raw ≡ encode_chunk piece rest
    → length piece < 2 ^ 64
    → size_line raw pos ≡ ok (length piece, length (hex_digits 16 (length piece)) + pos + 2)
unfolding size_line
size_line-encode raw piece rest pos h lt =
    let digits = hex_digits 16 (length piece) in
    let more = piece ++ 13 ∷ 10 ∷ rest in
    rw
      (
        h,
        find_crlf digits more (hex_digits-IsSizeByte 16 (length piece)),
        take-length digits (13 ∷ 10 ∷ more),
        chunk_size-hex_digits (length piece) lt,
      )
      refl

-- What is left after the size line, and after the data and its end.
after_size_line :
    (raw piece rest : Str) (pos : ℕ)
    → drop pos raw ≡ encode_chunk piece rest
    → drop (length (hex_digits 16 (length piece)) + pos + 2) raw ≡ piece ++ 13 ∷ 10 ∷ rest
after_size_line raw piece rest pos h =
    let digits = hex_digits 16 (length piece) in
    let count : length digits + pos + 2 ≡ pos + (length digits + 2) = omega arith in
    ap (λ k. drop k raw) count
    ∙ drop-drop pos (length digits + 2) raw
    ∙ ap (drop (length digits + 2)) h
    ∙ drop-drop (length digits) 2 (digits ++ 13 ∷ 10 ∷ (piece ++ 13 ∷ 10 ∷ rest))
    ∙ ap (drop 2) (drop-length digits (13 ∷ 10 ∷ (piece ++ 13 ∷ 10 ∷ rest)))

after_data :
    (raw piece rest : Str) (at : ℕ)
    → drop at raw ≡ piece ++ 13 ∷ 10 ∷ rest
    → drop (at + length piece + 2) raw ≡ rest
after_data raw piece rest at h =
    drop-drop (at + length piece) 2 raw
    ∙ ap (drop 2) (
        drop-drop at (length piece) raw
        ∙ ap (drop (length piece)) h
        ∙ drop-length piece (13 ∷ 10 ∷ rest))

chunk_data-encode :
    (raw piece rest : Str) (at : ℕ)
    → 0 < length piece
    → at ≤ length raw
    → length raw < 2 ^ 64
    → drop at raw ≡ piece ++ 13 ∷ 10 ∷ rest
    → chunk_data raw (length piece, at) ≡ ok (some (piece, at + length piece + 2))
unfolding chunk_data
chunk_data-encode raw [] rest at some_data inside room h = absurd (omega arith)
chunk_data-encode raw (b ∷ piece) rest at some_data inside room h =
    let all = length-drop at raw inside in
    let size = ap (λ l. length l) h in
    let parts = length-append (b ∷ piece) (13 ∷ 10 ∷ rest) in
    let fits : at + suc (length piece) + 2 ≤ length raw = omega (arith, all, size, parts) in
    let small : leb (2 ^ 64) (at + suc (length piece)) ≡ false = ground (arith, fits, room) in
    let held : ltb (length raw) (at + suc (length piece)) ≡ false = ground (arith, fits) in
    let ended : ltb (length raw) (at + suc (length piece) + 2) ≡ false = ground (arith, fits) in
    rw (small, held, ended, h, take-length piece (13 ∷ 10 ∷ rest)) refl

abbrev pub joined : List Str → Str
joined [] = []
joined (piece ∷ pieces) = piece ++ joined pieces

abbrev pub IsChunk : Str → Type 0
IsChunk piece = 0 < length piece

-- The position after a chunk that stands at a position is in the text.
chunk_inside :
    (raw piece rest : Str) (pos : ℕ)
    → pos ≤ length raw
    → drop pos raw ≡ encode_chunk piece rest
    → length (hex_digits 16 (length piece)) + pos + 2 + length piece + 2 ≤ length raw
chunk_inside raw piece rest pos inside h =
    let digits = hex_digits 16 (length piece) in
    let all = length-drop pos raw inside in
    let size = ap (λ l. length l) h in
    let outer = length-append digits (13 ∷ 10 ∷ (piece ++ 13 ∷ 10 ∷ rest)) in
    let inner = length-append piece (13 ∷ 10 ∷ rest) in omega (arith, all, size, outer, inner)

chunk_at-encode :
    (raw piece rest : Str) (pos : ℕ)
    → IsChunk piece
    → pos ≤ length raw
    → length raw < 2 ^ 64
    → drop pos raw ≡ encode_chunk piece rest
    → chunk_at raw pos
      ≡ ok (some (piece, length (hex_digits 16 (length piece)) + pos + 2 + length piece + 2))
unfolding chunk_at
chunk_at-encode raw piece rest pos some_data inside room h =
    let at = length (hex_digits 16 (length piece)) + pos + 2 in
    let within = chunk_inside raw piece rest pos inside h in
    rw (size_line-encode raw piece rest pos h (omega (arith, within, room))) (
      chunk_data-encode raw piece rest at some_data (omega (arith, within)) room
        (after_size_line raw piece rest pos h))

last_chunk : (raw : Str) (pos : ℕ) → drop pos raw ≡ encode_chunks [] → chunk_at raw pos ≡ ok none
unfolding chunk_at size_line chunk_data chunk_size find_subslice starts_with eq_str is_utf8 trim
    before from_str_radix
last_chunk raw pos h = rw h refl

rounds-encode :
    (pieces : List Str) (fuel : ℕ) (raw : Str) (pos : ℕ) (out : Str)
    → All IsChunk pieces
    → pos ≤ length raw
    → length raw < 2 ^ 64
    → length raw < fuel + pos
    → drop pos raw ≡ encode_chunks pieces
    → decode_rounds fuel raw pos out ≡ ok (out ++ joined pieces)
rounds-encode pieces zero raw pos out some_data inside room enough h = absurd (omega arith)
rounds-encode [] (suc fuel) raw pos out some_data inside room enough h =
    rounds-last fuel raw pos out (last_chunk raw pos h) ∙ ap ok (sym (append-nil out))
rounds-encode (piece ∷ pieces) (suc fuel) raw pos out some_data inside room enough h =
    let rest = encode_chunks pieces in
    let at = length (hex_digits 16 (length piece)) + pos + 2 in
    let within = chunk_inside raw piece rest pos inside h in
    rounds-more fuel raw pos out piece (at + length piece + 2)
      (chunk_at-encode raw piece rest pos some_data.0 inside room h)
    ∙ rounds-encode pieces fuel raw (at + length piece + 2) (out ++ piece) some_data.1
        (omega (arith, within)) room (omega (arith, within, enough))
        (after_data raw piece rest at (after_size_line raw piece rest pos h))
    ∙ ap ok (append_assoc out piece (joined pieces))

-- A body that is sent in chunks, none of which is empty, is decoded to the chunks' bytes, when the
-- encoded body is shorter than 2 ^ 64 bytes.
pub decode_chunked_body-encode_chunks :
    (pieces : List Str)
    → All IsChunk pieces
    → length (encode_chunks pieces) < 2 ^ 64
    → decode_chunked_body (encode_chunks pieces) ≡ ok (joined pieces)
unfolding decode_chunked_body
decode_chunked_body-encode_chunks pieces some_data room =
    rounds-encode pieces (suc (length (encode_chunks pieces))) (encode_chunks pieces) 0 [] some_data
      (omega arith) room (omega arith) refl

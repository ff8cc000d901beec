-- ===== src/Http/Split.antt =====
-- A response of src/http.rs that is read in pieces, and one that is parsed as a whole.
use unidpp_archive.Prelude.{
  Option-cases, ℕ, ◌+◌, ◌≡◌, refl, sym, ap, ◌∙◌, Option, none, some, List, [], ◌∷◌, ◌++◌, ltb,
  if◌then◌else◌, take, drop, length, All, append_assoc, append-nil, ◌⊎◌, inl, inr, Bool-cases,
  arith, subst,
}
use unidpp_archive.Result.{Result, ok, err, ◌>>=◌, map_err}
use unidpp_archive.Text.{Str, text}
use unidpp_archive.Text.Search.{
  find_subslice, find_subslice_≤, find_subslice-append, take-append, drop-append,
}
use unidpp_archive.Http.Chunked.{Fault, message, panicked, out_of_fuel, decode_chunked_body}
use unidpp_archive.Http.Chunked.Rounds.{decode_chunked_body-end}
use unidpp_archive.Http.Chunked.Stable.{IsFinal, decode_chunked_body-append}
use unidpp_archive.Http.Response.{
  Header, HttpResponse, response, parse_head, is_chunked, content_length,
}
use unidpp_archive.Http.Request.{
  Reads, head_mark, read_head, retry, mid_chunk, read_chunks, read_length, read_rest, read_plain,
  read_body, read_response,
}

-- The body of a response whose bytes are all there.
abbrev pub plain_body : Option ℕ → List ℕ → List ℕ
plain_body none bytes = bytes
plain_body (some len) bytes = take len bytes

unfoldable pub whole_body : List Header → List ℕ → Result Fault (List ℕ)
unfolding is_chunked content_length decode_chunked_body
whole_body headers bytes =
    if is_chunked headers
    then retry (decode_chunked_body bytes) mid_chunk
    else ok (plain_body (content_length headers) bytes)

-- A response that is parsed from all its bytes at once.
whole_from : List ℕ → Option ℕ → Result Fault HttpResponse
unfolding whole_body parse_head text
whole_from raw none = err (message (text "connection closed before headers"))
whole_from raw (some i) = do
  (status, headers) ← map_err message (parse_head (take (i + 4) raw))
  body ← whole_body headers (drop (i + 4) raw)
  ok (response status headers body)

unfoldable pub whole_response : List ℕ → Result Fault HttpResponse
unfolding whole_from find_subslice
whole_response raw = whole_from raw (find_subslice raw head_mark)

-- The bytes of the reads, none of which is empty.
abbrev pub concat : List (List ℕ) → List ℕ
concat [] = []
concat (piece ∷ pieces) = piece ++ concat pieces

abbrev pub IsPiece : List ℕ → Type 0
IsPiece [] = ⊥
IsPiece (b ∷ bytes) = Unit

abbrev pub delivered : List (List ℕ) → Reads
delivered [] = []
delivered (piece ∷ pieces) = ok piece ∷ delivered pieces

-- The bytes that were read with the next piece, and those of the pieces after it.
next_piece :
    (raw piece : List ℕ) (pieces : List (List ℕ))
    → (raw ++ piece) ++ concat pieces ≡ raw ++ concat (piece ∷ pieces)
next_piece raw piece pieces = append_assoc raw piece (concat pieces)

read_rest-delivered :
    (body : List ℕ) (pieces : List (List ℕ))
    → All IsPiece pieces
    → read_rest body (delivered pieces) ≡ ok (body ++ concat pieces)
unfolding read_rest
read_rest-delivered body [] h = ap ok (sym (append-nil body))
read_rest-delivered body ([] ∷ pieces) h = absurd h.0
read_rest-delivered body ((b ∷ bytes) ∷ pieces) h =
    read_rest-delivered (body ++ b ∷ bytes) pieces h.1 ∙ ap ok (next_piece body (b ∷ bytes) pieces)

abbrev truncated : ℕ → Result Fault (List ℕ) → Result Fault (List ℕ)
truncated len answer = answer >>= (λ bytes. ok (take len bytes))

read_length-delivered :
    (len : ℕ) (body : List ℕ) (pieces : List (List ℕ))
    → All IsPiece pieces
    → truncated len (read_length len body (delivered pieces))
      ≡ ok (take len (body ++ concat pieces))
unfolding read_length
read_length-delivered len body [] h = ap (λ b. ok (take len b)) (sym (append-nil body))
read_length-delivered len body ([] ∷ pieces) h = absurd h.0
read_length-delivered len body ((b ∷ bytes) ∷ pieces) h =
    elim (Bool-cases (ltb (length body) len)) [
      | inl short ↦
          rw (short, read_length)
            (read_length-delivered len (body ++ b ∷ bytes) pieces h.1
              ∙ ap (λ l. ok (take len l)) (next_piece body (b ∷ bytes) pieces))
      | inr full ↦
          rw (full, read_length)
            (ap ok
              (sym (take-append len body (concat ((b ∷ bytes) ∷ pieces)) (ground (arith, full)))))
    ]

after_final :
    (body more : List ℕ) (answer : Result Fault Str) (next : Result Fault Str)
    → decode_chunked_body body ≡ answer
    → next ≡ retry (decode_chunked_body (body ++ more)) mid_chunk
    → retry answer next ≡ retry (decode_chunked_body (body ++ more)) mid_chunk
after_final body more (ok out) next e h =
    rw (decode_chunked_body-append body more (subst IsFinal (sym e) tt), e) refl
after_final body more (err (message s)) next e h = h
after_final body more (err panicked) next e h =
    rw (decode_chunked_body-append body more (subst IsFinal (sym e) tt), e) refl
after_final body more (err out_of_fuel) next e h = absurd (decode_chunked_body-end body e)

read_chunks-delivered :
    (body : List ℕ) (pieces : List (List ℕ))
    → All IsPiece pieces
    → read_chunks body (delivered pieces)
      ≡ retry (decode_chunked_body (body ++ concat pieces)) mid_chunk
unfolding read_chunks
read_chunks-delivered body [] h =
    ap (λ b. retry (decode_chunked_body b) mid_chunk) (sym (append-nil body))
read_chunks-delivered body ([] ∷ pieces) h = absurd h.0
read_chunks-delivered body ((b ∷ bytes) ∷ pieces) h =
    after_final body (concat ((b ∷ bytes) ∷ pieces)) (decode_chunked_body body)
      (read_chunks (body ++ b ∷ bytes) (delivered pieces)) refl
      (read_chunks-delivered (body ++ b ∷ bytes) pieces h.1
        ∙ ap (λ l. retry (decode_chunked_body l) mid_chunk) (next_piece body (b ∷ bytes) pieces))

read_plain-delivered :
    (len : Option ℕ) (body : List ℕ) (pieces : List (List ℕ))
    → All IsPiece pieces
    → read_plain len body (delivered pieces) ≡ ok (plain_body len (body ++ concat pieces))
unfolding read_plain
read_plain-delivered none body pieces h = read_rest-delivered body pieces h
read_plain-delivered (some len) body pieces h = read_length-delivered len body pieces h

read_body-delivered :
    (headers : List Header) (body : List ℕ) (pieces : List (List ℕ))
    → All IsPiece pieces
    → read_body headers body (delivered pieces) ≡ whole_body headers (body ++ concat pieces)
unfolding read_body whole_body
read_body-delivered headers body pieces h =
    rw
      (
        read_chunks-delivered body pieces h,
        read_plain-delivered (content_length headers) body pieces h,
      )
      refl

-- What reading a head answers, when all the bytes are `bytes`: that there is no head, or a start of the
-- bytes in which the head ends, and the pieces after it.
abbrev HeadRead : Result Fault (ℕ × List ℕ × Reads) → List ℕ → Type 0
HeadRead answer bytes =
    ((answer ≡ err (message (text "connection closed before headers")))
      × (find_subslice bytes head_mark ≡ none))
    ⊎ ((i : ℕ) × (start : List ℕ) × (rest : List (List ℕ)) × (answer
          ≡ ok (i + 4, start, delivered rest))
        × All IsPiece rest
        × (find_subslice start head_mark ≡ some i)
        × (start ++ concat rest ≡ bytes))

head_read :
    (raw : List ℕ) (pieces : List (List ℕ))
    → All IsPiece pieces
    → find_subslice raw head_mark ≡ none
    → HeadRead (read_head raw (delivered pieces)) (raw ++ concat pieces)
unfolding read_head
head_read raw [] h absent =
    inl (refl, ap (λ l. find_subslice l head_mark) (append-nil raw) ∙ absent)
head_read raw ([] ∷ pieces) h absent = absurd h.0
head_read raw ((b ∷ bytes) ∷ pieces) h absent =
    elim (Option-cases (find_subslice (raw ++ b ∷ bytes) head_mark)) [
      | inl still ↦
          rw (still, read_head)
            (subst (HeadRead (read_head (raw ++ b ∷ bytes) (delivered pieces)))
              (next_piece raw (b ∷ bytes) pieces) (head_read (raw ++ b ∷ bytes) pieces h.1 still))
      | inr (i, found) ↦ inr (
        i,
        raw ++ b ∷ bytes,
        pieces,
        rw (found, read_head) refl,
        h.1,
        found,
        next_piece raw (b ∷ bytes) pieces,
      )
    ]

same_body :
    (head : Result Str (ℕ × List Header)) (bytes : List ℕ) (rest : List (List ℕ))
    → All IsPiece rest
    → (do
      (status, headers) ← map_err message head
      body ← read_body headers bytes (delivered rest)
      ok (response status headers body))
      ≡ (do
        (status, headers) ← map_err message head
        body ← whole_body headers (bytes ++ concat rest)
        ok (response status headers body))
same_body (err e) bytes rest h = refl
same_body (ok (status, headers)) bytes rest h =
    ap (λ (answer : Result Fault (List ℕ)). answer >>= (λ body. ok (response status headers body)))
      (read_body-delivered headers bytes rest h)

-- A response is read from what was read after its head as it is from all the bytes.
after_head :
    (i : ℕ) (start : List ℕ) (rest : List (List ℕ))
    → All IsPiece rest
    → find_subslice start head_mark ≡ some i
    → (do
      (status, headers) ← map_err message (parse_head (take (i + 4) start))
      body ← read_body headers (drop (i + 4) start) (delivered rest)
      ok (response status headers body))
      ≡ whole_from (start ++ concat rest) (some i)
unfolding whole_from
after_head i start rest h found =
    let inside = find_subslice_≤ start head_mark i found in
    rw
      (
        take-append (i + 4) start (concat rest) inside,
        drop-append (i + 4) start (concat rest) inside,
      )
      (same_body (parse_head (take (i + 4) start)) (drop (i + 4) start) rest h)

-- A response does not depend on how its bytes are split into reads, none of which is empty: it is
-- what one parse of all the bytes gives, the errors included.
pub read_response-delivered :
    (pieces : List (List ℕ))
    → All IsPiece pieces
    → read_response (delivered pieces) ≡ whole_response (concat pieces)
unfolding read_response whole_response whole_from
read_response-delivered pieces h = elim (head_read [] pieces h (unfold find_subslice in refl)) [
  | inl (closed, absent) ↦ rw (closed, absent) refl
  | inr (i, start, rest, answer, nonempty, found, all) ↦
      let here = find_subslice-append start (concat rest) head_mark i found in
      rw (answer, sym all, here) (after_head i start rest nonempty found)
]

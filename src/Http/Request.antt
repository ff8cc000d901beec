-- ===== src/Http/Request.antt =====
-- `request` and `json_request` of src/http.rs: what is written to the connection, and the loops that
-- read the response from it.
use unidpp_archive.Prelude.{
  ℕ, ◌+◌, true, false, Option, none, some, List, [], ◌∷◌, ◌++◌, ltb, if◌then◌else◌, take, drop,
  length,
}
use unidpp_archive.Result.{Result, ok, err, ◌>>=◌, map_err}
use unidpp_archive.Text.{Str, text}
use unidpp_archive.Text.Decimal.{to_string}
use unidpp_archive.Text.Search.{find_subslice}
use unidpp_archive.Http.Url.{Url, parse}
use unidpp_archive.Http.Chunked.{Fault, message, panicked, out_of_fuel, crlf, decode_chunked_body}
use unidpp_archive.Http.Response.{
  Header, HttpResponse, response, parse_head, is_chunked, content_length,
}

-- What the calls of `stream.read` give one after the other: bytes, of which there are none at the end
-- of the stream, or the text of an error. After the last of them the peer has closed the connection.
abbrev pub Reads : Type 0
Reads = List (Result Str (List ℕ))

-- A connection to a host and a port: the error of connecting or of writing, or what is read after the
-- bytes of a request are written. The timeout that the source puts around it all is an error here.
abbrev pub Network : Type 0
Network = Str → ℕ → List ℕ → Result Str Reads

-- The end of a head.
abbrev pub head_mark : Str
head_mark = 13 ∷ 10 ∷ 13 ∷ 10 ∷ []

-- The loop that reads until the end of the head: where the head ends, what was read, and the reads
-- that are left.
unfoldable pub read_head : List ℕ → Reads → Result Fault (ℕ × List ℕ × Reads)
unfolding find_subslice text
read_head raw [] = err (message (text "connection closed before headers"))
read_head raw (err e ∷ reads) = err (message e)
read_head raw (ok [] ∷ reads) = err (message (text "connection closed before headers"))
read_head raw (ok (b ∷ bytes) ∷ reads) = elim (find_subslice (raw ++ b ∷ bytes) head_mark) [
  | some i ↦ ok (i + 4, raw ++ b ∷ bytes, reads)
  | none ↦ read_head (raw ++ b ∷ bytes) reads
]

-- Decoding is tried again after an error, and only then.
abbrev pub retry : Result Fault Str → Result Fault Str → Result Fault Str
retry (ok out) next = ok out
retry (err (message e)) next = next
retry (err panicked) next = err panicked
retry (err out_of_fuel) next = err out_of_fuel

abbrev pub mid_chunk : Result Fault Str
mid_chunk = err (message (text "connection closed mid-chunk"))

-- The loop of a chunked body.
unfoldable pub read_chunks : List ℕ → Reads → Result Fault (List ℕ)
unfolding decode_chunked_body text
read_chunks body [] = retry (decode_chunked_body body) mid_chunk
read_chunks body (err e ∷ reads) = retry (decode_chunked_body body) (err (message e))
read_chunks body (ok [] ∷ reads) = retry (decode_chunked_body body) mid_chunk
read_chunks body (ok (b ∷ bytes) ∷ reads) =
    retry (decode_chunked_body body) (read_chunks (body ++ b ∷ bytes) reads)

-- The loop of a body of a known length.
unfoldable pub read_length : ℕ → List ℕ → Reads → Result Fault (List ℕ)
read_length len body [] = ok body
read_length len body (err e ∷ reads) = if ltb (length body) len then err (message e) else ok body
read_length len body (ok [] ∷ reads) = ok body
read_length len body (ok (b ∷ bytes) ∷ reads) = elim (ltb (length body) len) [
  | true ↦ read_length len (body ++ b ∷ bytes) reads
  | false ↦ ok body
]

-- The loop of a body that ends with the stream.
unfoldable pub read_rest : List ℕ → Reads → Result Fault (List ℕ)
read_rest body [] = ok body
read_rest body (err e ∷ reads) = err (message e)
read_rest body (ok [] ∷ reads) = ok body
read_rest body (ok (b ∷ bytes) ∷ reads) = read_rest (body ++ b ∷ bytes) reads

-- The body of a response that is not chunked.
unfoldable pub read_plain : Option ℕ → List ℕ → Reads → Result Fault (List ℕ)
unfolding read_length read_rest
read_plain none body reads = read_rest body reads
read_plain (some len) body reads = do bytes ← read_length len body reads; ok (take len bytes)

unfoldable pub read_body : List Header → List ℕ → Reads → Result Fault (List ℕ)
unfolding read_chunks read_plain is_chunked content_length
read_body headers body reads =
    if is_chunked headers
    then read_chunks body reads
    else read_plain (content_length headers) body reads

unfoldable pub read_response : Reads → Result Fault HttpResponse
unfolding read_head read_body parse_head
read_response reads = do
  (header_end, raw, rest) ← read_head [] reads
  (status, headers) ← map_err message (parse_head (take header_end raw))
  body ← read_body headers (drop header_end raw) rest
  ok (response status headers body)

unfoldable pub header_lines : List Header → Str
unfolding text
header_lines [] = []
header_lines ((k, v) ∷ more) = k ++ text ": " ++ v ++ crlf ++ header_lines more

unfoldable pub length_line : Option (List ℕ) → Str
unfolding text to_string
length_line none = []
length_line (some b) = text "Content-Length: " ++ to_string (length b) ++ crlf

abbrev body_bytes : Option (List ℕ) → List ℕ
body_bytes none = []
body_bytes (some b) = b

-- What is written to the connection.
unfoldable pub request_bytes : Str → Url → List Header → Option (List ℕ) → List ℕ
unfolding text header_lines length_line
request_bytes method url headers body =
    (method
      ++ text " "
      ++ url.path_and_query
      ++ text " HTTP/1.1\r\nHost: "
      ++ url.host
      ++ text "\r\nConnection: close\r\n")
    ++ header_lines headers
    ++ length_line body
    ++ crlf
    ++ body_bytes body

module _ (network : Network) where
  unfoldable pub request : Str → Url → List Header → Option (List ℕ) → Result Fault HttpResponse
  unfolding request_bytes read_response
  request method url headers body = do
    reads ← map_err message (network url.host url.port (request_bytes method url headers body))
    read_response reads

  abbrev pub content_type : Option Str → List Header
  content_type none = []
  content_type (some body) = (text "content-type", text "application/json") ∷ []

  abbrev pub authorization : Option Str → List Header
  authorization none = []
  authorization (some t) = (text "authorization", text "Bearer " ++ t) ∷ []

  unfoldable pub json_request : Str → Str → Option Str → Option Str → Result Fault HttpResponse
  unfolding request parse text
  json_request method url body bearer = do
    target ← map_err message (parse url)
    request method target (content_type body ++ authorization bearer) body

-- ===== src/Http/Response.antt =====
-- Responses of src/http.rs: `HttpResponse`, and the reading of its head.
use unidpp_archive.Prelude.{
  ℕ, ◌≡◌, refl, Bool, false, ◌&&◌, ◌||◌, Option, none, some, List, [], ◌∷◌, ◌++◌, if◌then◌else◌,
  get_elem?,
}
use unidpp_archive.Result.{Result, ok, ◌>>=◌, ok_or, and_then}
use unidpp_archive.Text.{Str, text, trim, is_empty}
use unidpp_archive.Text.Decimal.{parse_u64}
use unidpp_archive.Text.Lossy.{from_utf8_lossy}
use unidpp_archive.Text.Search.{
  split_once, split_crlf, split_whitespace, eq_ignore_ascii_case, to_ascii_lowercase, contains,
}
use unidpp_archive.Http.Url.{parse_u16}

abbrev pub Header : Type 0
Header = Str × Str

pub record HttpResponse : Type 0 where
  pub status : ℕ
  pub headers : List Header
  pub body : List ℕ

abbrev pub response : ℕ → List Header → List ℕ → HttpResponse
response status headers body = record { status = status; headers = headers; body = body }

-- The value of the first header of a name.
unfoldable pub header_of : List Header → Str → Option Str
unfolding eq_ignore_ascii_case
header_of [] name = none
header_of ((k, v) ∷ more) name =
    let later = header_of more name in if eq_ignore_ascii_case k name then some v else later

-- `HttpResponse::header`
unfoldable pub header : HttpResponse → Str → Option Str
unfolding header_of
header r name = header_of r.headers name

-- `HttpResponse::body_string`
unfoldable pub body_string : HttpResponse → Str
unfolding from_utf8_lossy
body_string r = from_utf8_lossy r.body

-- The status of the first line.
unfoldable pub parse_status : Str → Result Str ℕ
unfolding split_whitespace parse_u16 text
parse_status status_line =
    ok_or (and_then (get_elem? (split_whitespace status_line) 1) parse_u16)
      (text "bad status line `" ++ status_line ++ text "`")

-- A line that has no colon is passed over.
unfoldable pub header_line : Str → List Header → List Header
unfolding split_once trim text
header_line line rest =
    if is_empty line
    then rest
    else elim (split_once line (text ":")) [ some (k, v) ↦ (trim k, trim v) ∷ rest | none ↦ rest ]

unfoldable pub parse_headers : List Str → List Header
unfolding header_line
parse_headers [] = []
parse_headers (line ∷ lines) = header_line line (parse_headers lines)

-- The status and the headers of a head.
unfoldable pub parse_lines : List Str → Result Str (ℕ × List Header)
unfolding parse_status parse_headers
parse_lines [] = do status ← parse_status []; ok (status, [])
parse_lines (status_line ∷ lines) = do
  status ← parse_status status_line
  ok (status, parse_headers lines)

unfoldable pub parse_head : List ℕ → Result Str (ℕ × List Header)
unfolding parse_lines from_utf8_lossy split_crlf
parse_head raw = parse_lines (split_crlf (from_utf8_lossy raw))

-- Some header says that the body is chunked.
unfoldable pub is_chunked : List Header → Bool
unfolding eq_ignore_ascii_case contains to_ascii_lowercase text
is_chunked [] = false
is_chunked ((k, v) ∷ more) =
    eq_ignore_ascii_case k (text "transfer-encoding")
      && contains (to_ascii_lowercase v) (text "chunked")
    || is_chunked more

unfoldable pub content_length : List Header → Option ℕ
unfolding header_of parse_u64 text
content_length headers = and_then (header_of headers (text "content-length")) parse_u64

head_runs :
    parse_head (text "HTTP/1.1 201 Created\r\nContent-Length: 12\r\nbad line\r\nA:b\r\n\r\n")
    ≡ ok (201, (text "Content-Length", text "12") ∷ (text "A", text "b") ∷ [])
unfolding parse_head text
head_runs = refl

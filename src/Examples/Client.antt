-- ===== src/Examples/Client.antt =====
-- The theorems of the HTTP client and of the log anchor on concrete bytes.
use unidpp_archive.Prelude.{ℕ, ◌<◌, ◌≤◌, ◌≡◌, ◌≢◌, refl, none, some, List, [], ◌∷◌, ◌++◌, arith}
use unidpp_archive.Result.{ok, err}
use unidpp_archive.Text.{Str, text}
use unidpp_archive.Json.{str}
use unidpp_archive.Http.Url.{url, display, parse, parse-display}
use unidpp_archive.Http.Query.{
  encode_query_component, decode_component, decode_component-encode_query_component,
}
use unidpp_archive.Http.Chunked.{out_of_fuel, decode_chunked_body}
use unidpp_archive.Http.Chunked.Rounds.{decode_chunked_body-end}
use unidpp_archive.Http.Chunked.Encode.{encode_chunks, decode_chunked_body-encode_chunks}
use unidpp_archive.Http.Response.{HttpResponse, body_string}
use unidpp_archive.Http.Request.{Network, read_response, json_request}
use unidpp_archive.Http.Split.{delivered, whole_response, concat, read_response-delivered}
use unidpp_archive.LogAnchor.{enabled, base_of, commitment_body, anchor}
use unidpp_archive.LogAnchor.Usable.{anchor-ok}
use unidpp_archive.Examples.Codec.{print_value, read_value}
use unidpp_archive.Examples.Service.{sample}

-- A response in three pieces, of which the first ends inside the head.
abbrev pieces : List (List ℕ)
pieces =
    text "HTTP/1.1 200 OK\r\nTransfer-Enc"
    ∷ text "oding: chunked\r\n\r\n3\r\nab"
    ∷ text "c\r\n0\r\n\r\n"
    ∷ []

read_response-delivered_example : read_response (delivered pieces) ≡ whole_response (concat pieces)
unfolding text
read_response-delivered_example = read_response-delivered pieces (tt, (tt, (tt, tt)))

decode_chunked_body-end_example : decode_chunked_body (text "3\r\nabc") ≢ err out_of_fuel
decode_chunked_body-end_example = decode_chunked_body-end (text "3\r\nabc")

decode_chunked_body-encode_chunks_example :
    decode_chunked_body (encode_chunks (text "Wiki" ∷ text "pedia" ∷ [])) ≡ ok (text "Wikipedia")
unfolding text
decode_chunked_body-encode_chunks_example =
    decode_chunked_body-encode_chunks (text "Wiki" ∷ text "pedia" ∷ [])
      (omega arith, (omega arith, tt)) (omega arith)

parse-display_example :
    parse (display (url (text "log") 8092 (text "/commitments")))
    ≡ ok (url (text "log") 8092 (text "/commitments"))
unfolding text
parse-display_example =
    parse-display b'l' (text "og") 8092 (text "commitments") (refl, (refl, (refl, tt)))
      (omega arith)

decode_component-encode_query_component_example :
    decode_component (encode_query_component (text "e8 x")) ≡ some (text "e8 x")
unfolding text
decode_component-encode_query_component_example =
    decode_component-encode_query_component (text "e8 x")
      (omega arith, (omega arith, (omega arith, (omega arith, tt))))

-- A log that answers each commitment with the same receipt.
abbrev receipt_text : Str
receipt_text = print_value (str (text "r"))

abbrev willing : Network
willing host port bytes = ok (ok (text "HTTP/1.1 201 Created\r\n\r\n" ++ receipt_text) ∷ [])

anchor-ok_example :
    (base : Str) × (r : HttpResponse) × (base_of (enabled (text "http://log")) ≡ ok base)
    × (json_request willing
          (text "POST")
          (base ++ text "/commitments")
          (some (print_value (commitment_body sample willing (text "s") (text "c"))))
          none
        ≡ ok r)
    × (200 ≤ r.status)
    × (r.status < 300)
    × (read_value (body_string r) ≡ ok (str (text "r")))
unfolding text print_value read_value anchor
anchor-ok_example =
    anchor-ok sample willing (enabled (text "http://log")) (text "s") (text "c") (str (text "r"))
      refl

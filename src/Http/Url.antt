-- ===== src/Http/Url.antt =====
-- `Url` of src/http.rs: absolute `http://` URLs.
use unidpp_archive.Prelude.{
  ℕ, ◌<◌, ◌^◌, ◌≡◌, ◌⊎◌, inl, inr, lt→ltb, refl, ap, ◌∙◌, true, false, not, Option, none, some, [],
  ◌∷◌, ◌++◌, arith, ltb, ◌==◌, take, drop, length, All, All-append,
}
use unidpp_archive.Result.{Result, ok, err, ◌>>=◌, ◌>>◌, ok_or, fail_if, keep_if, keep_if-true}
use unidpp_archive.Text.{Str, text, eq_str, is_empty}
use unidpp_archive.Text.Decimal.{
  parse_u64, to_string, parse_u64-to_string, IsDigit, to_string-IsDigit,
}
use unidpp_archive.Text.Search.{
  find_subslice, split_once, rsplit_once, eq_ignore_ascii_case, starts_with, take-length,
  drop-length,
}

pub record Url : Type 0 where
  pub host : Str
  pub port : ℕ
  pub path_and_query : Str

-- `str::parse::<u16>`
unfoldable pub parse_u16 : Str → Option ℕ
unfolding parse_u64
parse_u16 s = keep_if (parse_u64 s) (λ n. ltb n (2 ^ 16))

-- The authority and the path of what follows the scheme.
unfoldable pub split_authority : Str → Str × Str
unfolding find_subslice text
split_authority rest = elim (find_subslice rest (text "/")) [
  | some i ↦ (take i rest, drop i rest)
  | none ↦ (rest, text "/")
]

-- The host and the port of an authority, which is of the URL `s`.
unfoldable pub split_port : Str → Str → Result Str (Str × ℕ)
unfolding rsplit_once parse_u16 text
split_port s authority = elim (rsplit_once authority b':') [
  | some (h, p) ↦ do
    port ← ok_or (parse_u16 p) (text "bad port in `" ++ s ++ text "`")
    ok (h, port)
  | none ↦ ok (authority, 80)
]

-- `Url::parse`
unfoldable pub parse : Str → Result Str Url
unfolding split_once eq_ignore_ascii_case split_authority split_port text
parse s = do
  (scheme, rest) ←
      ok_or (split_once s (text "://")) (text "URL must be absolute: `" ++ s ++ text "`")
  fail_if (not (eq_ignore_ascii_case scheme (text "http")))
      (text "unsupported URL scheme `" ++ scheme ++ text "`")
  let (authority, path) = split_authority rest
  (host, port) ← split_port s authority
  fail_if (is_empty host) (text "URL has no host: `" ++ s ++ text "`")
  ok (record { host = host; port = port; path_and_query = path })

parse_runs :
    parse (text "http://127.0.0.1:8095/snapshots?passport_id=x")
    ≡ ok (record {
      host = text "127.0.0.1";
      port = 8095;
      path_and_query = text "/snapshots?passport_id=x";
    })
unfolding parse text
parse_runs = refl

parse_https : parse (text "https://x") ≡ err (text "unsupported URL scheme `https`")
unfolding parse text
parse_https = refl

-- No byte of the text is the separator.
abbrev pub Without : ℕ → Str → Type 0
Without c s = All (λ b. (b == c) ≡ false) s

starts_at : (b c : ℕ) (s : Str) → starts_with (b ∷ s) (c ∷ []) ≡ (b == c)
unfolding starts_with eq_str
starts_at b c s = ground arith

same_byte : (c : ℕ) → (c == c) ≡ true
same_byte c = ground arith

find_first :
    (c : ℕ) (s t : Str) → Without c s → find_subslice (s ++ c ∷ t) (c ∷ []) ≡ some (length s)
unfolding find_subslice starts_with
find_first c [] t h = rw (starts_at c c t, same_byte c) refl
find_first c (b ∷ s) t h = rw (starts_at b c (s ++ c ∷ t), h.0, find_first c s t h.1) refl

rsplit_absent : (c : ℕ) (s : Str) → Without c s → rsplit_once s c ≡ none
unfolding rsplit_once
rsplit_absent c [] h = refl
rsplit_absent c (b ∷ s) h = rw (rsplit_absent c s h.1, h.0) refl

rsplit_last : (c : ℕ) (s t : Str) → Without c t → rsplit_once (s ++ c ∷ t) c ≡ some (s, t)
unfolding rsplit_once
rsplit_last c [] t h = rw (rsplit_absent c t h, same_byte c) refl
rsplit_last c (b ∷ s) t h = rw (rsplit_last c s t h) refl

abbrev pub url : Str → ℕ → Str → Url
url host port path = record { host = host; port = port; path_and_query = path }

-- The text of a URL with a port.
abbrev pub display : Url → Str
display u = text "http://" ++ (u.host ++ b':' ∷ to_string u.port) ++ u.path_and_query

digits-Without : (c : ℕ) (s : Str) → (c < b'0') ⊎ (b'9' < c) → All IsDigit s → Without c s
digits-Without c [] h d = tt
digits-Without c (b ∷ s) h d = (digit_differs, digits-Without c s h d.1)
  where
    digit_differs : (b == c) ≡ false
    digit_differs = ground (arith, h, d.0)

split_authority-append :
    (authority p : Str)
    → Without b'/' authority
    → split_authority (authority ++ b'/' ∷ p) ≡ (authority, b'/' ∷ p)
unfolding split_authority text
split_authority-append authority p h =
    rw
      (
        find_first b'/' authority p h,
        take-length authority (b'/' ∷ p),
        drop-length authority (b'/' ∷ p),
        split_authority,
      )
      refl

parse_u16-to_string : (port : ℕ) → port < 2 ^ 16 → parse_u16 (to_string port) ≡ some port
unfolding parse_u16
parse_u16-to_string port h =
    ap (λ o. keep_if o (λ n. ltb n (2 ^ 16))) (parse_u64-to_string port (omega arith))
    ∙ keep_if-true port (λ n. ltb n (2 ^ 16)) (lt→ltb port (2 ^ 16) h)

split_port-append :
    (s host : Str) (port : ℕ)
    → port < 2 ^ 16
    → split_port s (host ++ b':' ∷ to_string port) ≡ ok (host, port)
unfolding split_port
split_port-append s host port h =
    rw
      (
        rsplit_last b':' host (to_string port)
            (digits-Without b':' (to_string port) (inr (omega arith)) (to_string-IsDigit port)),
        parse_u16-to_string port h,
        split_port,
      )
      refl

parse-rest :
    (rest : Str)
    → parse (text "http://" ++ rest) ≡ (do
      let s = text "http://" ++ rest
      let (authority, path) = split_authority rest
      (host, port) ← split_port s authority
      fail_if (is_empty host) (text "URL has no host: `" ++ s ++ text "`")
      ok (url host port path))
unfolding parse text
parse-rest rest = refl

-- A URL is read back from its text: the host is not empty and has no `/`, the port fits 16 bits, and
-- the path begins with `/`.
pub parse-display :
    (b : ℕ) (host : Str) (port : ℕ) (path : Str)
    → Without b'/' (b ∷ host)
    → port < 2 ^ 16
    → parse (display (url (b ∷ host) port (b'/' ∷ path))) ≡ ok (url (b ∷ host) port (b'/' ∷ path))
unfolding parse
parse-display b host port path h lt =
    let authority_ok : Without b'/' ((b ∷ host) ++ b':' ∷ to_string port) =
      All-append (λ c. (c == b'/') ≡ false) (b ∷ host) (b':' ∷ to_string port) h
        (refl, digits-Without b'/' (to_string port) (inl (omega arith)) (to_string-IsDigit port)) in
    let rest = ((b ∷ host) ++ b':' ∷ to_string port) ++ b'/' ∷ path in
    parse-rest rest
    ∙ rw
        (
          split_authority-append ((b ∷ host) ++ b':' ∷ to_string port) path authority_ok,
          split_port-append (text "http://" ++ rest) (b ∷ host) port lt,
        )
        refl

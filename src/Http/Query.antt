-- ===== src/Http/Query.antt =====
-- `Url::encode_query_component` of src/http.rs.
use unidpp_archive.Prelude.{
  ℕ, ◌+◌, ◌-◌, ◌*◌, ◌/◌, ◌%◌, ◌<◌, ◌≡◌, refl, ap, ◌∙◌, Bool, true, false, ◌&&◌, ◌||◌, Option, none,
  some, [], ◌∷◌, ◌++◌, arith, ltb, leb, ◌==◌, if◌then◌else◌, All, Bool-cases, inl, inr,
}
use unidpp_archive.Result.{map_option}
use unidpp_archive.Hex.RoundTrip.{IsByte}
use unidpp_archive.Text.{Str, text}
use unidpp_archive.Http.Chunked.{hex_value}

-- The bytes that stay as they are.
abbrev pub is_unreserved : ℕ → Bool
is_unreserved b =
    leb b'A' b && leb b b'Z'
    || leb b'a' b && leb b b'z'
    || leb b'0' b && leb b b'9'
    || b == b'-'
    || b == b'.'
    || b == b'_'
    || b == b'~'

-- A digit of `{:X}`
abbrev pub upper_digit : ℕ → ℕ
upper_digit d = if ltb d 10 then b'0' + d else b'A' + (d - 10)

-- `%{b:02X}`
abbrev pub escape : ℕ → Str
escape b = b'%' ∷ upper_digit (b / 16) ∷ upper_digit (b % 16) ∷ []

-- One byte in the output.
unfoldable pub encode_byte : ℕ → Str
encode_byte b = if is_unreserved b then b ∷ [] else escape b

unfoldable pub encode_query_component : Str → Str
unfolding encode_byte
encode_query_component [] = []
encode_query_component (b ∷ s) = encode_byte b ++ encode_query_component s

encode_runs : encode_query_component (text "urn:e8 x") ≡ text "urn%3Ae8%20x"
unfolding encode_query_component text
encode_runs = refl

abbrev unescape : Option ℕ → Option ℕ → Option Str → Option Str
unescape (some high) (some low) (some t) = some ((high * 16 + low) ∷ t)
unescape _ _ _ = none

-- What a server makes of a query component (RFC 3986): an escape is the byte of its digits.
unfoldable pub decode_component : Str → Option Str
unfolding hex_value
decode_component [] = some []
decode_component (b ∷ []) = if b == b'%' then none else some (b ∷ [])
decode_component (b ∷ c ∷ []) = if b == b'%' || c == b'%' then none else some (b ∷ c ∷ [])
decode_component (b ∷ c ∷ d ∷ s) = elim (b == b'%') [
  | true ↦ unescape (hex_value c) (hex_value d) (decode_component s)
  | false ↦ map_option (λ t. b ∷ t) (decode_component (c ∷ d ∷ s))
]

hex_value-upper_digit : (d : ℕ) → d < 16 → hex_value (upper_digit d) ≡ some d
unfolding hex_value
hex_value-upper_digit d h = ground arith

decode_plain :
    (b : ℕ) (s : Str)
    → (b == b'%') ≡ false
    → decode_component (b ∷ s) ≡ map_option (λ t. b ∷ t) (decode_component s)
unfolding decode_component
decode_plain b [] h = rw h refl
decode_plain b (c ∷ []) h = elim (Bool-cases (c == b'%')) [
  | inl e ↦ rw (h, e) refl
  | inr e ↦ rw (h, e) refl
]
decode_plain b (c ∷ d ∷ s) h = rw (h, decode_component) refl

unescape_byte :
    (high low b : ℕ)
    → high * 16 + low ≡ b
    → (t : Option Str) → unescape (some high) (some low) t ≡ map_option (λ r. b ∷ r) t
unescape_byte high low b e none = refl
unescape_byte high low b e (some t) = ap (λ a. some (a ∷ t)) e

decode_escape :
    (b : ℕ) (s : Str)
    → b < 256
    → decode_component (escape b ++ s) ≡ map_option (λ t. b ∷ t) (decode_component s)
unfolding decode_component
decode_escape b s h =
    let e : b / 16 * 16 + b % 16 ≡ b = omega arith in
    rw (hex_value-upper_digit (b / 16) (omega arith), hex_value-upper_digit (b % 16) (omega arith))
      (unescape_byte (b / 16) (b % 16) b e (decode_component s))

decode_byte :
    (b : ℕ) (s : Str)
    → b < 256
    → decode_component (encode_byte b ++ s) ≡ map_option (λ t. b ∷ t) (decode_component s)
unfolding encode_byte
decode_byte b s h = elim (Bool-cases (is_unreserved b)) [
  | inl plain ↦ rw plain (decode_plain b s (ground (arith, plain)))
  | inr other ↦ rw other (decode_escape b s h)
]

-- A component of bytes is read back from its escaped form by a decoder of percent escapes.
pub decode_component-encode_query_component :
    (s : Str) → All IsByte s → decode_component (encode_query_component s) ≡ some s
unfolding encode_query_component
decode_component-encode_query_component [] h = unfold decode_component in refl
decode_component-encode_query_component (b ∷ s) h =
    decode_byte b (encode_query_component s) h.0
    ∙ ap (map_option (λ t. b ∷ t)) (decode_component-encode_query_component s h.1)

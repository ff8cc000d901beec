-- ===== src/LogAnchor.antt =====
-- The anchoring hop of src/log_anchor.rs: its configuration, and the request to the transparency log.
pub mod Usable
use unidpp_archive.Prelude.{
  ℕ, zero, suc, ◌+◌, ◌≡◌, refl, Bool, true, false, ◌&&◌, not, Option, none, some, List, [], ◌∷◌,
  ◌++◌, ltb, leb, ◌==◌, if◌then◌else◌,
}
use unidpp_archive.Result.{
  Result, ok, err, ◌>>=◌, ◌>>◌, map_err, fail_if, ok_or, keep_if, map_option, is_some, and_then,
}
use unidpp_archive.Text.{Str, text, trim, is_empty, eq_str}
use unidpp_archive.Text.Decimal.{parse_u64, to_string}
use unidpp_archive.Json.{Value, str, object}
use unidpp_archive.External.{External}
use unidpp_archive.Http.Chunked.{Fault, message, panicked, out_of_fuel}
use unidpp_archive.Http.Response.{HttpResponse, body_string}
use unidpp_archive.Http.Request.{Network, json_request}

abbrev pub default_timeout_ms : ℕ
default_timeout_ms = 3000

-- The timeout is a number of milliseconds.
pub record LogAnchorConfig : Type 0 where
  pub base_url : Option Str
  pub bearer : Option Str
  pub timeout : ℕ

-- `LogAnchorConfig::default`
abbrev pub default : LogAnchorConfig
default = record { base_url = none; bearer = none; timeout = default_timeout_ms }

abbrev pub disabled : LogAnchorConfig
disabled = default

abbrev pub enabled : Str → LogAnchorConfig
enabled base = record default { base_url = some base }

-- The variables that are set, by their names.
abbrev pub Vars : Type 0
Vars = List (Str × Str)

unfoldable pub var : Vars → Str → Option Str
unfolding eq_str
var [] key = none
var ((k, value) ∷ vars) key = let later = var vars key in if eq_str k key then some value else later

-- A value without the white space around it, if that leaves some.
unfoldable pub proper_value : Option Str → Option Str
unfolding trim
proper_value value = keep_if (map_option trim value) (λ s. not (is_empty s))

unfoldable pub timeout_of : Option Str → ℕ
unfolding trim parse_u64
timeout_of value = elim (keep_if (and_then (map_option trim value) parse_u64) (λ ms. ltb 0 ms)) [
  | some ms ↦ ms
  | none ↦ default_timeout_ms
]

unfoldable pub from_env_map : Vars → LogAnchorConfig
unfolding var proper_value timeout_of text
from_env_map vars = record {
  base_url = proper_value (var vars (text "UNIDPP_LOG_URL"));
  bearer = proper_value (var vars (text "UNIDPP_ARCHIVE_LOG_TOKEN"));
  timeout = timeout_of (var vars (text "UNIDPP_ARCHIVE_LOG_TIMEOUT_MS"));
}

abbrev pub is_enabled : LogAnchorConfig → Bool
is_enabled config = is_some config.base_url

-- `str::trim_end_matches('/')`
unfoldable pub trim_end_slashes : Str → Str
trim_end_slashes [] = []
trim_end_slashes (b ∷ s) = elim (trim_end_slashes s) [
  | [] ↦ if b == b'/' then [] else b ∷ []
  | c ∷ t ↦ b ∷ c ∷ t
]

-- `s.chars().take(n)`: a byte from 0x80 to 0xBF belongs to the character before it.
unfoldable pub take_chars : ℕ → Str → Str
take_chars n [] = []
take_chars zero (b ∷ s) = if leb 0x80 b && leb b 0xBF then b ∷ take_chars zero s else []
take_chars (suc n) (b ∷ s) =
    if leb 0x80 b && leb b 0xBF then b ∷ take_chars (suc n) s else b ∷ take_chars n s

-- The base of the log's URLs.
unfoldable pub base_of : LogAnchorConfig → Result Str Str
unfolding trim trim_end_slashes text
base_of config = do
  base ←
      ok_or (keep_if (map_option trim config.base_url) (λ s. not (is_empty s)))
        (text "log anchoring not configured (UNIDPP_LOG_URL is unset)")
  ok (trim_end_slashes base)

abbrev pub detail_of : Str → Str
detail_of [] = []
detail_of (b ∷ s) = text ": " ++ b ∷ s

-- A response that is not a success.
unfoldable pub refusal : HttpResponse → Str
unfolding take_chars body_string to_string text
refusal r =
    text "log refused the commitment: "
    ++ to_string r.status
    ++ detail_of (take_chars 200 (body_string r))

abbrev pub is_success : ℕ → Bool
is_success status = leb 200 status && ltb status 300

-- An error of the client, as the text of an error here. A panic stays one.
abbrev pub unreachable : Fault → Fault
unreachable (message e) = message (text "log unreachable: " ++ e)
unreachable panicked = panicked
unreachable out_of_fuel = out_of_fuel

module _ (x : External) (network : Network) where
  -- The document that is posted.
  abbrev pub commitment_body : Str → x.Hash → Value
  commitment_body subject commitment =
      object ((text "subject", str subject) ∷ (text "commitment", str (x.hex commitment)) ∷ [])

  -- The receipt in a response.
  unfoldable pub receipt_of : HttpResponse → Result Str Value
  unfolding refusal body_string text
  receipt_of r = do
    fail_if (not (is_success r.status)) (refusal r)
    map_err (λ e. text "log returned a non-JSON receipt: " ++ e) (x.from_str (body_string r))

  unfoldable pub anchor : LogAnchorConfig → Str → x.Hash → Result Fault Value
  unfolding base_of json_request receipt_of text
  anchor config subject commitment = do
    base ← map_err message (base_of config)
    r ← map_err unreachable (
        json_request network (text "POST") (base ++ text "/commitments")
          (some (x.display (commitment_body subject commitment))) config.bearer)
    map_err message (receipt_of r)

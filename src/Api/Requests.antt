-- ===== src/Api/Requests.antt =====
-- The checks of requests in src/api.rs: the administrator's token, the body, and the query.
use unidpp_archive.Prelude.{
  ℕ, Bool, false, not, ◌&&◌, ◌||◌, Option, none, some, [], ◌∷◌, ◌++◌, ◌==◌, ltb, if◌then◌else◌,
  length,
}
use unidpp_archive.Result.{
  Result, ok, err, ◌>>=◌, ◌>>◌, map_err, ok_or, fail_if, and_then, keep_if, map_option,
}
use unidpp_archive.Text.{Str, text, trim, is_empty, eq_str, strip_prefix}
use unidpp_archive.Time
use unidpp_archive.Time.{Timestamp, TimeParseError, show_time_parse_error}
use unidpp_archive.Json.{Value, null, num, str, get, as_str}
use unidpp_archive.External.{External}
use unidpp_archive.Store.Opening.{StoreError, journal, conflict}

pub data CachePolicy : Type 0 where
  current point_in_time no_store : CachePolicy

unfoldable pub header_value : CachePolicy → Str
header_value current = text "public, max-age=30, must-revalidate"
header_value point_in_time = text "public, max-age=86400, immutable"
header_value no_store = text "no-store"

-- The status and the message of an error response.
pub record Refusal : Type 0 where
  pub status : ℕ
  pub message : Str

unfoldable pub store_error : StoreError → Refusal
store_error (journal m) = record { status = 500; message = text "storage integrity failure: " ++ m }
store_error (conflict m) = record { status = 409; message = m }

unfoldable pub bad_request : Str → Refusal
bad_request message = record { status = 400; message = message }

-- `require_admin`: the configured token, and the text of the `authorization` header.
unfoldable pub require_admin : Option Str → Option Str → Option Refusal
require_admin none authorization = none
require_admin (some token) authorization =
    let denied : Refusal = record { status = 401; message = text "unauthorized" } in
    elim (and_then authorization (strip_prefix (text "Bearer "))) [
      | none ↦ some denied
      | some got ↦ if eq_str got token then none else some denied
    ]

unfoldable pub req_str : Value → Str → Result Str Str
req_str v key =
    ok_or (keep_if (map_option trim (and_then (get v key) as_str)) (λ s. not (is_empty s)))
      (text "`" ++ key ++ text "` is required")

unfoldable pub opt_str_value : Str → Option Value → Result Str (Option Str)
opt_str_value key none = ok none
opt_str_value key (some null) = ok none
opt_str_value key (some (str s)) = do
  fail_if (is_empty (trim s)) (text "`" ++ key ++ text "` must not be blank")
  fail_if (ltb 512 (length (trim s))) (text "`" ++ key ++ text "` must be at most 512 characters")
  ok (some (trim s))
opt_str_value key (some _) = err (text "`" ++ key ++ text "` must be a string")

unfoldable pub opt_str : Value → Str → Result Str (Option Str)
opt_str v key = opt_str_value key (get v key)

unfoldable pub opt_u64_value : Str → Option Value → Result Str (Option ℕ)
opt_u64_value key none = ok none
opt_u64_value key (some null) = ok none
opt_u64_value key (some (num n)) = ok (some n)
opt_u64_value key (some _) = err (text "`" ++ key ++ text "` must be an unsigned integer")

unfoldable pub opt_u64 : Value → Str → Result Str (Option ℕ)
opt_u64 v key = opt_u64_value key (get v key)

-- `char::is_control` of a character of a UTF-8 text: U+0000 to U+001F, U+007F to U+009F.
unfoldable pub has_control : Str → Bool
has_control [] = false
has_control (b ∷ []) = ltb b 32 || b == 127
has_control (b ∷ c ∷ s) =
    let rest = has_control (c ∷ s) in ltb b 32 || b == 127 || (b == 0xC2 && ltb c 0xA0) || rest

unfoldable pub validate_passport_id : Str → Result Str (Unit {0})
validate_passport_id id = do
  fail_if (is_empty id || ltb 512 (length id)) (text "`passport_id` must be 1-512 characters")
  fail_if (has_control id) (text "`passport_id` must not contain control characters")

-- The parameters of a query, by name.
abbrev pub Params : Type 0
Params = Str → Option Str

abbrev or_else : Option Str → Option Str → Option Str
or_else (some s) other = some s
or_else none other = other

unfoldable pub parse_at_text : Option Str → Result Str (Option Timestamp)
parse_at_text none = ok none
parse_at_text (some []) = ok none
parse_at_text (some (b ∷ s)) =
    map_err (λ e. text "invalid `at` parameter: " ++ show_time_parse_error e) (Time.parse (b ∷ s))
    >>= (λ t. ok (some t))

unfoldable pub parse_at : Params → Result Str (Option Timestamp)
parse_at params = parse_at_text (or_else (params (text "at")) (params (text "asof")))

unfoldable pub opt_query : Params → Str → Option Str
opt_query params key = keep_if (map_option trim (params key)) (λ s. not (is_empty s))

unfoldable pub cache_for : Option Timestamp → CachePolicy
cache_for none = current
cache_for (some t) = point_in_time

pub record CreateRequest (Hash : Type 0) : Type 0 where
  pub passport_id : Str
  pub state_hash : Hash
  pub log_head : Hash
  pub submitter : Option Str
  pub state_size : Option ℕ

module _ (x : External) where
  open x use {Hash, from_hex, from_str}

  unfoldable pub parse_body : Str → Result Str Value
  parse_body body = map_err (λ e. text "invalid JSON body: " ++ e) (from_str body)

  unfoldable pub req_hash : Value → Str → Result Str Hash
  req_hash v key = do
    s ← req_str v key
    ok_or (from_hex s) (text "`" ++ key ++ text "` must be a 64-character hex SHA-256 value")

  unfoldable pub parse_create_request : Value → Result Str (CreateRequest Hash)
  parse_create_request v = do
    passport_id ← req_str v (text "passport_id")
    validate_passport_id passport_id
    state_hash ← req_hash v (text "state_hash")
    log_head ← req_hash v (text "log_head")
    submitter ← opt_str v (text "submitter")
    state_size ← opt_u64 v (text "state_size")
    ok (record {
      passport_id = passport_id;
      state_hash = state_hash;
      log_head = log_head;
      submitter = submitter;
      state_size = state_size;
    })

-- ===== src/Api/Responses.antt =====
-- The responses of src/api.rs: a status, headers in order, and a body. The builder of axum refuses a
-- header that is no visible ASCII text; the source expects that none is, and so does the model.
use unidpp_archive.Prelude.{ℕ, List, [], ◌∷◌, ◌++◌, take}
use unidpp_archive.Text.{Str, text}
use unidpp_archive.Time
use unidpp_archive.Time.{Timestamp}
use unidpp_archive.Json.{Value, str, object}
use unidpp_archive.External.{External}
use unidpp_archive.Api.Requests.{CachePolicy, no_store, header_value, Refusal}

pub record Response : Type 0 where
  pub status : ℕ
  pub headers : List (Str × Str)
  pub body : Str

unfoldable pub build_response : ℕ → List (Str × Str) → Str → CachePolicy → Response
build_response status headers body cache = record {
  status = status;
  headers = headers ++ (text "cache-control", header_value cache) ∷ [];
  body = body;
}

-- The strong entity tag of a body digest, from the first 32 digits of its text.
unfoldable pub etag_of : Str → Str
etag_of digest = text "\"sha-" ++ take 32 digest ++ text "\""

module _ (x : External) where
  open x use {to_string_pretty}

  unfoldable pub json_response : ℕ → Value → Timestamp → CachePolicy → Response
  json_response status doc as_of cache =
      build_response status
        ((text "content-type", text "application/json")
          ∷ (text "x-as-of", Time.to_string as_of)
          ∷ [])
        (to_string_pretty doc) cache

  -- `error_response`; `now` is the clock.
  unfoldable pub error_response : Timestamp → Refusal → Response
  error_response now refusal =
      json_response refusal.status (object ((text "error", str refusal.message) ∷ [])) now no_store

  unfoldable pub not_found : Timestamp → Str → Response
  not_found now message = error_response now (record { status = 404; message = message })

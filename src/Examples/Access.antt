-- ===== src/Examples/Access.antt =====
-- The theorems of the service and of its start on concrete values.
use unidpp_archive.Prelude.{ℕ, ◌≡◌, refl, true, none, some, List, [], ◌∷◌, arith}
use unidpp_archive.Prelude.Int.{pos}
use unidpp_archive.Result.{Result, ok, err}
use unidpp_archive.Text.{Str, text}
use unidpp_archive.Hex.{hex_decode}
use unidpp_archive.Time.{from_secs}
use unidpp_archive.Json.{Value, num}
use unidpp_archive.Model.Record.{statement_bytes}
use unidpp_archive.Store.Files.{Disk}
use unidpp_archive.Store.Opening.{SnapshotStore}
use unidpp_archive.Keyring.{Keyring, seeded_dev, from_env_map}
use unidpp_archive.Keyring.Resolves.{Resolved, from_env_map-Resolved}
use unidpp_archive.LogAnchor.{disabled}
use unidpp_archive.Api.Config.{Environment, from_env}
use unidpp_archive.Api.Config.Contract.{IsConfigured, from_env-IsConfigured}
use unidpp_archive.Api.Router.{healthz, create_snapshot, Service, Moment, serve, serve_all}
use unidpp_archive.Api.Authorized.{serve_all-unauthorized}
use unidpp_archive.Text.{trim, strip_prefix, eq_str}
use unidpp_archive.Json.{str, object, get}
use unidpp_archive.Model.Anchoring.{unanchored}
use unidpp_archive.Model.Document.{to_document}
use unidpp_archive.Model.Rebuild.{doc_field, statement_bytes_from_document}
use unidpp_archive.Model.Seal.Verifies.{seal-verifies}
use unidpp_archive.Api.Handlers.{get_snapshot_handler}
use unidpp_archive.Api.Reserve.{lookup_header}
use unidpp_archive.Api.Forever.{serve-created}
use unidpp_archive.Keyring.{kept_or_dev, from_env_seed, dev, dev_seed_of}
use unidpp_archive.Text.Decimal.{to_string}
use unidpp_archive.Model.Record.{SnapshotRecord}
use unidpp_archive.Model.Seal.{signed, with_digest, seal}
use unidpp_archive.Api.Requests.{
  Refusal, CreateRequest, require_admin, parse_body, parse_create_request, req_str, req_hash,
  opt_str, opt_u64, validate_passport_id, has_control, opt_str_value, opt_u64_value,
}
use unidpp_archive.Api.Ingest
use unidpp_archive.Api.Graded.{IsGradedOutcome, create_snapshot-IsGradedOutcome}
use unidpp_archive.Api.Ingest.{anchored_record, anchoring_for}
use unidpp_archive.Api.Accepts.{
  IsCreated, parse_request, create_snapshot-IsCreated, unanchored-IsKept,
}
use unidpp_archive.Examples.Codec.{read_value, print_value}
use unidpp_archive.Examples.Service.{
  sample, sample_documented, draft, sign_bytes, sign_bytes-IsByte,
}
use unidpp_archive.Examples.Runs.{calm, calm_done, no_files, no_records, no_records-IsConsistent}
use unidpp_archive.Examples.Requests.{request_body}

-- A service with a token, whose addresses are texts.
abbrev app : Service sample Str
app = record {
  config = record {
    bind = text "127.0.0.1:0";
    admin_token = some (text "t");
    state_file = some (text "journal");
    snapshot_dir = some (text "aips");
    dev_seed = none;
    log = disabled;
  };
  keyring = record { mode = seeded_dev; notary_key = text "k"; dev_seed = some (text "d") };
  build = record { version = text "1"; build_id = none; contract_yaml = text "openapi" };
}

abbrev moment : Moment sample
moment = record {
  now = from_secs (pos 1000000);
  log = λ subject commitment. err (text "down");
  io = calm;
}

serve_all-unauthorized_example :
    serve_all sample app
      ((moment, create_snapshot none request_body) ∷ (moment, healthz) ∷ [])
      no_records
      no_files
    ≡ (no_records, no_files)
serve_all-unauthorized_example =
    serve_all-unauthorized sample app (text "t")
      ((moment, create_snapshot none request_body) ∷ (moment, healthz) ∷ []) no_records no_files
      refl (λ e. cc, (tt, tt))

-- An environment in which each variable has its own name as its value.
abbrev named : Environment
named key = some key

from_env-IsConfigured_example :
    IsConfigured
      (λ (s : Str). some s)
      (text "b")
      named
      (from_env (λ (s : Str). some s) (text "b") named)
from_env-IsConfigured_example = from_env-IsConfigured (λ (s : Str). some s) (text "b") named

-- A seed of one byte is refused.
abbrev fallback : Keyring Str
fallback = record {
  mode = seeded_dev;
  notary_key = text "unidpp-archive/notary|unidpp-archive/dev-1";
  dev_seed = some (text "unidpp-archive/dev-1");
}

abbrev warning : Str
warning =
    text
      "UNIDPP_ARCHIVE_SIGN_SEED rejected: notary seed too short: 1 bytes (need at least 16); falling back to seeded-dev mode"

from_env_map-Resolved_example : Resolved sample none (some (text "00")) fallback (warning ∷ [])
unfolding from_env_map text trim kept_or_dev from_env_seed hex_decode strip_prefix dev dev_seed_of
    to_string
from_env_map-Resolved_example =
    from_env_map-Resolved sample none (some (text "00")) fallback (warning ∷ []) refl

-- The request as it is parsed.
abbrev request : CreateRequest Str
request = record {
  passport_id = text "p";
  state_hash = text "a";
  log_head = text "b";
  submitter = none;
  state_size = none;
}

abbrev down : Str → Str → Result Str Value
down subject commitment = err (text "down")

abbrev outcome : Result Refusal (SnapshotRecord Str) × SnapshotStore Str × Disk
outcome =
    Ingest.create_snapshot sample calm (text "k") down (from_secs (pos 1000000)) (some (text "t"))
      (some (text "Bearer t")) request_body no_records no_files

parsed : parse_request sample request_body ≡ ok request
unfolding text parse_body read_value print_value object parse_create_request req_str req_hash
    opt_str opt_u64 validate_passport_id trim get has_control opt_str_value opt_u64_value
parsed = refl

allowed : require_admin (some (text "t")) (some (text "Bearer t")) ≡ none
unfolding require_admin text strip_prefix eq_str
allowed = refl

create_snapshot-IsCreated_example :
    IsCreated sample sample_documented (from_secs (pos 1000000)) request no_records outcome
unfolding anchoring_for
create_snapshot-IsCreated_example =
    create_snapshot-IsCreated sample sample_documented calm (text "k") down
      (from_secs (pos 1000000)) (some (text "t")) (some (text "Bearer t")) request_body no_records
      no_files request calm_done no_records-IsConsistent allowed parsed (omega arith) tt
      (omega arith, omega arith)
      (λ message. (sign_bytes (text "k") message, refl, sign_bytes-IsByte (text "k") message))
      (λ subject h. unanchored-IsKept (text "down"))

outcome-IsCreated :
    IsCreated sample sample_documented (from_secs (pos 1000000)) request no_records outcome
unfolding anchoring_for
outcome-IsCreated =
    create_snapshot-IsCreated sample sample_documented calm (text "k") down
      (from_secs (pos 1000000)) (some (text "t")) (some (text "Bearer t")) request_body no_records
      no_files request calm_done no_records-IsConsistent allowed parsed (omega arith) tt
      (omega arith, omega arith)
      (λ message. (sign_bytes (text "k") message, refl, sign_bytes-IsByte (text "k") message))
      (λ subject h. unanchored-IsKept (text "down"))

created_with :
    (out : Result Refusal (SnapshotRecord Str) × SnapshotStore Str × Disk)
    → IsCreated sample sample_documented (from_secs (pos 1000000)) request no_records out
    → (r : SnapshotRecord Str) × (out ≡ (ok r, out.1, out.2))
created_with (ok r, s, d) h = (r, refl)
created_with (err e, s, d) h = absurd h

-- The record that the request becomes.
abbrev made : SnapshotRecord Str
made = (created_with outcome outcome-IsCreated).0

abbrev sealed_draft : SnapshotRecord Str
sealed_draft = with_digest sample (
    signed sample (text "k") (draft 0)
      (some (sign_bytes (text "k") (statement_bytes sample (draft 0)))))

seal-verifies_example :
    (message : List ℕ) × (digits : Str) × (statement_bytes_from_document sample
        (to_document sample sealed_draft)
      ≡ ok message)
    × (doc_field
          (to_document sample sealed_draft)
          (text "oais" ∷ text "provenance" ∷ text "signature" ∷ [])
        ≡ ok (str digits))
    × (hex_decode digits ≡ ok (sign_bytes (text "k") (statement_bytes sample (draft 0))))
    × (eq_str
          (sign_bytes (text "k") message)
          (sign_bytes (text "k") (statement_bytes sample (draft 0)))
        ≡ true)
unfolding seal unanchored with_digest signed
seal-verifies_example =
    seal-verifies sample sample_documented (text "k") (draft 0) sealed_draft
      (sign_bytes (text "k") (statement_bytes sample (draft 0))) refl refl
      (omega arith, omega arith) tt tt
      (sign_bytes-IsByte (text "k") (statement_bytes sample (draft 0)))

serve-created_example :
    (let served =
        get_snapshot_handler sample
          (from_secs (pos 5))
          (serve_all sample app ((moment, healthz) ∷ []) outcome.1 outcome.2).0
          made.snapshot_id in
      let answered =
        (serve sample app moment
          (create_snapshot (some (text "Bearer t")) request_body)
          no_records
          no_files).0 in
      (served.status ≡ 200)
      × (served.body ≡ answered.body)
      × (lookup_header (text "etag") served.headers ≡ lookup_header (text "etag") answered.headers))
serve-created_example =
    serve-created sample sample_documented app moment (some (text "Bearer t")) request_body
      ((moment, healthz) ∷ []) (from_secs (pos 5)) no_records outcome.1 no_files outcome.2 made tt
      tt (omega arith) (created_with outcome outcome-IsCreated).1

-- The receipt of a log.
abbrev receipt : Value
receipt = object (
    (text "log_id", str (text "log"))
    ∷ (text "seq", num 3)
    ∷ (text "tree_head", object ((text "tree_size", num 4) ∷ (text "root", str (text "c")) ∷ []))
    ∷ (text "logged_at", str (text "2026-01-01"))
    ∷ [])

create_snapshot-IsGradedOutcome_example :
    IsGradedOutcome sample sample_documented
      (λ subject commitment. ok receipt)
      (Ingest.create_snapshot sample calm
        (text "k")
        (λ subject commitment. ok receipt)
        (from_secs (pos 1000000))
        (some (text "t"))
        (some (text "Bearer t"))
        request_body
        no_records
        no_files)
create_snapshot-IsGradedOutcome_example =
    create_snapshot-IsGradedOutcome sample sample_documented calm (text "k")
      (λ subject commitment. ok receipt) (from_secs (pos 1000000)) (some (text "t"))
      (some (text "Bearer t")) request_body no_records no_files

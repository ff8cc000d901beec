-- ===== src/Examples/Requests.antt =====
-- The theorems of sealing and of requests on concrete values.
use unidpp_archive.Prelude.{◌≡◌, ◌↔◌, refl, none, some, [], ◌∷◌, ◌++◌}
use unidpp_archive.Prelude.Int.{pos, negsuc}
use unidpp_archive.Result.{err}
use unidpp_archive.Text.{Str, text}
use unidpp_archive.Time.{from_secs}
use unidpp_archive.Json.{str, object}
use unidpp_archive.Civil.{civil_from_days}
use unidpp_archive.Civil.Leap.{IsDate}
use unidpp_archive.Civil.Range.{civil_from_days-IsDate}
use unidpp_archive.Model.Record.{statement_bytes}
use unidpp_archive.Model.Seal.{signed, with_digest, seal}
use unidpp_archive.Model.Seal.Sound.{IsSealedBy, seal-IsSealedBy}
use unidpp_archive.Api.Requests.{require_admin}
use unidpp_archive.Api.Ingest.{create_snapshot}
use unidpp_archive.Api.Outcome.{IsOutcome, create_snapshot-IsOutcome}
use unidpp_archive.Api.Guard.{require_admin_iff}
use unidpp_archive.Examples.Codec.{print_value}
use unidpp_archive.Examples.Service.{sample, sample_documented, draft, sign_bytes}
use unidpp_archive.Examples.Runs.{calm, no_files, no_records}

seal-IsSealedBy_example : IsSealedBy sample sample_documented (text "k") (
    with_digest sample (
      signed sample
        (text "k")
        (draft 0)
        (some (sign_bytes (text "k") (statement_bytes sample (draft 0))))))
unfolding seal
seal-IsSealedBy_example = seal-IsSealedBy sample sample_documented (text "k") (draft 0) _ refl

-- The body of a request.
abbrev pub request_body : Str
request_body = print_value (
    object (
      (text "passport_id", str (text "p"))
      ∷ (text "state_hash", str (text "a"))
      ∷ (text "log_head", str (text "b"))
      ∷ []))

create_snapshot-IsOutcome_example : IsOutcome sample sample_documented (text "k") no_records (
    create_snapshot sample calm
      (text "k")
      (λ subject commitment. err (text "down"))
      (from_secs (pos 1000000))
      (some (text "t"))
      (some (text "Bearer t"))
      request_body
      no_records
      no_files)
create_snapshot-IsOutcome_example =
    create_snapshot-IsOutcome sample sample_documented calm (text "k")
      (λ subject commitment. err (text "down")) (from_secs (pos 1000000)) (some (text "t"))
      (some (text "Bearer t")) request_body no_records no_files

require_admin_iff_example :
    (require_admin (some (text "t")) (some (text "Bearer t")) ≡ none)
    ↔ (some (text "Bearer t") ≡ some (text "Bearer " ++ text "t"))
require_admin_iff_example = require_admin_iff (text "t") (some (text "Bearer t"))

civil_from_days-IsDate_example :
    IsDate
      (civil_from_days (negsuc 0)).0
      (civil_from_days (negsuc 0)).1
      (civil_from_days (negsuc 0)).2
civil_from_days-IsDate_example = civil_from_days-IsDate (negsuc 0)

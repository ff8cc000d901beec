-- ===== src/Examples/Values.antt =====
-- The theorems of records, timestamps, dates and hexadecimal text on concrete values.
use unidpp_archive.Prelude.{◌≡◌, refl, [], ◌∷◌, arith, All}
use unidpp_archive.Prelude.Int.{pos, negsuc}
use unidpp_archive.Result.{ok}
use unidpp_archive.Text.{text, trim, strip_prefix}
use unidpp_archive.Time
use unidpp_archive.Time.{from_secs, parse}
use unidpp_archive.Time.Display.{parse-to_string}
use unidpp_archive.Hex.{hex_encode, hex_decode}
use unidpp_archive.Civil.{days_in_month, is_leap_year, days_from_civil, civil_from_days}
use unidpp_archive.Civil.Inverse.{days_from_civil-civil_from_days, civil_from_days-days_from_civil}
use unidpp_archive.Hex.RoundTrip.{hex_decode-hex_encode, hex_encode-hex_decode, IsByte}
use unidpp_archive.Model.Anchoring.{unanchored}
use unidpp_archive.Model.Record.{statement_bytes}
use unidpp_archive.Model.Document.{to_document}
use unidpp_archive.Model.Journal.{to_journal_json, from_journal_json}
use unidpp_archive.Model.Journal.RoundTrip.{from_journal_json-to_journal_json}
use unidpp_archive.Model.Rebuild.{statement_bytes_from_document}
use unidpp_archive.Model.Rebuild.Agrees.{statement_bytes_from_document-to_document}
use unidpp_archive.Examples.Service.{sample, sample_documented, kept, kept-IsJournalable}

from_journal_json-to_journal_json_example :
    from_journal_json sample (to_journal_json sample (kept 3)) ≡ ok (kept 3)
from_journal_json-to_journal_json_example =
    from_journal_json-to_journal_json sample sample_documented (kept 3)
      (kept-IsJournalable 3 (omega arith))

statement_bytes_from_document-to_document_example :
    statement_bytes_from_document sample (to_document sample (kept 3))
    ≡ ok (statement_bytes sample (kept 3))
unfolding unanchored
statement_bytes_from_document-to_document_example =
    statement_bytes_from_document-to_document sample sample_documented (kept 3)
      (omega arith, omega arith) tt tt

parse-to_string_example :
    parse (Time.to_string (from_secs (pos 1000000))) ≡ ok (from_secs (pos 1000000))
parse-to_string_example = parse-to_string (from_secs (pos 1000000)) (omega arith, omega arith)

hex_decode-hex_encode_example :
    hex_decode (hex_encode (0 ∷ 171 ∷ 255 ∷ [])) ≡ ok (0 ∷ 171 ∷ 255 ∷ [])
hex_decode-hex_encode_example =
    hex_decode-hex_encode (0 ∷ 171 ∷ 255 ∷ []) (omega arith, (omega arith, (omega arith, tt)))

hex_encode-hex_decode_example : (hex_encode (255 ∷ []) ≡ text "ff") × All IsByte (255 ∷ [])
unfolding text hex_decode trim strip_prefix
hex_encode-hex_decode_example = hex_encode-hex_decode (text " 0xFf") (255 ∷ []) refl

days_from_civil-civil_from_days_example :
    days_from_civil
      (civil_from_days (negsuc 0)).0
      (civil_from_days (negsuc 0)).1
      (civil_from_days (negsuc 0)).2
    ≡ negsuc 0
days_from_civil-civil_from_days_example = days_from_civil-civil_from_days (negsuc 0)

civil_from_days-days_from_civil_example :
    civil_from_days (days_from_civil (pos 2024) 2 29) ≡ (pos 2024, 2, 29)
unfolding days_in_month is_leap_year
civil_from_days-days_from_civil_example =
    civil_from_days-days_from_civil (pos 2024) 2 29
      (record { month_in = (omega arith, omega arith); day_in = (omega arith, omega arith) })

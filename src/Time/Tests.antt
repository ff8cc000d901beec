-- ===== src/Time/Tests.antt =====
-- Timestamps of src/time.rs on concrete texts.
use unidpp_archive.Prelude.{◌≡◌, refl}
use unidpp_archive.Prelude.Int.{pos, negsuc, ◌+ℤ◌, ◌-ℤ◌, ◌*ℤ◌, quot, div_euclid, rem_euclid}
use unidpp_archive.Result.{ok}
use unidpp_archive.Text.{text}
use unidpp_archive.Text.Decimal.{pad_zero}
use unidpp_archive.Civil.{days_in_month, era_of, days_from_civil, civil_from_days}
use unidpp_archive.Time.{
  digits, parse_date, parse_clock, parse_zone, parse_offset, skip_fraction, parse, to_string,
  show_year, from_secs,
}

unfolded : Unit {0}
unfolding digits parse_date parse_clock parse_zone parse_offset skip_fraction parse to_string
    show_year days_in_month era_of days_from_civil civil_from_days ◌+ℤ◌ ◌-ℤ◌ ◌*ℤ◌ quot div_euclid
    rem_euclid text pad_zero
unfolded = tt

runs :
    (parse (text "1970-01-01T00:00:00Z") ≡ ok (from_secs (pos 0)))
    × (parse (text "2026-09-07T13:45:09.250Z") ≡ parse (text "2026-09-07 13:45:09"))
    × (parse (text "0000-01-01") ≡ ok (from_secs (negsuc 62167219199)))
    × (to_string (from_secs (pos 1000000)) ≡ text "1970-01-12T13:46:40Z")
    × (to_string (from_secs (negsuc 62167219200)) ≡ text "-001-12-31T23:59:59Z")
unfolding unfolded
runs = (refl, refl, refl, refl, refl)

-- ===== src/Time/Display.antt =====
-- The text of a timestamp of src/time.rs, and its parser.
use unidpp_archive.Prelude.{
  ℕ, ◌*◌, ◌/◌, ◌%◌, ◌≤◌, ◌<◌, ◌≡◌, refl, ap, ◌∙◌, some, [], ◌∷◌, ◌++◌, arith,
}
use unidpp_archive.Prelude.Int.{ℤ, pos, negsuc, ◌≤ℤ◌, ◌+ℤ◌, ◌-ℤ◌, ◌*ℤ◌, div_euclid, rem_euclid}
use unidpp_archive.Result.{ok}
use unidpp_archive.Text.{Str}
use unidpp_archive.Text.Decimal.{pad_zero, last_digits, pad_zero-last_digits}
use unidpp_archive.Civil.{days_in_month, days_from_civil, civil_from_days}
use unidpp_archive.Civil.Leap.{IsDate}
use unidpp_archive.Civil.Inverse.{days_from_civil-civil_from_days}
use unidpp_archive.Civil.Range.{
  first_day, last_day, civil_from_days-IsDate, civil_from_days-IsShortYear,
}
use unidpp_archive.Time.{
  Timestamp, from_secs, digits, read_digits, parse_date, parse_clock, skip_fraction, parse_zone,
  parse, show_year, to_string,
}

-- The twenty characters `yyyy-mm-ddThh:mm:ssZ`.
abbrev layout : ℕ → ℕ → ℕ → ℕ → ℕ → ℕ → Str
layout y m d hour min sec =
    last_digits 4 y
    ++ (b'-' ∷ last_digits 2 m)
    ++ (b'-' ∷ last_digits 2 d)
    ++ (b'T' ∷ last_digits 2 hour)
    ++ (b':' ∷ last_digits 2 min)
    ++ (b':' ∷ last_digits 2 sec)
    ++ b'Z' ∷ []

read_two : (n : ℕ) → n < 100 → read_digits 0 (last_digits 2 n) ≡ some n
unfolding read_digits
read_two n lt = ground arith

read_four : (n : ℕ) → n < 10000 → read_digits 0 (last_digits 4 n) ≡ some n
unfolding read_digits
read_four n lt = ground arith

module _ (y m d hour min sec : ℕ) where
  parse_date-layout :
      y < 10000
      → IsDate (pos y) m d
      → d < 100
      → parse_date (layout y m d hour min sec) ≡ ok (record { year = y; month = m; day = d })
  unfolding parse_date digits
  parse_date-layout hy date hd =
      rw (read_four y hy, read_two m (omega (arith, date.month_in)), read_two d hd)
        (ground (arith, date.month_in, date.day_in))

  parse_clock-layout :
      hour < 24
      → min < 60
      → sec < 60
      → parse_clock (layout y m d hour min sec)
        ≡ ok (record { hour = hour; min = min; sec = sec; end = 19 })
  unfolding parse_clock digits skip_fraction
  parse_clock-layout hh hm hs =
      rw (read_two hour (omega arith), read_two min (omega arith), read_two sec (omega arith))
        (ground arith)

  parse_zone-layout : parse_zone (layout y m d hour min sec) 19 ≡ ok (pos 0)
  unfolding parse_zone
  parse_zone-layout = refl

  parse-layout :
      y < 10000
      → IsDate (pos y) m d
      → d < 100
      → hour < 24
      → min < 60
      → sec < 60
      → parse (layout y m d hour min sec)
        ≡ ok (
            from_secs (
              days_from_civil (pos y) m d *ℤ pos 86400
              +ℤ pos (hour * 3600)
              +ℤ pos (min * 60)
              +ℤ pos sec
              -ℤ pos 0))
  unfolding parse
  parse-layout hy date hd hh hm hs =
      rw (parse_date-layout hy date hd, parse_clock-layout hh hm hs, parse_zone-layout)

  pad_zero-layout :
      y < 10000
      → m < 100
      → d < 100
      → hour < 100
      → min < 100
      → sec < 100
      → pad_zero 4 y
          ++ (b'-' ∷ pad_zero 2 m)
          ++ (b'-' ∷ pad_zero 2 d)
          ++ (b'T' ∷ pad_zero 2 hour)
          ++ (b':' ∷ pad_zero 2 min)
          ++ (b':' ∷ pad_zero 2 sec)
          ++ b'Z' ∷ []
        ≡ layout y m d hour min sec
  pad_zero-layout hy hm hd hh hi hs = rw (
    pad_zero-last_digits 3 y (omega arith) hy,
    pad_zero-last_digits 1 m (omega arith) hm,
    pad_zero-last_digits 1 d (omega arith) hd,
    pad_zero-last_digits 1 hour (omega arith) hh,
    pad_zero-last_digits 1 min (omega arith) hi,
    pad_zero-last_digits 1 sec (omega arith) hs,
  )

-- From 0000-01-01T00:00:00Z to 9999-12-31T23:59:59Z.
abbrev pub InYears : Timestamp → Type 0
InYears t = (negsuc 62167219199 ≤ℤ t.secs) × (t.secs ≤ℤ pos 253402300799)

days_in_years :
    (t : Timestamp)
    → InYears t
    → (first_day ≤ℤ div_euclid t.secs 86400) × (div_euclid t.secs 86400 ≤ℤ last_day)
unfolding div_euclid
days_in_years t h = ground arith

rem_euclid-lt : (s : ℤ) → rem_euclid s 86400 < 86400
unfolding rem_euclid
rem_euclid-lt s = ground arith

-- The parts of the day make up the seconds.
secs_of_parts :
    (s : ℤ)
    → div_euclid s 86400 *ℤ pos 86400
        +ℤ pos (rem_euclid s 86400 / 3600 * 3600)
        +ℤ pos (rem_euclid s 86400 % 3600 / 60 * 60)
        +ℤ pos (rem_euclid s 86400 % 60)
        -ℤ pos 0
      ≡ s
unfolding div_euclid rem_euclid ◌+ℤ◌ ◌-ℤ◌ ◌*ℤ◌
secs_of_parts (pos n) = ground arith
secs_of_parts (negsuc n) = ground arith

days_in_month-le : (y : ℤ) (m : ℕ) → days_in_month y m ≤ 31
unfolding days_in_month
days_in_month-le y m = ground arith

-- The date of a timestamp, with its year as a number.
module _ (t : Timestamp) (n : ℕ)
    (year : (civil_from_days (div_euclid t.secs 86400)).0 ≡ pos n) where
  month : ℕ
  month = (civil_from_days (div_euclid t.secs 86400)).1

  day : ℕ
  day = (civil_from_days (div_euclid t.secs 86400)).2

  IsDate-of_timestamp : IsDate (pos n) month day
  unfolding month day
  IsDate-of_timestamp = rw (← year) (civil_from_days-IsDate (div_euclid t.secs 86400))

  abbrev rem : ℕ
  rem = rem_euclid t.secs 86400

  to_string-layout :
      n < 10000 → to_string t ≡ layout n month day (rem / 3600) (rem % 3600 / 60) (rem % 60)
  unfolding to_string show_year month day
  to_string-layout lt = rw year (
      pad_zero-layout n month day (rem / 3600) (rem % 3600 / 60) (rem % 60) lt
        (omega (arith, IsDate-of_timestamp))
        (omega (arith, IsDate-of_timestamp, days_in_month-le (pos n) month))
        (omega (arith, rem_euclid-lt t.secs)) (omega arith) (omega arith))

  parse-to_string_at : n < 10000 → parse (to_string t) ≡ ok t
  unfolding month day
  parse-to_string_at lt = rw (to_string-layout lt) (
      parse-layout n month day (rem / 3600) (rem % 3600 / 60) (rem % 60) lt IsDate-of_timestamp
        (omega (arith, IsDate-of_timestamp, days_in_month-le (pos n) month))
        (omega (arith, rem_euclid-lt t.secs)) (omega arith) (omega arith)
      ∙ ap (λ s. ok (from_secs s))
          (rw (← year, days_from_civil-civil_from_days (div_euclid t.secs 86400))
            (secs_of_parts t.secs)))

-- A timestamp from 0000-01-01T00:00:00Z to 9999-12-31T23:59:59Z is parsed back from its text.
pub parse-to_string : (t : Timestamp) → InYears t → parse (to_string t) ≡ ok t
parse-to_string t h =
    let range = days_in_years t h in
    let (n, lt, year) = civil_from_days-IsShortYear (div_euclid t.secs 86400) range.0 range.1 in
    parse-to_string_at t n year lt

-- ===== src/Time.antt =====
-- src/time.rs: timestamps in whole seconds, their RFC 3339 text, and the strict parser. `now` is the
-- clock of the machine, which the other modules take as an argument. A position in the text that
-- the source reads with `b[i]` is read here after the same length test, so `byte_at` never meets
-- its default there.
pub mod Tests
pub mod Display
use unidpp_archive.Prelude.{
  ℕ, zero, suc, ◌+◌, ◌-◌, ◌*◌, ◌/◌, ◌%◌, Bool, ◌&&◌, ◌||◌, not, true, false, Option, none, some,
  List, [], ◌∷◌, ◌++◌, ltb, leb, ◌==◌, if◌then◌else◌, length, take, drop, get_elem?,
}
use unidpp_archive.Prelude.Int.{ℤ, pos, negsuc, ◌+ℤ◌, ◌-ℤ◌, ◌*ℤ◌, leb_ℤ, div_euclid, rem_euclid}
use unidpp_archive.Result.{Result, ok, err, ◌>>=◌, ◌>>◌, ok_or, fail_if}
use unidpp_archive.Text.{Str, text, is_ascii_digit}
use unidpp_archive.Text.Decimal.{pad_zero}
use unidpp_archive.Civil.{days_in_month, days_from_civil, civil_from_days}

-- `secs` is an `i64`: seconds since the UNIX epoch.
pub record Timestamp : Type 0 where
  pub secs : ℤ

abbrev pub from_secs : ℤ → Timestamp
from_secs secs = record { secs = secs }

-- The order that is derived for `Timestamp`.
abbrev pub leb_timestamp : Timestamp → Timestamp → Bool
leb_timestamp a b = leb_ℤ a.secs b.secs

-- The error holds the text that was not understood.
pub record TimeParseError : Type 0 where
  pub input : Str

abbrev pub invalid : Str → TimeParseError
invalid input = record { input = input }

-- `Display` of the error.
unfoldable pub show_time_parse_error : TimeParseError → Str
show_time_parse_error e = text "invalid timestamp `" ++ e.input ++ text "` (expected RFC 3339 UTC)"

-- The byte at a position, and a number that is no byte past the end.
abbrev pub byte_at : Str → ℕ → ℕ
byte_at [] i = 256
byte_at (c ∷ s) zero = c
byte_at (c ∷ s) (suc i) = byte_at s i

-- The loop of `digits`.
unfoldable pub read_digits : ℕ → Str → Option ℕ
read_digits v [] = some v
read_digits v (c ∷ s) = if not (is_ascii_digit c) then none else read_digits (v * 10 + (c - b'0')) s

-- Only two or four digits are read, so the value is small and not negative.
unfoldable pub digits : Str → ℕ → ℕ → Option ℕ
unfolding read_digits
digits b at len = if ltb (length b) (at + len) then none else read_digits 0 (take len (drop at b))

pub record ParsedDate : Type 0 where
  pub year : ℕ
  pub month : ℕ
  pub day : ℕ

-- The first ten bytes.
unfoldable pub parse_date : Str → Result TimeParseError ParsedDate
parse_date b = do
  let e = invalid b
  fail_if (ltb (length b) 10) e
  year ← ok_or (digits b 0 4) e
  fail_if (not (byte_at b 4 == b'-')) e
  month ← ok_or (digits b 5 2) e
  fail_if (not (byte_at b 7 == b'-')) e
  day ← ok_or (digits b 8 2) e
  fail_if (not (leb 1 month && leb month 12)) e
  fail_if (ltb day 1 || ltb (days_in_month (pos year) month) day) e
  ok (record { year = year; month = month; day = day })

-- `end` is the position behind what has been read.
pub record ParsedClock : Type 0 where
  pub hour : ℕ
  pub min : ℕ
  pub sec : ℕ
  pub end : ℕ

-- The loop over the digits of a fraction; it ends at the latest at the end of the text.
unfoldable pub skip_digits : ℕ → Str → ℕ → ℕ
skip_digits zero b at = at
skip_digits (suc fuel) b at = elim (ltb at (length b) && is_ascii_digit (byte_at b at)) [
  | true ↦ skip_digits fuel b (at + 1)
  | false ↦ at
]

unfoldable pub skip_fraction : Str → ℕ → ℕ
unfolding skip_digits
skip_fraction b at =
    if ltb at (length b) && byte_at b at == b'.' then skip_digits (length b) b (at + 1) else at

-- The time of day, if the text goes on with `T`, `t` or a space.
unfoldable pub parse_clock : Str → Result TimeParseError ParsedClock
parse_clock b =
    if ltb 10 (length b) && (byte_at b 10 == b'T' || byte_at b 10 == b't' || byte_at b 10 == b' ')
    then (do
      let e = invalid b
      fail_if (ltb (length b) 19) e
      hour ← ok_or (digits b 11 2) e
      fail_if (not (byte_at b 13 == b':')) e
      min ← ok_or (digits b 14 2) e
      fail_if (not (byte_at b 16 == b':')) e
      sec ← ok_or (digits b 17 2) e
      fail_if (ltb 23 hour || ltb 59 min || ltb 59 sec) e
      ok (record { hour = hour; min = min; sec = sec; end = skip_fraction b 19 }))
    else ok (record { hour = 0; min = 0; sec = 0; end = 10 })

-- The zone `+hh:mm` or `+hhmm` whose sign stands at `at`: the offset in seconds.
unfoldable pub parse_offset : Str → ℕ → Result TimeParseError ℤ
parse_offset b at = do
  let e = invalid b
  oh ← ok_or (digits b (at + 1) 2) e
  let minutes = if ltb (at + 3) (length b) && byte_at b (at + 3) == b':' then at + 4 else at + 3
  om ← ok_or (digits b minutes 2) e
  fail_if (ltb 23 oh || ltb 59 om) e
  fail_if (not (minutes + 2 == length b)) e
  let offset = oh * 3600 + om * 60
  ok (if byte_at b at == b'-' then pos 0 -ℤ pos offset else pos offset)

-- The zone at the end of the text; no zone is UTC.
unfoldable pub parse_zone : Str → ℕ → Result TimeParseError ℤ
parse_zone b at =
    if ltb at (length b)
    then (if byte_at b at == b'Z' || byte_at b at == b'z'
        then (do fail_if (not (at + 1 == length b)) (invalid b); ok (pos 0))
        else if byte_at b at == b'+' || byte_at b at == b'-'
        then parse_offset b at
        else err (invalid b))
    else ok (pos 0)

-- `Timestamp::parse`
unfoldable pub parse : Str → Result TimeParseError Timestamp
parse b = do
  date ← parse_date b
  clock ← parse_clock b
  offset ← parse_zone b clock.end
  let days = days_from_civil (pos date.year) date.month date.day
  ok (
      from_secs (
        days *ℤ pos 86400
        +ℤ pos (clock.hour * 3600)
        +ℤ pos (clock.min * 60)
        +ℤ pos clock.sec
        -ℤ offset))

-- `{:04}` of an `i64`: the sign counts for the width.
unfoldable pub show_year : ℤ → Str
show_year (pos n) = pad_zero 4 n
show_year (negsuc n) = b'-' ∷ pad_zero 3 (suc n)

-- `Display` of `Timestamp`.
unfoldable pub to_string : Timestamp → Str
to_string t =
    let days = div_euclid t.secs 86400 in
    let rem = rem_euclid t.secs 86400 in
    let (year, month, day) = civil_from_days days in
    show_year year
    ++ (b'-' ∷ pad_zero 2 month)
    ++ (b'-' ∷ pad_zero 2 day)
    ++ (b'T' ∷ pad_zero 2 (rem / 3600))
    ++ (b':' ∷ pad_zero 2 (rem % 3600 / 60))
    ++ (b':' ∷ pad_zero 2 (rem % 60))
    ++ b'Z' ∷ []

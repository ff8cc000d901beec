-- ===== src/Civil.antt =====
-- The proleptic Gregorian calendar of src/time.rs: leap years, month lengths, and the conversions
-- between dates and day numbers (day 0 is 1970-01-01). Where the source keeps in an `i64` or a
-- `u32` a value that cannot be negative, the model keeps a number: `pos_part` takes it out of the
-- integer that it is computed as.
pub mod Era
pub mod Kernel
pub mod March
pub mod Leap
pub mod Inverse
pub mod Range
use unidpp_archive.Prelude.{
  ℕ, ◌+◌, ◌-◌, ◌*◌, ◌/◌, ◌%◌, Bool, ◌&&◌, ◌||◌, not, ltb, leb, ◌==◌, if◌then◌else◌,
}
use unidpp_archive.Prelude.Int.{ℤ, pos, pos_part, neg_part, ◌+ℤ◌, ◌-ℤ◌, ◌*ℤ◌, leb_ℤ, quot}

-- `y % k == 0` of an `i64`, whose remainder has the sign of `y`.
abbrev pub is_multiple : ℤ → ℕ → Bool
is_multiple y k = (pos_part y + neg_part y) % k == 0

unfoldable pub is_leap_year : ℤ → Bool
is_leap_year y = is_multiple y 4 && not (is_multiple y 100) || is_multiple y 400

unfoldable pub days_in_month : ℤ → ℕ → ℕ
unfolding is_leap_year
days_in_month y m =
    if m == 1 || m == 3 || m == 5 || m == 7 || m == 8 || m == 10 || m == 12
    then 31
    else if m == 4 || m == 6 || m == 9 || m == 11
    then 30
    else if m == 2
    then (if is_leap_year y then 29 else 28)
    else 0

-- The division that both conversions round down by hand: `{ if a >= 0 { a } else { a - (k - 1) } } / k`.
unfoldable pub era_of : ℤ → ℕ → ℤ
era_of a k = quot (if leb_ℤ (pos 0) a then a else a -ℤ pos (k - 1)) k

unfoldable pub days_from_civil : ℤ → ℕ → ℕ → ℤ
days_from_civil year m d =
    let y = if leb m 2 then year -ℤ pos 1 else year in
    let era = era_of y 400 in
    let yoe = pos_part (y -ℤ era *ℤ pos 400) in
    let mp = if ltb 2 m then m - 3 else m + 9 in
    let doy = pos ((153 * mp + 2) / 5) +ℤ pos d -ℤ pos 1 in
    let doe = pos (yoe * 365 + yoe / 4 - yoe / 100) +ℤ doy in era *ℤ pos 146097 +ℤ doe -ℤ pos 719468

unfoldable pub civil_from_days : ℤ → ℤ × ℕ × ℕ
civil_from_days day =
    let z = day +ℤ pos 719468 in
    let era = era_of z 146097 in
    let doe = pos_part (z -ℤ era *ℤ pos 146097) in
    let yoe = (doe - doe / 1460 + doe / 36524 - doe / 146096) / 365 in
    let y = pos yoe +ℤ era *ℤ pos 400 in
    let doy = doe - (365 * yoe + yoe / 4 - yoe / 100) in
    let mp = (5 * doy + 2) / 153 in
    let d = doy - (153 * mp + 2) / 5 + 1 in
    let m = if ltb mp 10 then mp + 3 else mp - 9 in (if leb m 2 then y +ℤ pos 1 else y, m, d)

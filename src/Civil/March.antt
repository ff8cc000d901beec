-- ===== src/Civil/March.antt =====
-- The conversions in terms of eras and of years that begin in March.
use unidpp_archive.Prelude.{
  ℕ, suc, ◌+◌, ◌-◌, ◌≤◌, ◌<◌, ◌≡◌, refl, true, false, ap, ap₂, ◌∙◌, arith, ltb, leb, if◌then◌else◌,
  Bool-cases, inl, inr,
}
use unidpp_archive.Prelude.Int.{ℤ, pos, pos_part, ◌+ℤ◌, ◌-ℤ◌, ◌*ℤ◌, int_laws}
use unidpp_archive.Civil.{era_of, days_from_civil, civil_from_days}
use unidpp_archive.Civil.Era.{era_of_400, rest_of_era, era_of_146097}
use unidpp_archive.Civil.Kernel.{
  yoe_of, year_start, doy_of, mp_of, month_start, yoe-lt, year_start_le, doy-le, mp-lt,
  month_start_le, IsDayOfYear, yoe_of-year_start, mp_of-month_start,
}

-- The civil month of a month counted from March.
abbrev pub month_of : ℕ → ℕ
month_of mp = if ltb mp 10 then mp + 3 else mp - 9

-- The year to which a month counted from March belongs.
abbrev pub year_of : ℤ → ℕ → ℤ
year_of y mp = if leb (month_of mp) 2 then y +ℤ pos 1 else y

-- The date on day `doy` of year `yoe` of era `e`.
abbrev pub date_of : ℤ → ℕ → ℕ → ℤ × ℕ × ℕ
date_of e yoe doy =
    let mp = mp_of doy in
    (year_of (pos yoe +ℤ e *ℤ pos 400) mp, month_of mp, doy - month_start mp + 1)

-- The date on day `doe` of era `e`.
abbrev pub date_in_era : ℤ → ℕ → ℤ × ℕ × ℕ
date_in_era e doe = date_of e (yoe_of doe) (doy_of doe)

pub civil_from_days-era :
    (z : ℤ)
    → civil_from_days z
      ≡ date_in_era
          (era_of (z +ℤ pos 719468) 146097)
          (pos_part (z +ℤ pos 719468 -ℤ era_of (z +ℤ pos 719468) 146097 *ℤ pos 146097))
unfolding civil_from_days
civil_from_days-era z = refl

-- The day number of day `doe` of era `e`.
abbrev pub day_in_era : ℤ → ℕ → ℤ
day_in_era e doe = e *ℤ pos 146097 +ℤ pos doe -ℤ pos 719468

-- The day number from the year that begins in March.
abbrev pub day_of_march_year : ℤ → ℕ → ℕ → ℤ
day_of_march_year y mp d =
    let era = era_of y 400 in
    let yoe = pos_part (y -ℤ era *ℤ pos 400) in
    era *ℤ pos 146097
    +ℤ (pos (year_start yoe) +ℤ (pos (month_start mp) +ℤ pos d -ℤ pos 1))
    -ℤ pos 719468

pub day_of_march_year-era :
    (e : ℤ) (yoe mp d : ℕ)
    → yoe < 400
    → day_of_march_year (e *ℤ pos 400 +ℤ pos yoe) mp (suc d)
      ≡ day_in_era e (year_start yoe + (month_start mp + d))
day_of_march_year-era e yoe mp d hy =
    rw (era_of_400 e yoe hy, rest_of_era e 400 yoe) (omega int_laws)

pub days_from_civil-early :
    (y : ℤ) (m d : ℕ) → m ≤ 2 → days_from_civil y m d ≡ day_of_march_year (y -ℤ pos 1) (m + 9) d
unfolding days_from_civil
days_from_civil-early y m d h =
    let first : leb m 2 ≡ true = ground arith in
    let second : ltb 2 m ≡ false = ground arith in rw (first, second)

pub days_from_civil-late :
    (y : ℤ) (m d : ℕ) → 2 < m → days_from_civil y m d ≡ day_of_march_year y (m - 3) d
unfolding days_from_civil
days_from_civil-late y m d h =
    let first : leb m 2 ≡ false = ground arith in
    let second : ltb 2 m ≡ true = ground arith in rw (first, second)

one_back : (y : ℤ) → y +ℤ pos 1 -ℤ pos 1 ≡ y
one_back y = omega int_laws

pub days_from_civil-march :
    (y : ℤ) (mp d : ℕ)
    → mp < 12
    → days_from_civil (year_of y mp) (month_of mp) d ≡ day_of_march_year y mp d
days_from_civil-march y mp d hm = elim (Bool-cases (ltb mp 10)) [
  | inl small ↦
      let later : leb (mp + 3) 2 ≡ false = ground arith in
      let back : mp + 3 - 3 ≡ mp = omega arith in
      rw (small, later)
        (days_from_civil-late y (mp + 3) d (omega arith) ∙ ap (λ k. day_of_march_year y k d) back)
  | inr large ↦
      let early : leb (mp - 9) 2 ≡ true = ground arith in
      let back : mp - 9 + 9 ≡ mp = ground arith in
      rw (large, early)
        (days_from_civil-early (y +ℤ pos 1) (mp - 9) d (ground arith)
          ∙ ap₂ (λ u k. day_of_march_year u k d) (one_back y) back)
]

pub swap_year : (e : ℤ) (yoe : ℕ) → pos yoe +ℤ e *ℤ pos 400 ≡ e *ℤ pos 400 +ℤ pos yoe
swap_year e yoe = omega int_laws

pub days_from_civil-date_in_era :
    (e : ℤ) (doe : ℕ)
    → doe < 146097
    → days_from_civil (date_in_era e doe).0 (date_in_era e doe).1 (date_in_era e doe).2
      ≡ day_in_era e doe
days_from_civil-date_in_era e doe lt =
    let yoe = yoe_of doe in
    let mp = mp_of (doy_of doe) in
    let d = doy_of doe - month_start mp in
    let count : d + 1 ≡ suc d = omega arith in
    let total : year_start yoe + (month_start mp + d) ≡ doe =
      omega (arith, year_start_le doe lt, month_start_le (doy_of doe) (doy-le doe lt)) in
    days_from_civil-march (pos yoe +ℤ e *ℤ pos 400) mp (d + 1) (mp-lt (doy_of doe) (doy-le doe lt))
    ∙ (ap₂ (λ y k. day_of_march_year y mp k) (swap_year e yoe) count
        ∙ (day_of_march_year-era e yoe mp d (yoe-lt doe lt) ∙ ap (day_in_era e) total))

from_epoch : (w : ℤ) → w -ℤ pos 719468 +ℤ pos 719468 ≡ w
from_epoch w = omega int_laws

pub civil_from_days-day_in_era :
    (e : ℤ) (doe : ℕ) → doe < 146097 → civil_from_days (day_in_era e doe) ≡ date_in_era e doe
civil_from_days-day_in_era e doe lt =
    civil_from_days-era (day_in_era e doe)
    ∙ rw (from_epoch (e *ℤ pos 146097 +ℤ pos doe), era_of_146097 e doe lt, rest_of_era e 146097 doe)

-- A day of a month lies in the year that begins in March.
abbrev pub IsDayOfMonth : ℕ → ℕ → ℕ → Type 0
IsDayOfMonth yoe mp k =
    (month_start mp + k < month_start (mp + 1)) × IsDayOfYear yoe (month_start mp + k)

pub date_in_era-day :
    (e : ℤ) (yoe mp k : ℕ)
    → yoe < 400
    → mp < 12
    → IsDayOfMonth yoe mp k
    → date_in_era e (year_start yoe + (month_start mp + k))
      ≡ (year_of (e *ℤ pos 400 +ℤ pos yoe) mp, month_of mp, suc k)
date_in_era-day e yoe mp k hy hm h =
    let doy = month_start mp + k in
    let same_year = yoe_of-year_start yoe doy hy h.1 in
    let same_day : doy_of (year_start yoe + doy) ≡ doy = rw same_year (omega arith) in
    let same_month = mp_of-month_start mp k hm h.0 in
    let count : doy - month_start mp + 1 ≡ suc k = omega arith in
    ap₂ (λ u t. date_of e u t) same_year same_day
    ∙ (ap (λ j. (year_of (pos yoe +ℤ e *ℤ pos 400) j, month_of j, doy - month_start j + 1))
          same_month
        ∙ ap₂ {C = ℤ × ℕ × ℕ} (λ y t. (year_of y mp, month_of mp, t)) (swap_year e yoe) count)

-- A day of month `mp` of year `yoe` of era `e` is found again.
pub civil_from_days-march :
    (e : ℤ) (yoe mp k : ℕ)
    → yoe < 400
    → mp < 12
    → IsDayOfMonth yoe mp k
    → civil_from_days (day_of_march_year (e *ℤ pos 400 +ℤ pos yoe) mp (suc k))
      ≡ (year_of (e *ℤ pos 400 +ℤ pos yoe) mp, month_of mp, suc k)
civil_from_days-march e yoe mp k hy hm h =
    ap civil_from_days (day_of_march_year-era e yoe mp k hy)
    ∙ (civil_from_days-day_in_era e (year_start yoe + (month_start mp + k)) (omega (arith, h.1))
        ∙ date_in_era-day e yoe mp k hy hm h)

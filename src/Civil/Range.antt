-- ===== src/Civil/Range.antt =====
-- The dates that `civil_from_days` of src/time.rs gives.
use native.Mathlib.Decide.{dec_lt}
use unidpp_archive.Prelude.{
  zero, ◌⊎◌, ℕ, suc, ◌+◌, ◌-◌, ◌*◌, ◌≤◌, ◌<◌, ◌≡◌, refl, true, false, ap, subst, ◌∙◌, arith, ltb,
  leb, Bool-cases, inl, inr, ltb→lt,
}
use unidpp_archive.Prelude.Int.{ℤ, pos, negsuc, pos_part, ◌≤ℤ◌, ◌+ℤ◌, ◌-ℤ◌, ◌*ℤ◌, int_laws}
use unidpp_archive.Civil.{is_leap_year, days_in_month, era_of, civil_from_days}
use unidpp_archive.Civil.Era.{era_split}
use unidpp_archive.Civil.March.{year_of, date_of, date_in_era, civil_from_days-era}
use unidpp_archive.Civil.Leap.{IsDate, multiple_of_4, multiple_of_100, multiple_of_400}
use unidpp_archive.Civil.Kernel.{
  yoe_of, doy_of, mp_of, month_start, doy-le, mp-lt, HasLeapDay, IsDayOfYear, doy_IsDayOfYear,
}

HasLeapDay-leap :
    (e : ℤ) (yoe : ℕ) → HasLeapDay yoe → is_leap_year (e *ℤ pos 400 +ℤ pos (yoe + 1)) ≡ true
unfolding is_leap_year
HasLeapDay-leap e yoe h =
    ground
      (arith, multiple_of_4 e (yoe + 1), multiple_of_100 e (yoe + 1), multiple_of_400 e (yoe + 1))

late_month :
    (y : ℤ) (doy : ℕ)
    → mp_of doy < 10
    → IsDate y (mp_of doy + 3) (doy - month_start (mp_of doy) + 1)
unfolding days_in_month
late_month y doy lt = ground arith

early_month :
    (e : ℤ) (yoe doy : ℕ)
    → 10 ≤ mp_of doy
    → IsDayOfYear yoe doy
    → IsDate (e *ℤ pos 400 +ℤ pos (yoe + 1)) (mp_of doy - 9) (doy - month_start (mp_of doy) + 1)
unfolding days_in_month
early_month e yoe doy le h = ground (arith, HasLeapDay-leap e yoe)

year_after : (e : ℤ) (yoe : ℕ) → e *ℤ pos 400 +ℤ pos (yoe + 1) ≡ pos yoe +ℤ e *ℤ pos 400 +ℤ pos 1
year_after e yoe = omega int_laws

date_of-IsDate :
    (e : ℤ) (yoe doy : ℕ)
    → IsDayOfYear yoe doy
    → IsDate (date_of e yoe doy).0 (date_of e yoe doy).1 (date_of e yoe doy).2
date_of-IsDate e yoe doy h = elim (Bool-cases (ltb (mp_of doy) 10)) [
  | inl small ↦
      let later : leb (mp_of doy + 3) 2 ≡ false = ground arith in
      rw (small, later) (late_month (pos yoe +ℤ e *ℤ pos 400) doy (ltb→lt (mp_of doy) 10 small))
  | inr large ↦
      let early : leb (mp_of doy - 9) 2 ≡ true = ground (arith, h) in
      rw (large, early, ← year_after e yoe) (early_month e yoe doy (ground arith) h)
]

-- The date of every day exists: its month is 1 to 12 and its day is within the month of its year.
pub civil_from_days-IsDate :
    (z : ℤ) → IsDate (civil_from_days z).0 (civil_from_days z).1 (civil_from_days z).2
civil_from_days-IsDate z =
    let w = z +ℤ pos 719468 in
    let e = era_of w 146097 in
    let doe = pos_part (w -ℤ e *ℤ pos 146097) in
    rw (civil_from_days-era z)
      (date_of-IsDate e (yoe_of doe) (doy_of doe) (doy_IsDayOfYear doe (era_split w).0))

-- Year 0 begins on this day, and year 9999 ends on the other.
abbrev pub first_day : ℤ
first_day = negsuc 719527

abbrev pub last_day : ℤ
last_day = pos 2932896

-- A number of at most four digits.
abbrev pub IsShortYear : ℤ → Type 0
IsShortYear y = (n : ℕ) × (n < 10000) × (y ≡ pos n)

short_year : (y : ℤ) → pos 0 ≤ℤ y → y ≤ℤ pos 9999 → IsShortYear y
short_year (pos n) lo hi = (n, omega arith, refl)
short_year (negsuc n) lo hi = absurd (omega arith)

year_of-late : (y : ℤ) (mp : ℕ) → mp < 10 → year_of y mp ≡ y
year_of-late y mp lt =
    let small : ltb mp 10 ≡ true = ground arith in
    let later : leb (mp + 3) 2 ≡ false = ground arith in rw (small, later)

year_of-early : (y : ℤ) (mp : ℕ) → 10 ≤ mp → mp < 12 → year_of y mp ≡ y +ℤ pos 1
year_of-early y mp le lt =
    let large : ltb mp 10 ≡ false = ground arith in
    let early : leb (mp - 9) 2 ≡ true = ground arith in rw (large, early)

-- The last sixty days of an era are the first of a civil year.
year_zero : (doe : ℕ) → doe < 146097 → 146037 ≤ doe → (date_in_era (negsuc 0) doe).0 ≡ pos 0
year_zero doe lt le =
    let year : yoe_of doe ≡ 399 = omega arith in
    let month : 10 ≤ mp_of (doy_of doe) = omega arith in
    year_of-early _ (mp_of (doy_of doe)) month (mp-lt (doy_of doe) (doy-le doe lt))
    ∙ ap (λ yoe. pos yoe +ℤ negsuc 0 *ℤ pos 400 +ℤ pos 1) year
    ∙ unfold ◌+ℤ◌ ◌*ℤ◌ in refl

year_upper :
    (k doe : ℕ)
    → doe < 146097
    → k * 146097 + doe ≤ 3652364
    → (yoe_of doe + k * 400 + 1 ≤ 9999)
      ⊎ ((mp_of (doy_of doe) < 10) × (yoe_of doe + k * 400 ≤ 9999))
year_upper k doe lt le = omega arith

year_positive :
    (k doe : ℕ)
    → doe < 146097
    → k * 146097 + doe ≤ 3652364
    → (pos 0 ≤ℤ (date_in_era (pos k) doe).0) × ((date_in_era (pos k) doe).0 ≤ℤ pos 9999)
year_positive k doe lt le = elim (dec_lt (mp_of (doy_of doe)) 10) [
  | yes small ↦
      rw (year_of-late (pos (yoe_of doe) +ℤ pos k *ℤ pos 400) (mp_of (doy_of doe)) small)
        (unfold ◌+ℤ◌ ◌*ℤ◌ in ground (arith, year_upper k doe))
  | no large ↦
      rw
        (year_of-early (pos (yoe_of doe) +ℤ pos k *ℤ pos 400) (mp_of (doy_of doe)) (omega arith)
          (mp-lt (doy_of doe) (doy-le doe lt)))
        (unfold ◌+ℤ◌ ◌*ℤ◌ in ground (arith, year_upper k doe))
]

year_in_range :
    (e : ℤ) (doe : ℕ)
    → doe < 146097
    → first_day +ℤ pos 719468 ≤ℤ e *ℤ pos 146097 +ℤ pos doe
    → e *ℤ pos 146097 +ℤ pos doe ≤ℤ last_day +ℤ pos 719468
    → (pos 0 ≤ℤ (date_in_era e doe).0) × ((date_in_era e doe).0 ≤ℤ pos 9999)
unfolding ◌+ℤ◌ ◌*ℤ◌
year_in_range (pos k) doe lt lo hi = year_positive k doe lt (ground arith)
year_in_range (negsuc zero) doe lt lo hi = rw (year_zero doe lt (ground arith)) (omega arith)
year_in_range (negsuc (suc k)) doe lt lo hi = absurd (ground arith)

-- Within these bounds the year has at most four digits.
pub civil_from_days-IsShortYear :
    (z : ℤ) → first_day ≤ℤ z → z ≤ℤ last_day → IsShortYear (civil_from_days z).0
civil_from_days-IsShortYear z lo hi =
    let w = z +ℤ pos 719468 in
    let e = era_of w 146097 in
    let doe = pos_part (w -ℤ e *ℤ pos 146097) in
    let bounds =
      year_in_range e doe (era_split w).0
        (subst (λ u. first_day +ℤ pos 719468 ≤ℤ u) (era_split w).1 (omega int_laws))
        (subst (λ u. u ≤ℤ last_day +ℤ pos 719468) (era_split w).1 (omega int_laws)) in
    rw (civil_from_days-era z) (short_year (date_in_era e doe).0 bounds.0 bounds.1)

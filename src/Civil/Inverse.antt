-- ===== src/Civil/Inverse.antt =====
-- The two conversions of src/time.rs, one after the other.
use unidpp_archive.Prelude.{
  ℕ, suc, ◌+◌, ◌-◌, ◌≤◌, ◌<◌, ◌≡◌, true, false, leb→le, sym, ap, ap₂, ◌∙◌, arith, leb, Bool-cases,
  inl, inr,
}
use unidpp_archive.Prelude.Int.{ℤ, pos, pos_part, neg_part, ◌+ℤ◌, ◌-ℤ◌, ◌*ℤ◌, int_laws}
use unidpp_archive.Civil.{era_of, days_from_civil, civil_from_days}
use unidpp_archive.Civil.Era.{era_split, year_split}
use unidpp_archive.Civil.March.{
  month_of, year_of, civil_from_days-era, day_of_march_year, days_from_civil-early,
  days_from_civil-late, days_from_civil-date_in_era, civil_from_days-march,
}
use unidpp_archive.Civil.Leap.{IsDate, early_day, late_day}

back_to_epoch : (z w : ℤ) → z +ℤ pos 719468 ≡ w → w -ℤ pos 719468 ≡ z
back_to_epoch z w h = rw (← h) (omega int_laws)

-- The day number of the date of a day is that day, for every integer.
pub days_from_civil-civil_from_days :
    (z : ℤ) → days_from_civil (civil_from_days z).0 (civil_from_days z).1 (civil_from_days z).2 ≡ z
days_from_civil-civil_from_days z =
    let w = z +ℤ pos 719468 in
    let e = era_of w 146097 in
    let doe = pos_part (w -ℤ e *ℤ pos 146097) in
    rw (civil_from_days-era z)
      (days_from_civil-date_in_era e doe (era_split w).0 ∙ back_to_epoch z _ (era_split w).1)

triple :
    {y y' : ℤ} {m m' d d' : ℕ}
    → y ≡ y'
    → m ≡ m'
    → d ≡ d'
    → ◌≡◌ {A = ℤ × ℕ × ℕ} (y, m, d) (y', m', d')
triple p q r = cc

next_year :
    (e y : ℤ) (yoe : ℕ) → y -ℤ pos 1 ≡ e *ℤ pos 400 +ℤ pos yoe → y ≡ e *ℤ pos 400 +ℤ pos (yoe + 1)
next_year e y yoe h = omega (int_laws, ap pos_part h, ap neg_part h)

-- January and February, which end the year that begins in March.
date_back-early :
    (e y : ℤ) (yoe m d : ℕ)
    → yoe < 400
    → y -ℤ pos 1 ≡ e *ℤ pos 400 +ℤ pos yoe
    → m ≤ 2
    → IsDate y m d
    → civil_from_days (days_from_civil y m d) ≡ (y, m, d)
date_back-early e y yoe m d hy same hi date =
    let next : y ≡ e *ℤ pos 400 +ℤ pos (yoe + 1) = next_year e y yoe same in
    let inside = early_day e yoe m d date.month_in.0 hi date.day_in.0 (rw next at date.day_in.1) in
    let count : suc (d - 1) ≡ d = omega (arith, date.day_in) in
    let month : month_of (m + 9) ≡ m = ground (arith, date.month_in) in
    let early : leb m 2 ≡ true = ground arith in
    let year : year_of (e *ℤ pos 400 +ℤ pos yoe) (m + 9) ≡ y =
      rw (month, early) (omega (int_laws, ap pos_part same, ap neg_part same)) in
    ap civil_from_days
      (days_from_civil-early y m d hi ∙ ap₂ (λ u k. day_of_march_year u (m + 9) k) same (sym count))
    ∙ (civil_from_days-march e yoe (m + 9) (d - 1) hy (omega arith) inside
        ∙ triple year month count)

date_back-late :
    (e y : ℤ) (yoe m d : ℕ)
    → yoe < 400
    → y ≡ e *ℤ pos 400 +ℤ pos yoe
    → 2 < m
    → IsDate y m d
    → civil_from_days (days_from_civil y m d) ≡ (y, m, d)
date_back-late e y yoe m d hy same lo date =
    let inside = late_day y yoe m d lo date.month_in.1 date.day_in.0 date.day_in.1 in
    let count : suc (d - 1) ≡ d = omega (arith, date.day_in) in
    let month : month_of (m - 3) ≡ m = ground (arith, date.month_in) in
    let late : leb m 2 ≡ false = ground arith in
    let year : year_of (e *ℤ pos 400 +ℤ pos yoe) (m - 3) ≡ y = rw (month, late) (sym same) in
    ap civil_from_days
      (days_from_civil-late y m d lo ∙ ap₂ (λ u k. day_of_march_year u (m - 3) k) same (sym count))
    ∙ (civil_from_days-march e yoe (m - 3) (d - 1) hy (omega (arith, date.month_in)) inside
        ∙ triple year month count)

-- The date of the day number of a date that exists is that date, for every year.
pub civil_from_days-days_from_civil :
    (y : ℤ) (m d : ℕ) → IsDate y m d → civil_from_days (days_from_civil y m d) ≡ (y, m, d)
civil_from_days-days_from_civil y m d date = elim (Bool-cases (leb m 2)) [
  | inl early ↦
      let split = year_split (y -ℤ pos 1) in
      date_back-early (era_of (y -ℤ pos 1) 400) y
        (pos_part (y -ℤ pos 1 -ℤ era_of (y -ℤ pos 1) 400 *ℤ pos 400)) m d split.0 split.1
        (leb→le m 2 early) date
  | inr late ↦
      let split = year_split y in
      date_back-late (era_of y 400) y (pos_part (y -ℤ era_of y 400 *ℤ pos 400)) m d split.0 split.1
        (ground arith) date
]

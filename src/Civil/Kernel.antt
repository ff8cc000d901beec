-- ===== src/Civil/Kernel.antt =====
-- Within one era of 400 years: the day of the era, the year of the era (from March), the day of that
-- year, and its month (from March) and day of month, as src/time.rs computes them.
use unidpp_archive.Prelude.{ℕ, ◌+◌, ◌-◌, ◌*◌, ◌/◌, ◌%◌, ◌≤◌, ◌<◌, ◌≡◌, ◌≢◌, ◌⊎◌, arith}

abbrev pub yoe_of : ℕ → ℕ
yoe_of doe = (doe - doe / 1460 + doe / 36524 - doe / 146096) / 365

abbrev pub year_start : ℕ → ℕ
year_start yoe = yoe * 365 + yoe / 4 - yoe / 100

abbrev pub doy_of : ℕ → ℕ
doy_of doe = doe - (365 * yoe_of doe + yoe_of doe / 4 - yoe_of doe / 100)

abbrev pub mp_of : ℕ → ℕ
mp_of doy = (5 * doy + 2) / 153

abbrev pub month_start : ℕ → ℕ
month_start mp = (153 * mp + 2) / 5

pub yoe-lt : (doe : ℕ) → doe < 146097 → yoe_of doe < 400
yoe-lt doe lt = omega arith

pub year_start_le : (doe : ℕ) → doe < 146097 → year_start (yoe_of doe) ≤ doe
year_start_le doe lt = omega arith

pub doy-le : (doe : ℕ) → doe < 146097 → doy_of doe ≤ 365
doy-le doe lt = omega arith

pub mp-lt : (doy : ℕ) → doy ≤ 365 → mp_of doy < 12
mp-lt doy le = omega arith

pub month_start_le : (doy : ℕ) → doy ≤ 365 → month_start (mp_of doy) ≤ doy
month_start_le doy le = omega arith

-- Year `yoe` of the era has a 366th day: the next civil year is a leap year.
abbrev pub HasLeapDay : ℕ → Type 0
HasLeapDay yoe = ((yoe + 1) % 4 ≡ 0) × (((yoe + 1) % 100 ≢ 0) ⊎ ((yoe + 1) % 400 ≡ 0))

abbrev pub IsDayOfYear : ℕ → ℕ → Type 0
IsDayOfYear yoe doy = (doy ≤ 364) ⊎ ((doy ≡ 365) × HasLeapDay yoe)

pub yoe_of-year_start :
    (yoe doy : ℕ) → yoe < 400 → IsDayOfYear yoe doy → yoe_of (year_start yoe + doy) ≡ yoe
yoe_of-year_start yoe doy lt h = ground arith

-- A day of month `mp` that lies before the next month.
pub mp_of-month_start :
    (mp k : ℕ)
    → mp < 12
    → month_start mp + k < month_start (mp + 1)
    → mp_of (month_start mp + k) ≡ mp
mp_of-month_start mp k lt h = omega arith

-- A day of the era is a day of its year.
pub doy_IsDayOfYear : (doe : ℕ) → doe < 146097 → IsDayOfYear (yoe_of doe) (doy_of doe)
doy_IsDayOfYear doe lt = ground arith

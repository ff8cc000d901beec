-- ===== src/Civil/Leap.antt =====
-- Where a civil date lies in the year that begins in March: months and leap days.
use unidpp_archive.Prelude.{ℕ, ◌+◌, ◌-◌, ◌%◌, ◌≤◌, ◌≡◌, true, arith, ◌==◌}
use unidpp_archive.Prelude.Int.{ℤ, pos, negsuc, ◌+ℤ◌, ◌*ℤ◌}
use unidpp_archive.Civil.{is_multiple, is_leap_year, days_in_month}
use unidpp_archive.Civil.March.{IsDayOfMonth}
use unidpp_archive.Civil.Kernel.{HasLeapDay}

pub record IsDate (y : ℤ) (m d : ℕ) : Type 0 where
  pub month_in : (1 ≤ m) × (m ≤ 12)
  pub day_in : (1 ≤ d) × (d ≤ days_in_month y m)

pub multiple_of_4 : (e : ℤ) (k : ℕ) → is_multiple (e *ℤ pos 400 +ℤ pos k) 4 ≡ (k % 4 == 0)
unfolding ◌+ℤ◌ ◌*ℤ◌
multiple_of_4 (pos e) k = ground arith
multiple_of_4 (negsuc e) k = ground arith

pub multiple_of_100 : (e : ℤ) (k : ℕ) → is_multiple (e *ℤ pos 400 +ℤ pos k) 100 ≡ (k % 100 == 0)
unfolding ◌+ℤ◌ ◌*ℤ◌
multiple_of_100 (pos e) k = ground arith
multiple_of_100 (negsuc e) k = ground arith

pub multiple_of_400 : (e : ℤ) (k : ℕ) → is_multiple (e *ℤ pos 400 +ℤ pos k) 400 ≡ (k % 400 == 0)
unfolding ◌+ℤ◌ ◌*ℤ◌
multiple_of_400 (pos e) k = ground arith
multiple_of_400 (negsuc e) k = ground arith

leap-HasLeapDay :
    (e : ℤ) (yoe : ℕ) → is_leap_year (e *ℤ pos 400 +ℤ pos (yoe + 1)) ≡ true → HasLeapDay yoe
unfolding is_leap_year
leap-HasLeapDay e yoe h =
    ground
      (arith, multiple_of_4 e (yoe + 1), multiple_of_100 e (yoe + 1), multiple_of_400 e (yoe + 1))

pub early_day :
    (e : ℤ) (yoe m d : ℕ)
    → 1 ≤ m
    → m ≤ 2
    → 1 ≤ d
    → d ≤ days_in_month (e *ℤ pos 400 +ℤ pos (yoe + 1)) m
    → IsDayOfMonth yoe (m + 9) (d - 1)
unfolding days_in_month
early_day e yoe m d lo hi first last = ground (arith, leap-HasLeapDay e yoe)

pub late_day :
    (y : ℤ) (yoe m d : ℕ)
    → 3 ≤ m
    → m ≤ 12
    → 1 ≤ d
    → d ≤ days_in_month y m
    → IsDayOfMonth yoe (m - 3) (d - 1)
unfolding days_in_month
late_day y yoe m d lo hi first last = ground arith

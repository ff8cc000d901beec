-- ===== src/Civil/Era.antt =====
-- The division into eras of src/time.rs.
use unidpp_archive.Prelude.{ℕ, ◌<◌, ◌≡◌, ap, arith}
use unidpp_archive.Prelude.Int.{ℤ, pos, negsuc, pos_part, ◌+ℤ◌, ◌-ℤ◌, ◌*ℤ◌, quot, int_laws}
use unidpp_archive.Civil.{era_of}

pub era_of_400 : (e : ℤ) (r : ℕ) → r < 400 → era_of (e *ℤ pos 400 +ℤ pos r) 400 ≡ e
unfolding era_of ◌+ℤ◌ ◌-ℤ◌ ◌*ℤ◌ quot
era_of_400 (pos e) r lt = ground arith
era_of_400 (negsuc e) r lt = ground arith

pub era_of_146097 : (e : ℤ) (r : ℕ) → r < 146097 → era_of (e *ℤ pos 146097 +ℤ pos r) 146097 ≡ e
unfolding era_of ◌+ℤ◌ ◌-ℤ◌ ◌*ℤ◌ quot
era_of_146097 (pos e) r lt = ground arith
era_of_146097 (negsuc e) r lt = ground arith

-- The era and the rest, which is below the era's length, make up the number.
pub era_split :
    (z : ℤ)
    → (pos_part (z -ℤ era_of z 146097 *ℤ pos 146097) < 146097)
      × (z ≡ era_of z 146097 *ℤ pos 146097 +ℤ pos (pos_part (z -ℤ era_of z 146097 *ℤ pos 146097)))
unfolding era_of ◌+ℤ◌ ◌-ℤ◌ ◌*ℤ◌ quot
era_split (pos n) = ground arith
era_split (negsuc n) = ground arith

pub year_split :
    (y : ℤ)
    → (pos_part (y -ℤ era_of y 400 *ℤ pos 400) < 400)
      × (y ≡ era_of y 400 *ℤ pos 400 +ℤ pos (pos_part (y -ℤ era_of y 400 *ℤ pos 400)))
unfolding era_of ◌+ℤ◌ ◌-ℤ◌ ◌*ℤ◌ quot
year_split (pos n) = ground arith
year_split (negsuc n) = ground arith

add-sub_cancel : (a b : ℤ) → a +ℤ b -ℤ a ≡ b
add-sub_cancel a b = omega int_laws

pub rest_of_era : (e : ℤ) (k r : ℕ) → pos_part (e *ℤ pos k +ℤ pos r -ℤ e *ℤ pos k) ≡ r
rest_of_era e k r = ap pos_part (add-sub_cancel (e *ℤ pos k) (pos r))

-- ===== src/Tracker/Angles.antt =====
-- The angle that src/modules/moAbstractBlobTrackerModule.cpp reconstructs from quarter turns, against
-- the remainder of mathematics, which is never negative.
use movid.Base.{
  ℕ, zero, suc, ◌-◌, ◌%◌, ◌<◌, ℤ, pos, negsuc, IsInt32, to_int32, to_int32_id, ◌+ℤ◌, times, rem,
  minus, ◌≡◌, refl, ◌∙◌, ap, arith,
}
use movid.Tracker.{tracked_angle}

abbrev pub floor_mod : ℤ → ℕ
floor_mod (pos n) = n % 360
floor_mod (negsuc n) = 359 - n % 360

floor_mod_lt : (z : ℤ) → floor_mod z < 360
floor_mod_lt (pos n) = omega arith
floor_mod_lt (negsuc n) = omega arith

minus_shift : (k : ℕ) → k < 360 → rem (minus k +ℤ pos 360) 360 ≡ pos ((360 - k) % 360)
minus_shift zero h = refl
minus_shift (suc k) h = ground arith

rem_shift : (z : ℤ) → rem (rem z 360 +ℤ pos 360) 360 ≡ pos (floor_mod z)
rem_shift (pos n) = ap pos (omega arith)
rem_shift (negsuc n) = minus_shift (suc n % 360) (omega arith) ∙ ap pos (omega arith)

-- The angle that a blob gets is the sum of its angle and the quarter turns, as an angle in
-- [0, 360), while the sum fits an `int`; for negative sums too.
pub tracked_angle-floor_mod :
    (angle fallen_over : ℤ)
    → IsInt32 (times 90 fallen_over)
    → IsInt32 (angle +ℤ times 90 fallen_over)
    → (tracked_angle angle fallen_over ≡ pos (floor_mod (angle +ℤ times 90 fallen_over)))
      × (floor_mod (angle +ℤ times 90 fallen_over) < 360)
unfolding tracked_angle
tracked_angle-floor_mod angle fallen_over h k = (
  ap (λ z. rem (rem (to_int32 (angle +ℤ z)) 360 +ℤ pos 360) 360) (to_int32_id _ h)
      ∙ ap (λ z. rem (rem z 360 +ℤ pos 360) 360) (to_int32_id _ k)
      ∙ rem_shift (angle +ℤ times 90 fallen_over),
  floor_mod_lt (angle +ℤ times 90 fallen_over),
)

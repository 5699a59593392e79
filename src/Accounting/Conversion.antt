-- ===== src/Accounting/Conversion.antt =====
-- No conversion between the two representations loses value.
use arcagentx.Prelude.{◌+◌, ◌*◌, ◌<◌, ◌≤◌, ◌≡◌, ◌↔◌, ok, arith}
use arcagentx.Prelude.Int.{pos, negsuc, pos_part, neg_part, ◌+ℤ◌, ◌-ℤ◌, ◌≤ℤ◌}
use arcagentx.Accounting.{
  Usdc6, Usdc18, scale_6_to_18, to_usdc18, split_usdc18, to_usdc6_exact, to_usdc6_floor,
  to_usdc6_rounded, headroom_usdc6,
}

-- The split of an amount adds up to it, its dust is less than one micro-dollar, and no part of the
-- dust is more than the amount's part of that sign.
pub split_usdc18-exact :
    (a : Usdc18)
    → let s = split_usdc18 a in
      (to_usdc18 s.usdc6 +ℤ s.dust18 ≡ a)
      × (pos_part s.dust18 + neg_part s.dust18 < scale_6_to_18)
      × (pos_part s.dust18 ≤ pos_part a)
      × (neg_part s.dust18 ≤ neg_part a)
unfolding split_usdc18 to_usdc18 ◌+ℤ◌
split_usdc18-exact (pos n) = (ground arith, omega arith, omega arith, omega arith)
split_usdc18-exact (negsuc n) = (ground arith, ground arith, ground arith, ground arith)

-- An amount in 18 decimals has an exact image in 6 exactly when it is the lift of that image.
pub to_usdc6_exact_iff : (a : Usdc18) (b : Usdc6) → (to_usdc6_exact a ≡ ok b) ↔ (a ≡ to_usdc18 b)
unfolding to_usdc6_exact to_usdc18
to_usdc6_exact_iff (pos n) (pos m) = (λ h. ground arith, λ h. ground arith)
to_usdc6_exact_iff (pos n) (negsuc m) = (λ h. ground arith, λ h. ground arith)
to_usdc6_exact_iff (negsuc n) (pos m) = (λ h. ground arith, λ h. ground arith)
to_usdc6_exact_iff (negsuc n) (negsuc m) = (λ h. ground arith, λ h. ground arith)

-- The floor and the rounding of a lifted amount are the amount.
pub to_usdc6_floor-to_usdc18 : (b : Usdc6) → to_usdc6_floor (to_usdc18 b) ≡ b
unfolding to_usdc6_floor to_usdc18
to_usdc6_floor-to_usdc18 (pos n) = ground arith
to_usdc6_floor-to_usdc18 (negsuc n) = ground arith

-- Rounding is off by at most half a micro-dollar, either way.
to_usdc6_rounded_nearest :
    (a : Usdc18)
    → let d = to_usdc18 (to_usdc6_rounded a) -ℤ a in 2 * (pos_part d + neg_part d) ≤ scale_6_to_18
unfolding to_usdc6_rounded to_usdc18 ◌-ℤ◌
to_usdc6_rounded_nearest (pos n) = ground arith
to_usdc6_rounded_nearest (negsuc n) = ground arith

-- What is left under a cap is never negative, adds up with what is used to the cap unless more is
-- used, and is zero exactly when the cap is reached or passed.
headroom_usdc6_exact :
    (cap used : Usdc6)
    → (pos 0 ≤ℤ headroom_usdc6 cap used)
      × (used ≤ℤ cap → headroom_usdc6 cap used +ℤ used ≡ cap)
      × ((headroom_usdc6 cap used ≡ pos 0) ↔ (cap ≤ℤ used))
unfolding headroom_usdc6 ◌+ℤ◌
headroom_usdc6_exact cap used =
    (ground arith, λ h. ground arith, (λ h. ground arith, λ h. ground arith))

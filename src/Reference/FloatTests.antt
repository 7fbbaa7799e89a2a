-- ===== src/Reference/FloatTests.antt =====
-- The floating-point functions on concrete values.
use sycl_cts.Reference.Accuracy.{
  exact, fabs, finite, fmin, get_ulp_std, get_ulp_std_half, magnitude_at, magnitude_of, next_down,
  next_up, subtract, value_of,
}
use sycl_cts.Reference.Accuracy.Gaps.{gap}
use sycl_cts.Reference.Accuracy.Ulp.{get_ulp_std-gap}
use sycl_cts.Reference.Accuracy.Half.{float_of, get_ulp_std_half-gap, half_value}
use sycl_cts.Reference.NextAfter.{nextafter, nextafter-ordinal, ordinal}
use sycl_cts.Prelude.{
  Bool, ap, arith, ltb, neg_part, negsuc, pos, pos_part, refl, suc, true, ℕ, ℤ, ◌&&◌, ◌*◌, ◌+ℤ◌,
  ◌-ℤ◌, ◌-◌, ◌<◌, ◌==◌, ◌^◌, ◌||◌, ◌↔◌, ◌≡◌, ◌≤◌,
}

-- 0x7c01 to 0x7fff, with either sign.
abbrev half_isnan : ℤ → Bool
half_isnan x = ltb 0x7c00 (pos_part (ordinal x)) || ltb 0x7c00 (neg_part (ordinal x))

abbrev half_equal : ℤ → ℤ → Bool
half_equal x y =
    (pos_part (ordinal x) == pos_part (ordinal y)) && (neg_part (ordinal x) == neg_part (ordinal y))

half_equal_iff : (x y : ℤ) → (half_equal x y ≡ true) ↔ (ordinal x ≡ ordinal y)
half_equal_iff x y = ground arith

-- From -0 towards 1 to the least half above 0.
nextafter-ordinal_example :
    ordinal (nextafter half_isnan half_equal (negsuc 0x7fff) (pos 0x3c00)) ≡ pos 1
unfolding ordinal ◌+ℤ◌
nextafter-ordinal_example =
    nextafter-ordinal half_isnan half_equal (negsuc 0x7fff) (pos 0x3c00) (omega arith, omega arith)
      (omega arith, omega arith) (λ x y nx ny. half_equal_iff x y) refl refl
      (λ e. omega (arith, ap pos_part e))

get_ulp_std-gap_example :
    (get_ulp_std 1024 0x7bff (finite (pos 0)) ≡ exact (pos (gap 1024 0)))
    × ((n : ℕ)
        → suc n ≤ 0x7bff
        → (get_ulp_std 1024 0x7bff (finite (pos (suc n))) ≡ exact (pos (gap 1024 n)))
          × (get_ulp_std 1024 0x7bff (finite (negsuc n)) ≡ exact (pos (gap 1024 n))))
get_ulp_std-gap_example = get_ulp_std-gap 1024 0x7bff (omega arith) (omega arith)

-- The greatest negative normal half.
get_ulp_std_half-gap_example :
    (value_of (2 ^ 23) (float_of true 1024) ≡ half_value true 1024)
    × (2 ^ 10 < 1024
        → get_ulp_std_half (λ v. v) (float_of true 1024)
          ≡ exact (pos (gap (2 ^ 10) (1024 - 1) * 2 ^ 125)))
    × (1024 ≡ 2 ^ 10 → get_ulp_std_half (λ v. v) (float_of true 1024) ≡ exact (pos (2 ^ 124)))
get_ulp_std_half-gap_example = get_ulp_std_half-gap (λ v. v) true 1024 (omega arith) (omega arith)

-- 1 and its neighbours 1 - 2 ^ -11 and 1 + 2 ^ -10, in units of 2 ^ -24.
ulp_of_one : get_ulp_std 1024 0x7bff (finite (pos 0x3c00)) ≡ exact (pos (2 ^ 13))
unfolding get_ulp_std value_of next_up next_down subtract fabs fmin magnitude_of magnitude_at ◌-ℤ◌
ulp_of_one = refl

-- ===== src/Reference/MadSatLong.antt =====
-- `mad_sat` of util/math_reference.cpp for the 64-bit types, whose guard against overflow is a
-- comparison of `long double`s.
pub mod Product
use sycl_cts.Machine.{
  IsSigned, IsUnsigned, clamp_unsigned, max_val, min_val, modulus, umax_val, w64, wrap,
}
use sycl_cts.Prelude.{
  Bool, arith, false, if◌then◌else◌, ltb, ltb_ℤ, magnitude, pos, ℕ, ℤ, ◌%◌, ◌&&◌, ◌*ℤ◌, ◌*◌, ◌+ℤ◌,
  ◌+◌, ◌-ℤ◌, ◌<◌, ◌||◌, ◌≡◌, ◌≤ℤ◌, ◌≤◌,
}
use sycl_cts.Reference.Saturate.{add_sat_signed, add_sat_unsigned, add_sat_unsigned-clamp}

-- `long double`: `above x y z` is `x * y + z > max * 1.1l`, in floating-point arithmetic, and
-- `below x y z` is `x * y + z < min * 1.1l`. A tenth is more than the rounding errors make up.
pub record LongDouble : Type 0 where
  pub above_unsigned : ℕ → ℕ → ℕ → Bool
  pub above : ℤ → ℤ → ℤ → Bool
  pub below : ℤ → ℤ → ℤ → Bool

-- The tests fail where the exact value is within the limits of the type.
pub record IsAccurate (f : LongDouble) : Type 0 where
  pub not_above_unsigned : (x y z : ℕ) → x * y + z < modulus w64 → f.above_unsigned x y z ≡ false
  pub not_above : (x y z : ℤ) → x *ℤ y +ℤ z ≤ℤ max_val w64 → f.above x y z ≡ false
  pub not_below : (x y z : ℤ) → min_val w64 ≤ℤ x *ℤ y +ℤ z → f.below x y z ≡ false

pub mad_sat_unsigned_long : LongDouble → ℕ → ℕ → ℕ → ℕ
mad_sat_unsigned_long f x y z =
    if f.above_unsigned x y z
    then umax_val w64
    else (let mul = x * y % modulus w64 in
        if ltb mul x || ltb mul y then umax_val w64 else add_sat_unsigned w64 mul z)

-- `std::abs` of a 64-bit value.
abbrev abs_long : ℤ → ℤ
abs_long x = wrap w64 (pos (magnitude x))

-- `std::abs(mul) > std::abs(x) && std::abs(mul) > std::abs(y)`
pub outgrows : ℤ → ℤ → ℤ → Bool
outgrows mul x y = ltb_ℤ (abs_long x) (abs_long mul) && ltb_ℤ (abs_long y) (abs_long mul)

pub same_sign : ℤ → ℤ → Bool
same_sign x y = (ltb_ℤ (pos 0) x && ltb_ℤ (pos 0) y) || (ltb_ℤ x (pos 0) && ltb_ℤ y (pos 0))

-- The branches behind the two comparisons, `mul` being `x * y`.
pub mad_sat_product : ℤ → ℤ → ℤ → ℤ → ℤ
mad_sat_product mul x y z =
    if same_sign x y
    then (if ltb_ℤ (pos 0) mul && outgrows mul x y
        then add_sat_signed w64 mul z
        else if ltb_ℤ z (pos 0) && ltb_ℤ (wrap w64 (mul -ℤ min_val w64)) (abs_long z)
        then wrap w64 (max_val w64 +ℤ z)
        else max_val w64)
    else if ltb_ℤ mul (pos 0) && outgrows mul x y
    then add_sat_signed w64 mul z
    else if ltb_ℤ (pos 0) z && ltb_ℤ (wrap w64 (max_val w64 -ℤ mul)) z
    then wrap w64 (min_val w64 +ℤ z)
    else min_val w64

pub mad_sat_signed_long : LongDouble → ℤ → ℤ → ℤ → ℤ
mad_sat_signed_long f x y z =
    if f.above x y z
    then max_val w64
    else if f.below x y z
    then min_val w64
    else mad_sat_product (wrap w64 (x *ℤ y)) x y z

module _ (f : LongDouble) (accurate : IsAccurate f) where
  -- With accurate comparisons of `long double`s, both factors positive, a product in the type and an
  -- addend of it, `mad_sat` on the 64-bit unsigned type is
  -- the exact `x * y + z`, limited to the type.
  mad_sat_unsigned_long-clamp :
      (x y z : ℕ)
      → 1 ≤ x
      → 1 ≤ y
      → x * y < modulus w64
      → IsUnsigned w64 z
      → mad_sat_unsigned_long f x y z ≡ clamp_unsigned w64 (x * y + z)
  unfolding mad_sat_unsigned_long
  mad_sat_unsigned_long-clamp x y z hx hy h hz = ground (
    arith,
    accurate.not_above_unsigned x y z,
    add_sat_unsigned-clamp w64 (x * y) z,
    factor-le x y,
    factor-le y x,
  )
    where
      factor-le : (a b : ℕ) → 1 ≤ b → a ≤ a * b
      factor-le a b h = grind arith

  -- With accurate comparisons of `long double`s and `z` in the type,
  -- `mad_sat` on the 64-bit unsigned type gives the greatest value, whatever `z` is, when one factor
  -- is zero and the other is not.
  mad_sat_unsigned_long-zero :
      (y z : ℕ)
      → 1 ≤ y
      → IsUnsigned w64 z
      → (mad_sat_unsigned_long f 0 y z ≡ umax_val w64)
        × (mad_sat_unsigned_long f y 0 z ≡ umax_val w64)
  unfolding mad_sat_unsigned_long
  mad_sat_unsigned_long-zero y z hy hz = (
    ground (arith, accurate.not_above_unsigned 0 y z),
    ground (arith, accurate.not_above_unsigned y 0 z),
  )

  -- With accurate comparisons of `long double`s and `y` and `z` in the type,
  -- `mad_sat` on the 64-bit signed type gives the least value, whatever `y` and `z` are, when the
  -- first factor is zero.
  pub mad_sat_signed_long-zero :
      (y z : ℤ) → IsSigned w64 y → IsSigned w64 z → mad_sat_signed_long f (pos 0) y z ≡ min_val w64
  unfolding mad_sat_signed_long mad_sat_product same_sign ◌+ℤ◌ ◌-ℤ◌ ◌*ℤ◌
  mad_sat_signed_long-zero y z hy hz =
      ground (arith, accurate.not_above (pos 0) y z, accurate.not_below (pos 0) y z)

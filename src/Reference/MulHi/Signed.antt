-- ===== src/Reference/MulHi/Signed.antt =====
-- `mul_hi` of signed values: the sign, and `mad_hi`.
use native.Mathlib.Nat.{mul-le-mul}
use sycl_cts.Prelude.{
  Bool, arith, false, if◌then◌else◌, ltb_ℤ, magnitude, negsuc, pos, refl, sub_ℕ, suc, true, ℕ, ℤ,
  ◌%◌, ◌*ℤ◌, ◌*◌, ◌+ℤ◌, ◌+◌, ◌-ℤ◌, ◌/◌, ◌==◌, ◌≡◌, ◌≤◌,
}
use sycl_cts.Reference.Products.{negsuc-*ℤ-negsuc, negsuc-*ℤ-pos, pos-*ℤ-negsuc, pos-*ℤ-pos}
use sycl_cts.Machine.{
  IsSigned, IsUnsigned, Width, half_modulus, magnitude-le, modulus, promote, to_signed, to_unsigned,
  w8, wrap,
}
use sycl_cts.Reference.MulHi.{mad_hi_signed, mad_hi_unsigned, mul_hi_signed, mul_hi_unsigned, ◌!=◌}
use sycl_cts.Reference.MulHi.Unsigned.{high_product-div}

-- Division of an integer, rounded down.
abbrev pub floor_div : ℤ → ℕ → ℤ
floor_div (pos n) m = pos (n / m)
floor_div (negsuc n) m = negsuc (n / m)

absolute_word :
    (w : Width) (a : ℤ)
    → IsSigned w a
    → to_unsigned w (wrap (promote w) (pos (magnitude a))) ≡ magnitude a
absolute_word w8 a h = ground arith
absolute_word _ a h = ground arith

magnitude-IsUnsigned : (w : Width) (a : ℤ) → IsSigned w a → IsUnsigned w (magnitude a)
magnitude-IsUnsigned w8 a h = ground arith
magnitude-IsUnsigned _ a h = ground arith

-- What follows the high word, for a product `n` of absolute values and its sign.
abbrev with_sign : Width → Bool → ℤ → ℕ → ℤ
with_sign w negative product n =
    let result = to_signed w (n / modulus w) in
    if negative
    then (let complement = wrap w (pos 0 -ℤ result -ℤ pos 1) in
        let lo_half = wrap w product in
        if magnitude lo_half == 0 then wrap w (complement +ℤ pos 1) else complement)
    else result

abbrev top_square : Width → ℕ
top_square w = half_modulus w * half_modulus w

positive_sign :
    (w : Width) (n : ℕ)
    → n ≤ top_square w
    → with_sign w false (pos n) n ≡ floor_div (pos n) (modulus w)
positive_sign w8 n h = ground arith
positive_sign _ n h = ground arith

negative_sign :
    (w : Width) (n : ℕ)
    → n ≤ top_square w
    → with_sign w true (sub_ℕ 0 n) n ≡ floor_div (sub_ℕ 0 n) (modulus w)
unfolding ◌+ℤ◌ ◌-ℤ◌
negative_sign w8 n h = ground arith
negative_sign _ n h = ground arith

not_negative : (m : ℕ) → ltb_ℤ (pos m) (pos 0) ≡ false
not_negative m = ground arith

is_negative : (m : ℕ) → ltb_ℤ (negsuc m) (pos 0) ≡ true
is_negative m = ground arith

by_signs :
    (w : Width) (a b : ℤ)
    → magnitude a * magnitude b ≤ top_square w
    → with_sign w (ltb_ℤ a (pos 0) != ltb_ℤ b (pos 0)) (a *ℤ b) (magnitude a * magnitude b)
      ≡ floor_div (a *ℤ b) (modulus w)
by_signs w (pos m) (pos n) h =
    rw (not_negative m, not_negative n, pos-*ℤ-pos m n) (positive_sign w (m * n) h)
by_signs w (pos m) (negsuc n) h =
    rw (not_negative m, is_negative n, pos-*ℤ-negsuc m n) (negative_sign w (m * suc n) h)
by_signs w (negsuc m) (pos n) h =
    rw (is_negative m, not_negative n, negsuc-*ℤ-pos m n) (negative_sign w (suc m * n) h)
by_signs w (negsuc m) (negsuc n) h =
    rw (is_negative m, is_negative n, negsuc-*ℤ-negsuc m n) (positive_sign w (suc m * suc n) h)

-- For values of the signed type, `mul_hi` is the exact product divided by the modulus, rounded
-- down.
pub mul_hi_signed-floor_div :
    (w : Width) (a b : ℤ)
    → IsSigned w a
    → IsSigned w b
    → mul_hi_signed w a b ≡ floor_div (a *ℤ b) (modulus w)
unfolding mul_hi_signed
mul_hi_signed-floor_div w a b ha hb =
    rw
      (
        absolute_word w a ha,
        absolute_word w b hb,
        high_product-div w (magnitude a) (magnitude b) (magnitude-IsUnsigned w a ha)
            (magnitude-IsUnsigned w b hb),
      )
      (by_signs w a b (mul-le-mul (magnitude-le w a ha) (magnitude-le w b hb)))

-- `mad_hi` is the exact high word of the product plus `z`, modulo the type, for unsigned values and
-- for signed values.
mad_hi-high :
    (w : Width) (x y z : ℕ) (a b c : ℤ)
    → IsUnsigned w x
    → IsUnsigned w y
    → IsSigned w a
    → IsSigned w b
    → (mad_hi_unsigned w x y z ≡ (x * y / modulus w + z) % modulus w)
      × (mad_hi_signed w a b c ≡ wrap w (floor_div (a *ℤ b) (modulus w) +ℤ c))
unfolding mad_hi_unsigned mad_hi_signed mul_hi_unsigned
mad_hi-high w x y z a b c hx hy ha hb =
    (rw (high_product-div w x y hx hy) refl, rw (mul_hi_signed-floor_div w a b ha hb) refl)

-- ===== src/Reference/MulHi.antt =====
-- `mul_hi` of util/math_reference.cpp and `mad_hi` of util/math_reference.h.
use sycl_cts.Prelude.{
  Bool, false, if◌then◌else◌, ltb_ℤ, magnitude, not, pos, true, ℕ, ℤ, ◌%◌, ◌*ℤ◌, ◌*◌, ◌+ℤ◌, ◌+◌,
  ◌-ℤ◌, ◌/◌, ◌==◌,
}
use sycl_cts.Machine.{Width, modulus, promote, to_signed, to_unsigned, w16, w32, w64, w8, wrap}
pub mod Unsigned
pub mod Signed

-- Half the size of `T` in bits, as a power of 2: `x >> shft` is `x / split w`.
abbrev pub split : Width → ℕ
split w8 = 0x10
split w16 = 0x100
split w32 = 0x1_0000
split w64 = 0x1_0000_0000

-- The high word of the product of two words, from the products of their halves. `x & mask` is
-- `x % split w`, and every value is stored into a `T`.
pub high_product : Width → ℕ → ℕ → ℕ
high_product w x y =
    let p = x / split w in
    let q = y / split w in
    let r = x % split w in
    let s = y % split w in
    let lo = r * s % modulus w in
    let hi = p * q % modulus w in
    let cross1 = p * s % modulus w in
    let cross2 = q * r % modulus w in
    let lo' = (lo / split w + (cross1 % split w + cross2 % split w)) % modulus w in
    (hi + (lo' / split w + cross1 / split w + cross2 / split w)) % modulus w

pub mul_hi_unsigned : Width → ℕ → ℕ → ℕ
mul_hi_unsigned w x y = high_product w x y

infix 50 ◌!=◌
abbrev pub ◌!=◌ : Bool → Bool → Bool
true != b = not b
false != b = b

-- `high` is the high word of the product of the absolute values.
pub mul_hi_signed : Width → ℤ → ℤ → ℤ
unfolding high_product
mul_hi_signed w a b =
    let a_pos = to_unsigned w (wrap (promote w) (pos (magnitude a))) in
    let b_pos = to_unsigned w (wrap (promote w) (pos (magnitude b))) in
    let result = to_signed w (high_product w a_pos b_pos) in
    if ltb_ℤ a (pos 0) != ltb_ℤ b (pos 0)
    then (let complement = wrap w (pos 0 -ℤ result -ℤ pos 1) in
        let lo_half = wrap w (a *ℤ b) in
        if magnitude lo_half == 0 then wrap w (complement +ℤ pos 1) else complement)
    else result

pub mad_hi_unsigned : Width → ℕ → ℕ → ℕ → ℕ
mad_hi_unsigned w x y z = (mul_hi_unsigned w x y + z) % modulus w

pub mad_hi_signed : Width → ℤ → ℤ → ℤ → ℤ
mad_hi_signed w x y z = wrap w (mul_hi_signed w x y +ℤ z)

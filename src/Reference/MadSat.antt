-- ===== src/Reference/MadSat.antt =====
-- `mad_sat` of util/math_reference.cpp.
use native.Mathlib.Nat.{mul-le-mul}
use sycl_cts.Reference.Products.{*ℤ-bounds}
use sycl_cts.Prelude.{
  arith, if◌then◌else◌, ltb, ltb_ℤ, neg_part, pos_part, ℕ, ℤ, ◌%◌, ◌*ℤ◌, ◌*◌, ◌+ℤ◌, ◌+◌, ◌-◌, ◌≡◌,
  ◌≤◌,
}
use sycl_cts.Machine.{
  IsSigned, IsUnsigned, Width, clamp_signed, clamp_unsigned, half_modulus, magnitude-le, max_val,
  min_val, modulus, num_bits, umax_val, w16, w32, w64, w8, wrap,
}

-- `K` is `cl_ulong`.
pub mad_sat_unsigned : Width → ℕ → ℕ → ℕ → ℕ
mad_sat_unsigned w x y z =
    let a = (x * y % modulus w64 + z) % modulus w64 in if ltb (umax_val w) a then umax_val w else a

-- `K` is `cl_long`.
pub mad_sat_signed : Width → ℤ → ℤ → ℤ → ℤ
mad_sat_signed w x y z =
    let a = wrap w64 (wrap w64 (x *ℤ y) +ℤ z) in
    if ltb_ℤ (max_val w) a then max_val w else if ltb_ℤ a (min_val w) then min_val w else wrap w a

product-le : (x y m n : ℕ) → x ≤ m → y ≤ n → x * y ≤ m * n
product-le x y m n p q = mul-le-mul p q

narrow_product :
    (w : Width) (x y : ℕ)
    → num_bits w ≤ 32
    → IsUnsigned w x
    → IsUnsigned w y
    → x * y ≤ (modulus w - 1) * (modulus w - 1)
narrow_product w8 x y h hx hy = product-le x y 0xff 0xff (omega arith) (omega arith)
narrow_product w16 x y h hx hy = product-le x y 0xffff 0xffff (omega arith) (omega arith)
narrow_product w32 x y h hx hy = product-le x y 0xffff_ffff 0xffff_ffff (omega arith) (omega arith)
narrow_product w64 x y h hx hy = absurd (omega arith)

-- For values of an unsigned type of at most 32 bits, `mad_sat` is the exact `x * y + z`, limited to the
-- greatest value.
mad_sat_unsigned-clamp :
    (w : Width) (x y z : ℕ)
    → num_bits w ≤ 32
    → IsUnsigned w x
    → IsUnsigned w y
    → IsUnsigned w z
    → mad_sat_unsigned w x y z ≡ clamp_unsigned w (x * y + z)
unfolding mad_sat_unsigned
mad_sat_unsigned-clamp w8 x y z h hx hy hz = ground (arith, narrow_product w8 x y)
mad_sat_unsigned-clamp w16 x y z h hx hy hz = ground (arith, narrow_product w16 x y)
mad_sat_unsigned-clamp w32 x y z h hx hy hz = ground (arith, narrow_product w32 x y)
mad_sat_unsigned-clamp w64 x y z h hx hy hz = absurd (omega arith)

limit :
    (w : Width) (p z : ℤ)
    → num_bits w ≤ 32
    → pos_part p ≤ half_modulus w * half_modulus w
    → neg_part p ≤ half_modulus w * half_modulus w
    → IsSigned w z
    → (let a = wrap w64 (wrap w64 p +ℤ z) in
        if ltb_ℤ (max_val w) a
        then max_val w
        else if ltb_ℤ a (min_val w)
        then min_val w
        else wrap w a)
      ≡ clamp_signed w (p +ℤ z)
unfolding ◌+ℤ◌
limit w8 p z h hp hn hz = ground arith
limit w16 p z h hp hn hz = ground arith
limit w32 p z h hp hn hz = ground arith
limit w64 p z h hp hn hz = absurd (omega arith)

-- For values of a signed type of at most 32 bits, `mad_sat` is the exact `x * y + z`, limited to the type.
pub mad_sat_signed-clamp :
    (w : Width) (x y z : ℤ)
    → num_bits w ≤ 32
    → IsSigned w x
    → IsSigned w y
    → IsSigned w z
    → mad_sat_signed w x y z ≡ clamp_signed w (x *ℤ y +ℤ z)
unfolding mad_sat_signed
mad_sat_signed-clamp w x y z h hx hy hz =
    let bounds =
      *ℤ-bounds (half_modulus w) (half_modulus w) x y (magnitude-le w x hx) (magnitude-le w y hy) in
    limit w (x *ℤ y) z h bounds.0 bounds.1 hz

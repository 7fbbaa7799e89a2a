-- ===== src/Reference/Mad24.antt =====
-- `in_range_24`, `mad24` and `mul24` of util/math_reference.cpp, for `int32_t` and `uint32_t`.
use sycl_cts.Prelude.{
  Bool, Bool-cases, arith, if◌then◌else◌, inl, inr, leb_ℤ, ltb, ltb_ℤ, magnitude, neg_part, negsuc,
  not, pos, pos_part, true, ℕ, ℤ, ◌%◌, ◌&&◌, ◌*ℤ◌, ◌*◌, ◌+ℤ◌, ◌+◌, ◌-◌, ◌^◌, ◌||◌, ◌≡◌, ◌≤◌,
}
use sycl_cts.Machine.{IsSigned, IsUnsigned, modulus, w32, w64, wrap, wrap-IsSigned}
use sycl_cts.Reference.ResultRef.{ResultRef, defined, flagged}
use sycl_cts.Reference.Products.{*ℤ-bounds}

unfoldable pub in_range_24_signed : ℤ → Bool
in_range_24_signed v = leb_ℤ (negsuc (2 ^ 23 - 1)) v && ltb_ℤ v (pos (2 ^ 23))

unfoldable pub in_range_24_unsigned : ℕ → Bool
in_range_24_unsigned v = ltb v (2 ^ 24)

-- The product and the sum are taken in `int64_t`.
pub mad24_signed : ℤ → ℤ → ℤ → ResultRef ℤ
mad24_signed x y z =
    if not (in_range_24_signed x) || not (in_range_24_signed y)
    then flagged (pos 0) true
    else defined (wrap w32 (wrap w64 (wrap w64 (x *ℤ y) +ℤ z)))

pub mad24_unsigned : ℕ → ℕ → ℕ → ResultRef ℕ
mad24_unsigned x y z =
    if not (in_range_24_unsigned x) || not (in_range_24_unsigned y)
    then flagged 0 true
    else defined ((x * y % modulus w64 + z) % modulus w64 % modulus w32)

pub mul24_signed : ℤ → ℤ → ResultRef ℤ
mul24_signed x y =
    if not (in_range_24_signed x) || not (in_range_24_signed y)
    then flagged (pos 0) true
    else defined (wrap w32 (wrap w64 (x *ℤ y)))

pub mul24_unsigned : ℕ → ℕ → ResultRef ℕ
mul24_unsigned x y =
    if not (in_range_24_unsigned x) || not (in_range_24_unsigned y)
    then flagged 0 true
    else defined (x * y % modulus w64 % modulus w32)

magnitude_24 : (v : ℤ) → in_range_24_signed v ≡ true → magnitude v ≤ 2 ^ 23
unfolding in_range_24_signed
magnitude_24 v h = ground arith

no_overflow :
    (p z : ℤ)
    → pos_part p ≤ 2 ^ 23 * 2 ^ 23
    → neg_part p ≤ 2 ^ 23 * 2 ^ 23
    → IsSigned w32 z
    → wrap w64 (wrap w64 p +ℤ z) ≡ p +ℤ z
unfolding ◌+ℤ◌
no_overflow p z h k hz = ground arith

in_range_24-bounds :
    (x y : ℤ)
    → in_range_24_signed x ≡ true
    → in_range_24_signed y ≡ true
    → (pos_part (x *ℤ y) ≤ 2 ^ 23 * 2 ^ 23) × (neg_part (x *ℤ y) ≤ 2 ^ 23 * 2 ^ 23)
in_range_24-bounds x y e f = *ℤ-bounds (2 ^ 23) (2 ^ 23) x y (magnitude_24 x e) (magnitude_24 y f)

-- `mad24` on `int32_t` gives the low word of the exact `x * y + z` when both factors are in the
-- 24-bit range, and is undefined otherwise: nothing is lost in `int64_t`.
mad24_signed-exact :
    (x y z : ℤ)
    → IsSigned w32 z
    → mad24_signed x y z ≡ (
        if in_range_24_signed x && in_range_24_signed y
        then defined (wrap w32 (x *ℤ y +ℤ z))
        else flagged (pos 0) true)
unfolding mad24_signed
mad24_signed-exact x y z hz = elim (Bool-cases (in_range_24_signed x)) [
  | inr e ↦ rw e
  | inl e ↦ elim (Bool-cases (in_range_24_signed y)) [
    | inr f ↦ rw (e, f)
    | inl f ↦
        let bounds = in_range_24-bounds x y e f in
        rw (e, f, no_overflow (x *ℤ y) z bounds.0 bounds.1 hz)
  ]
]

-- `mul24` on `int32_t` gives the low word of the exact product when both factors are in the 24-bit
-- range, and is undefined otherwise.
pub mul24_signed-exact :
    (x y : ℤ)
    → mul24_signed x y ≡ (
        if in_range_24_signed x && in_range_24_signed y
        then defined (wrap w32 (x *ℤ y))
        else flagged (pos 0) true)
unfolding mul24_signed
mul24_signed-exact x y = elim (Bool-cases (in_range_24_signed x)) [
  | inr e ↦ rw e
  | inl e ↦ elim (Bool-cases (in_range_24_signed y)) [
    | inr f ↦ rw (e, f)
    | inl f ↦
        let bounds = in_range_24-bounds x y e f in
        rw (e, f, wrap-IsSigned w64 (x *ℤ y) (omega (arith, bounds.0, bounds.1)))
  ]
]

-- `mad24` on `uint32_t` gives the low word of the exact `x * y + z` when both factors are in the
-- 24-bit range, and is undefined otherwise.
mad24_unsigned-exact :
    (x y z : ℕ)
    → IsUnsigned w32 z
    → mad24_unsigned x y z ≡ (
        if in_range_24_unsigned x && in_range_24_unsigned y
        then defined ((x * y + z) % modulus w32)
        else flagged 0 true)
unfolding mad24_unsigned
mad24_unsigned-exact x y z hz = ground arith

-- `mul24` on `uint32_t` gives the low word of the exact product when both factors are in the
-- 24-bit range, and is undefined otherwise.
pub mul24_unsigned-exact :
    (x y : ℕ)
    → mul24_unsigned x y ≡ (
        if in_range_24_unsigned x && in_range_24_unsigned y
        then defined (x * y % modulus w32)
        else flagged 0 true)
unfolding mul24_unsigned
mul24_unsigned-exact x y = ground arith

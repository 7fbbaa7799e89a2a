-- ===== src/Reference/Saturate.antt =====
-- `add_sat` and `sub_sat` of util/math_reference.h, one function for each branch of
-- `std::is_unsigned<T>`.
use sycl_cts.Prelude.{
  Bool, arith, false, if◌then◌else◌, leb, ltb, ltb_ℤ, magnitude, neg_part, pos, true, ℕ, ℤ, ◌%◌,
  ◌&&◌, ◌+ℤ◌, ◌+◌, ◌-ℤ◌, ◌-◌, ◌==◌, ◌||◌, ◌≡◌,
}
use sycl_cts.Machine.{
  IsSigned, IsUnsigned, Width, clamp_signed, clamp_unsigned, half_modulus, max_val, min_val,
  modulus, promote, to_signed, to_unsigned, umax_val, w16, w32, w64, w8, wrap,
}

pub add_sat_unsigned : Width → ℕ → ℕ → ℕ
add_sat_unsigned w a b = let res = (a + b) % modulus w in if ltb res a then umax_val w else res

pub add_sat_signed : Width → ℤ → ℤ → ℤ
add_sat_signed w a b =
    let r = to_signed w (to_unsigned w a + to_unsigned w b) in
    if ltb_ℤ (pos 0) b
    then if ltb_ℤ r a then max_val w else r
    else if ltb_ℤ a r
    then min_val w
    else r

pub sub_sat_unsigned : ℕ → ℕ → ℕ
sub_sat_unsigned x y = if leb x y then 0 else x - y

-- `a - b`, taken in the promoted type.
abbrev pub difference : Width → ℤ → ℤ → ℤ
difference w a b = wrap (promote w) (a -ℤ b)

pub sub_sat_signed : Width → ℤ → ℤ → ℤ
sub_sat_signed w x y =
    if ltb_ℤ (pos 0) x
    then (if ltb_ℤ (pos 0) y
        then wrap w (difference w x y)
        else if ltb_ℤ y (difference w x (max_val w))
        then max_val w
        else wrap w (difference w x y))
    else if ltb_ℤ (pos 0) y
    then (if ltb_ℤ (difference w x (min_val w)) y then min_val w else wrap w (difference w x y))
    else wrap w (difference w x y)

-- Where a difference leaves the type that it is taken in, `x` is 0: `0 - y` for the least `y`,
-- and `0 - min_val` where no wider type takes it.
abbrev pub is_wide : Width → Bool
is_wide w8 = false
is_wide w16 = false
is_wide w32 = true
is_wide w64 = true

abbrev pub zero_overflows : Width → ℤ → ℤ → Bool
zero_overflows w x y =
    magnitude x == 0 && (neg_part y == half_modulus w || (is_wide w && ltb_ℤ (pos 0) y))

-- For values of the unsigned type, `add_sat` is the sum, limited to the greatest value.
pub add_sat_unsigned-clamp :
    (w : Width) (a b : ℕ)
    → IsUnsigned w a
    → IsUnsigned w b
    → add_sat_unsigned w a b ≡ clamp_unsigned w (a + b)
unfolding add_sat_unsigned
add_sat_unsigned-clamp w8 a b ha hb = ground arith
add_sat_unsigned-clamp _ a b ha hb = ground arith

-- For values of the signed type, `add_sat` is the exact sum, limited to the type.
pub add_sat_signed-clamp :
    (w : Width) (a b : ℤ)
    → IsSigned w a
    → IsSigned w b
    → add_sat_signed w a b ≡ clamp_signed w (a +ℤ b)
unfolding add_sat_signed ◌+ℤ◌
add_sat_signed-clamp w8 a b ha hb = ground arith
add_sat_signed-clamp _ a b ha hb = ground arith

-- For unsigned types `sub_sat` is the difference that stops at 0.
pub sub_sat_unsigned_lem : (x y : ℕ) → sub_sat_unsigned x y ≡ x - y
unfolding sub_sat_unsigned
sub_sat_unsigned_lem x y = ground arith

-- For values of the signed type, `sub_sat` is the exact difference, limited to the type, unless
-- `x` is 0 and a difference from it leaves the type that it is taken in: then it is the least
-- value.
pub sub_sat_signed-clamp :
    (w : Width) (x y : ℤ)
    → IsSigned w x
    → IsSigned w y
    → sub_sat_signed w x y ≡ (if zero_overflows w x y then min_val w else clamp_signed w (x -ℤ y))
unfolding sub_sat_signed ◌-ℤ◌
sub_sat_signed-clamp w8 x y hx hy = ground arith
sub_sat_signed-clamp _ x y hx hy = ground arith

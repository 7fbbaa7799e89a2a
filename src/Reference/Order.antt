-- ===== src/Reference/Order.antt =====
-- `abs`, `abs_diff`, `clamp`, `max` and `min` of util/math_reference.h.
use sycl_cts.Prelude.{
  Bool, arith, if◌then◌else◌, leb, leb_ℤ, ltb, ltb_ℤ, magnitude, max, min, neg_part, pos, true, ℕ,
  ℤ, ◌%◌, ◌&&◌, ◌+◌, ◌-ℤ◌, ◌-◌, ◌==◌, ◌||◌, ◌≡◌,
}
use sycl_cts.Machine.{
  IsSigned, IsUnsigned, Width, half_modulus, modulus, to_signed, to_unsigned, umax_val, w8,
}
use sycl_cts.Reference.ResultRef.{ResultRef, defined, flagged}

-- Of an unsigned type: no operand is below 0, and no result is above the greatest value.
pub abs_unsigned : ℕ → ResultRef ℕ
abs_unsigned x = defined x

pub abs_signed : Width → ℤ → ResultRef ℤ
abs_signed w x =
    let result = if ltb_ℤ x (pos 0) then to_signed w (modulus w - to_unsigned w x) else x in
    if ltb_ℤ result (pos 0) then flagged (pos 0) true else defined result

-- `static_cast<U>(h) - static_cast<U>(l)`, stored into a `U`.
abbrev distance : Width → ℕ → ℕ → ℕ
distance w h l = (h + modulus w - l) % modulus w

pub abs_diff_unsigned : Width → ℕ → ℕ → ResultRef ℕ
abs_diff_unsigned w a b =
    let result = distance w (if ltb b a then a else b) (if leb a b then a else b) in
    if ltb (umax_val w) result then flagged 0 true else defined result

pub abs_diff_signed : Width → ℤ → ℤ → ResultRef ℤ
abs_diff_signed w a b =
    let h = if ltb_ℤ b a then a else b in
    let l = if leb_ℤ a b then a else b in
    let result = distance w (to_unsigned w h) (to_unsigned w l) in
    if ltb (half_modulus w - 1) result then flagged (pos 0) true else defined (to_signed w result)

-- The three that compare, over the operators of `T`; `start` is `T()`.
module _ {ℓ} {A : Type ℓ} (start : A) (lt : A → A → Bool) where
  unfoldable pub clamp : A → A → A → ResultRef A
  clamp v minv maxv =
      if lt maxv minv
      then flagged start true
      else defined (if lt v minv then minv else if lt maxv v then maxv else v)

  -- `integral` is `std::is_integral_v<T>`, and `finite` is `std::isfinite`.
  pub max_ref : Bool → (A → Bool) → A → A → ResultRef A
  max_ref integral finite a b =
      if integral || (finite a && finite b)
      then defined (if lt a b then b else a)
      else flagged start true

  pub min_ref : Bool → (A → Bool) → A → A → ResultRef A
  min_ref integral finite a b =
      if integral || (finite a && finite b)
      then defined (if lt b a then b else a)
      else flagged start true

-- For values of the signed type, `abs` is the absolute value, and undefined for the least value.
abs_signed-magnitude :
    (w : Width) (x : ℤ)
    → IsSigned w x
    → abs_signed w x
      ≡ (if neg_part x == half_modulus w then flagged (pos 0) true else defined (pos (magnitude x)))
unfolding abs_signed
abs_signed-magnitude w8 x h = ground arith
abs_signed-magnitude _ x h = ground arith

-- For values of the unsigned type, `abs_diff` is the distance of the operands, always defined.
pub abs_diff_unsigned-distance :
    (w : Width) (a b : ℕ)
    → IsUnsigned w a
    → IsUnsigned w b
    → abs_diff_unsigned w a b ≡ defined (a - b + (b - a))
unfolding abs_diff_unsigned
abs_diff_unsigned-distance w8 a b ha hb = ground arith
abs_diff_unsigned-distance _ a b ha hb = ground arith

-- For values of the signed type, `abs_diff` is the absolute value of the exact difference, and
-- undefined exactly where that is above the greatest value.
abs_diff_signed-distance :
    (w : Width) (a b : ℤ)
    → IsSigned w a
    → IsSigned w b
    → abs_diff_signed w a b ≡ (
        if ltb (half_modulus w - 1) (magnitude (a -ℤ b))
        then flagged (pos 0) true
        else defined (pos (magnitude (a -ℤ b))))
unfolding abs_diff_signed ◌-ℤ◌
abs_diff_signed-distance w8 a b ha hb = ground arith
abs_diff_signed-distance _ a b ha hb = ground arith

-- For numbers and `minv ≤ maxv`, `clamp` is the value limited to the range, and otherwise it is
-- undefined; `max` and `min` of an integer type are the greater and the lesser operand.
clamp-max-min :
    (finite : ℕ → Bool) (v minv maxv : ℕ)
    → (clamp 0 ltb v minv maxv
        ≡ (if leb minv maxv then defined (max minv (min v maxv)) else flagged 0 true))
      × (max_ref 0 ltb true finite v minv ≡ defined (max v minv))
      × (min_ref 0 ltb true finite v minv ≡ defined (min v minv))
unfolding clamp max_ref min_ref
clamp-max-min finite v minv maxv = (ground arith, ground arith, ground arith)

-- ===== src/Reference/Average.antt =====
-- `hadd` and `rhadd` of util/math_reference.h. No sum leaves the type that it is taken in.
use sycl_cts.Prelude.{
  and-halves, and-le, and-one, ap, arith, bit_and, bit_or, max, min, negsuc, or_digits, pos, refl,
  ℕ, ℤ, ◌%◌, ◌+ℤ◌, ◌+◌, ◌-◌, ◌/◌, ◌<◌, ◌∙◌, ◌≡◌,
}
use sycl_cts.Machine.{
  IsSigned, IsUnsigned, Width, and_signed, modulus, or_signed, shift_one, signed_of, to_unsigned,
  to_unsigned-lt, w16, w32, w64, w8, wrap, wrap-IsSigned,
}

pub hadd_unsigned : Width → ℕ → ℕ → ℕ
hadd_unsigned w a b = (a / 2 + b / 2 + bit_and (bit_and a b) 1) % modulus w

pub hadd_signed : Width → ℤ → ℤ → ℤ
hadd_signed w a b = wrap w (shift_one a +ℤ shift_one b +ℤ and_signed w (and_signed w a b) (pos 1))

pub rhadd_unsigned : Width → ℕ → ℕ → ℕ
rhadd_unsigned w a b = (a / 2 + b / 2 + bit_or (bit_and a 1) (bit_and b 1)) % modulus w

pub rhadd_signed : Width → ℤ → ℤ → ℤ
rhadd_signed w a b =
    wrap w
      (shift_one a +ℤ shift_one b +ℤ or_signed w (and_signed w a (pos 1)) (and_signed w b (pos 1)))

and_and_one : (a b : ℕ) → bit_and (bit_and a b) 1 ≡ min (a % 2) (b % 2)
and_and_one a b = omega (arith, and-one (bit_and a b), and-halves a b)

or_ones : (a b : ℕ) → bit_or (bit_and a 1) (bit_and b 1) ≡ max (a % 2) (b % 2)
or_ones a b = rw (and-one a, and-one b) (or_digits (a % 2) (b % 2) (omega arith) (omega arith))

-- For values of the unsigned type, `hadd` is half the exact sum, rounded down.
pub hadd_unsigned-half :
    (w : Width) (a b : ℕ) → IsUnsigned w a → IsUnsigned w b → hadd_unsigned w a b ≡ (a + b) / 2
unfolding hadd_unsigned
hadd_unsigned-half w8 a b ha hb = omega (arith, and_and_one a b)
hadd_unsigned-half _ a b ha hb = omega (arith, and_and_one a b)

-- For values of the unsigned type, `rhadd` is half the exact sum, rounded up.
pub rhadd_unsigned-half :
    (w : Width) (a b : ℕ) → IsUnsigned w a → IsUnsigned w b → rhadd_unsigned w a b ≡ (a + b + 1) / 2
unfolding rhadd_unsigned
rhadd_unsigned-half w8 a b ha hb = omega (arith, or_ones a b)
rhadd_unsigned-half _ a b ha hb = omega (arith, or_ones a b)

-- The lowest digit of a pattern, as a signed value.
low_digit_signed : (w : Width) (n : ℕ) → n < 2 → signed_of w n ≡ pos n
low_digit_signed w8 n h = ground arith
low_digit_signed _ n h = ground arith

abbrev digit : ℤ → ℕ
digit (pos n) = n % 2
digit (negsuc n) = 1 - n % 2

to_unsigned-digit : (w : Width) (a : ℤ) → to_unsigned w a % 2 ≡ digit a
to_unsigned-digit w8 (pos n) = omega arith
to_unsigned-digit w8 (negsuc n) = omega arith
to_unsigned-digit w16 (pos n) = omega arith
to_unsigned-digit w16 (negsuc n) = omega arith
to_unsigned-digit w32 (pos n) = omega arith
to_unsigned-digit w32 (negsuc n) = omega arith
to_unsigned-digit w64 (pos n) = omega arith
to_unsigned-digit w64 (negsuc n) = omega arith

digit-lt : (a : ℤ) → digit a < 2
digit-lt (pos n) = omega arith
digit-lt (negsuc n) = omega arith

and_signed-one : (w : Width) (a : ℤ) → and_signed w a (pos 1) ≡ pos (digit a)
and_signed-one w a =
    rw (one_pattern w, and-one (to_unsigned w a), to_unsigned-digit w a)
      (low_digit_signed w (digit a) (digit-lt a))
  where
    one_pattern : (w : Width) → to_unsigned w (pos 1) ≡ 1
    one_pattern w8 = refl
    one_pattern w16 = refl
    one_pattern w32 = refl
    one_pattern w64 = refl

digit-signed_of : (w : Width) (u : ℕ) → u < modulus w → digit (signed_of w u) ≡ u % 2
digit-signed_of w8 u h = ground arith
digit-signed_of _ u h = ground arith

-- The carry of `hadd`: both operands are odd.
carry_signed :
    (w : Width) (a b : ℤ) → and_signed w (and_signed w a b) (pos 1) ≡ pos (min (digit a) (digit b))
carry_signed w a b =
    and_signed-one w (and_signed w a b)
    ∙ ap pos (
        digit-signed_of w (bit_and (to_unsigned w a) (to_unsigned w b)) in_type
        ∙ omega (
          arith,
          and-halves (to_unsigned w a) (to_unsigned w b),
          to_unsigned-digit w a,
          to_unsigned-digit w b,
        ))
  where
    in_type : bit_and (to_unsigned w a) (to_unsigned w b) < modulus w
    in_type = omega (arith, and-le (to_unsigned w a) (to_unsigned w b), to_unsigned-lt w a)

-- The carry of `rhadd`: one of the operands is odd.
round_signed :
    (w : Width) (a b : ℤ)
    → or_signed w (and_signed w a (pos 1)) (and_signed w b (pos 1)) ≡ pos (max (digit a) (digit b))
round_signed w a b =
    rw
      (
        and_signed-one w a,
        and_signed-one w b,
        small w (digit a) (digit-lt a),
        small w (digit b) (digit-lt b),
        or_digits (digit a) (digit b) (digit-lt a) (digit-lt b),
      )
      (low_digit_signed w (max (digit a) (digit b)) (omega (arith, digit-lt a, digit-lt b)))
  where
    small : (w : Width) (n : ℕ) → n < 2 → to_unsigned w (pos n) ≡ n
    small w8 n h = omega arith
    small w16 n h = omega arith
    small w32 n h = omega arith
    small w64 n h = omega arith

average_down :
    (a b : ℤ) → shift_one a +ℤ shift_one b +ℤ pos (min (digit a) (digit b)) ≡ shift_one (a +ℤ b)
unfolding ◌+ℤ◌
average_down (pos a) b = ground arith
average_down (negsuc a) b = ground arith

average_up :
    (a b : ℤ)
    → shift_one a +ℤ shift_one b +ℤ pos (max (digit a) (digit b)) ≡ shift_one (a +ℤ b +ℤ pos 1)
unfolding ◌+ℤ◌
average_up (pos a) b = ground arith
average_up (negsuc a) b = ground arith

average_down-IsSigned :
    (w : Width) (a b : ℤ) → IsSigned w a → IsSigned w b → IsSigned w (shift_one (a +ℤ b))
unfolding ◌+ℤ◌
average_down-IsSigned w8 a b ha hb = ground arith
average_down-IsSigned _ a b ha hb = ground arith

average_up-IsSigned :
    (w : Width) (a b : ℤ) → IsSigned w a → IsSigned w b → IsSigned w (shift_one (a +ℤ b +ℤ pos 1))
unfolding ◌+ℤ◌
average_up-IsSigned w8 a b ha hb = ground arith
average_up-IsSigned _ a b ha hb = ground arith

-- For values of the signed type, `hadd` is half the exact sum, rounded down.
hadd_signed-half :
    (w : Width) (a b : ℤ) → IsSigned w a → IsSigned w b → hadd_signed w a b ≡ shift_one (a +ℤ b)
unfolding hadd_signed
hadd_signed-half w a b ha hb =
    rw (carry_signed w a b, average_down a b)
      (wrap-IsSigned w (shift_one (a +ℤ b)) (average_down-IsSigned w a b ha hb))

-- For values of the signed type, `rhadd` is half the exact sum, rounded up.
rhadd_signed-half :
    (w : Width) (a b : ℤ)
    → IsSigned w a
    → IsSigned w b
    → rhadd_signed w a b ≡ shift_one (a +ℤ b +ℤ pos 1)
unfolding rhadd_signed
rhadd_signed-half w a b ha hb =
    rw (round_signed w a b, average_up a b)
      (wrap-IsSigned w (shift_one (a +ℤ b +ℤ pos 1)) (average_up-IsSigned w a b ha hb))

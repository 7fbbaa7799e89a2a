-- ===== src/Reference/RotateSigned/Pattern.antt =====
-- `rotate` of a signed type and of the unsigned type with the same digits.
use native.Mathlib.Nat.{add-mul-mod_self_left, mod-lt, mod-add-div}
use sycl_cts.Reference.Rotate.{
  modulus-parts, no_turn, or_shifted, rest_of_rest, rotate_unsigned, rotate_unsigned-swap,
  some_bits, top_digits,
}
use sycl_cts.Machine.{
  IsSigned, Width, and_signed, modulus, num_bits, or_signed, promote, signed_of, to_unsigned,
  to_unsigned-lt, w16, w32, w64, w8, wrap,
}
use sycl_cts.Prelude.{
  ==_iff, Bool-cases, and-le, and-ones, ap, ap₂, arith, bit_and, bit_or, inl, inr, neg_part, negsuc,
  or-lt, pos, pos_part, suc, sym, ℕ, ℤ, ◌%◌, ◌*ℤ◌, ◌*◌, ◌+◌, ◌-◌, ◌/◌, ◌<◌, ◌==◌, ◌^◌, ◌∙◌, ◌≡◌,
  ◌≤◌,
}
use sycl_cts.Reference.RotateSigned.{low_mask, rotate_signed, shift_right}
use sycl_cts.Reference.RotateSigned.LowPart.{low_mask-digits, shift_right-digits}

to_unsigned-signed_of : (w : Width) (u : ℕ) → u < modulus w → to_unsigned w (signed_of w u) ≡ u
to_unsigned-signed_of w8 u h = ground arith
to_unsigned-signed_of w16 u h = ground arith
to_unsigned-signed_of w32 u h = ground arith
to_unsigned-signed_of w64 u h = ground arith

-- A value of the type and its digits in a wider type.
to_unsigned-extended :
    (w : Width) (v : ℤ) → IsSigned w v → to_unsigned (promote w) v % modulus w ≡ to_unsigned w v
to_unsigned-extended w8 v h = ground arith
to_unsigned-extended w16 v h = ground arith
to_unsigned-extended w32 v h = ground arith
to_unsigned-extended w64 v h = ground arith

mod-of_product : (n p m : ℕ) → n * p % m ≡ n % m * p % m
mod-of_product n p m =
    ap (λ (t : ℕ). t % m) (ap (λ (t : ℕ). t * p) (sym (mod-add-div n m)) ∙ omega arith)
    ∙ add-mul-mod_self_left (n % m * p) m (n / m * p)

-- A number and what is missing to the next multiple.
together : (m n p : ℕ) → 1 ≤ m → suc n * p + (m - 1 - n % m) * p ≡ m * ((n / m + 1) * p)
together m n p h =
    distribute (suc n) (m - 1 - n % m) (n / m + 1) (omega (arith, mod-add-div n m, mod-lt n h))
  where
    distribute : (a d q : ℕ) → a + d ≡ m * q → a * p + d * p ≡ m * (q * p)
    distribute a d q e = omega (arith, ap (λ (t : ℕ). t * p) e)

wrap-of_nat :
    (w : Width) (z : ℤ) (x : ℕ)
    → pos_part z ≡ neg_part z + x
    → to_unsigned w (wrap w z) ≡ x % modulus w
wrap-of_nat w8 z x e = ground arith
wrap-of_nat w16 z x e = ground arith
wrap-of_nat w32 z x e = ground arith
wrap-of_nat w64 z x e = ground arith

some_values : (w : Width) → 1 ≤ modulus w
some_values w8 = omega arith
some_values w16 = omega arith
some_values w32 = omega arith
some_values w64 = omega arith

wrap-of_negative :
    (w : Width) (z : ℤ) (x y t : ℕ)
    → neg_part z ≡ pos_part z + x
    → x + y ≡ modulus w * t
    → to_unsigned w (wrap w z) ≡ y % modulus w
wrap-of_negative w8 z x y t e f = ground arith
wrap-of_negative w16 z x y t e f = ground arith
wrap-of_negative w32 z x y t e f = ground arith
wrap-of_negative w64 z x y t e f = ground arith

times_parts :
    (v : ℤ) (p : ℕ)
    → pos_part (v *ℤ pos p) + neg_part v * p ≡ neg_part (v *ℤ pos p) + pos_part v * p
unfolding ◌*ℤ◌
times_parts (pos n) p = ground arith
times_parts (negsuc n) p = ground arith

shift_left-digits :
    (w : Width) (v : ℤ) (p : ℕ)
    → to_unsigned w (wrap w (v *ℤ pos p)) ≡ to_unsigned w v * p % modulus w
shift_left-digits w (pos n) p =
    wrap-of_nat w (pos n *ℤ pos p) (n * p) (omega (arith, times_parts (pos n) p))
    ∙ mod-of_product n p (modulus w)
shift_left-digits w (negsuc n) p =
    wrap-of_negative w (negsuc n *ℤ pos p) (suc n * p) ((modulus w - 1 - n % modulus w) * p)
      ((n / modulus w + 1) * p) (omega (arith, times_parts (negsuc n) p))
      (together (modulus w) n p (some_values w))

narrow :
    (w : Width) (u : ℕ)
    → u < modulus (promote w)
    → to_unsigned w (wrap w (signed_of (promote w) u)) ≡ u % modulus w
narrow w8 u h = ground arith
narrow w16 u h = ground arith
narrow w32 u h = ground arith
narrow w64 u h = ground arith

or-IsUnsigned : (w : Width) (a b : ℕ) → a < modulus w → b < modulus w → bit_or a b < modulus w
or-IsUnsigned w8 a b h h' = or-lt 8 a b h h'
or-IsUnsigned w16 a b h h' = or-lt 16 a b h h'
or-IsUnsigned w32 a b h h' = or-lt 32 a b h h'
or-IsUnsigned w64 a b h h' = or-lt 64 a b h h'

-- The parts of the result, one after the other.
turned_digits :
    (w : Width) (v : ℤ) (k : ℕ)
    → IsSigned w v
    → k < num_bits w
    → to_unsigned w (
        wrap w (
          or_signed
            (promote w)
            (wrap (promote w) (v *ℤ pos (2 ^ k)))
            (and_signed (promote w) (shift_right v (num_bits w - k)) (low_mask w k))))
      ≡ to_unsigned w v % 2 ^ (num_bits w - k) * 2 ^ k + to_unsigned w v / 2 ^ (num_bits w - k)
turned_digits w v k h l =
    narrow w (bit_or high low) (
      or-IsUnsigned (promote w) high low (to_unsigned-lt (promote w) _)
        (to_unsigned-lt (promote w) _))
    ∙ ap₂ (λ (a b : ℕ). bit_or a b % modulus w) (shift_left-digits (promote w) v (2 ^ k)) low_digits
    ∙ or_shifted w (to_unsigned (promote w) v) (to_unsigned w v / 2 ^ (num_bits w - k)) k l
        (top_digits w (to_unsigned w v) k l (to_unsigned-lt w v))
    ∙ ap (λ (t : ℕ). t * 2 ^ k + to_unsigned w v / 2 ^ (num_bits w - k)) same_rest
  where
    high : ℕ
    high = to_unsigned (promote w) (wrap (promote w) (v *ℤ pos (2 ^ k)))

    low : ℕ
    low =
        to_unsigned (promote w)
          (and_signed (promote w) (shift_right v (num_bits w - k)) (low_mask w k))

    both : ℕ
    both =
        bit_and (to_unsigned (promote w) (shift_right v (num_bits w - k)))
          (to_unsigned (promote w) (low_mask w k))

    both_fit : both < modulus (promote w)
    both_fit = omega (
      arith,
      and-le (to_unsigned (promote w) (shift_right v (num_bits w - k)))
          (to_unsigned (promote w) (low_mask w k)),
      to_unsigned-lt (promote w) (shift_right v (num_bits w - k)),
    )

    low_digits : low ≡ to_unsigned w v / 2 ^ (num_bits w - k)
    low_digits =
        to_unsigned-signed_of (promote w) both both_fit
        ∙ ap (bit_and (to_unsigned (promote w) (shift_right v (num_bits w - k))))
            (low_mask-digits w k l)
        ∙ and-ones k (to_unsigned (promote w) (shift_right v (num_bits w - k)))
        ∙ shift_right-digits w v k h l

    same_rest :
        to_unsigned (promote w) v % 2 ^ (num_bits w - k) ≡ to_unsigned w v % 2 ^ (num_bits w - k)
    same_rest =
        sym (rest_of_rest (to_unsigned (promote w) v) (2 ^ (num_bits w - k)) (2 ^ k))
        ∙ ap (λ (m : ℕ). to_unsigned (promote w) v % m % 2 ^ (num_bits w - k))
            (sym (modulus-parts w k l))
        ∙ ap (λ (t : ℕ). t % 2 ^ (num_bits w - k)) (to_unsigned-extended w v h)

signed_swap :
    (w : Width) (v i : ℤ)
    → IsSigned w v
    → to_unsigned w (rotate_signed w v i)
      ≡ to_unsigned w v
          % 2 ^ (num_bits w - to_unsigned w i % num_bits w)
          * 2 ^ (to_unsigned w i % num_bits w)
        + to_unsigned w v / 2 ^ (num_bits w - to_unsigned w i % num_bits w)
unfolding rotate_signed
signed_swap w v i h = elim (Bool-cases (to_unsigned w i % num_bits w == 0)) [
  | inl e ↦
      let none_left = (==_iff (to_unsigned w i % num_bits w) 0).0 e in
      rw (e, none_left) (no_turn w (to_unsigned w v) (to_unsigned-lt w v))
  | inr e ↦
      rw e (
        turned_digits w v (to_unsigned w i % num_bits w) h (mod-lt (to_unsigned w i) (some_bits w)))
]

-- Rotating a value of a signed type rotates its bit pattern.
pub rotate_signed-rotate_unsigned :
    (w : Width) (v i : ℤ)
    → IsSigned w v
    → to_unsigned w (rotate_signed w v i) ≡ rotate_unsigned w (to_unsigned w v) (to_unsigned w i)
rotate_signed-rotate_unsigned w v i h =
    signed_swap w v i h
    ∙ sym (rotate_unsigned-swap w (to_unsigned w v) (to_unsigned w i) (to_unsigned-lt w v))

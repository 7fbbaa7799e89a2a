-- ===== src/Reference/RotateSigned/LowPart.antt =====
-- The digits that `rotate` of a signed type keeps below, by the shift to the right and the mask.
use native.Mathlib.Nat.{
  pow-le-pow_right, add-mul-mod_self_left, div-add-mod', div-eq_of_lt-le, mod-eq_of_lt, mod-lt,
  one-le-pow, div-le_self, mul-le-mul,
}
use sycl_cts.Reference.Rotate.{modulus-parts, promote-parts, top_digits, widening}
use sycl_cts.Machine.{
  IsSigned, Width, half_modulus, modulus, num_bits, promote, to_unsigned, w16, w32, w64, w8, wrap,
}
use sycl_cts.Prelude.{
  ap, ap₂, arith, negsuc, pos, suc, sym, ℕ, ℤ, ◌%◌, ◌*◌, ◌+◌, ◌-ℤ◌, ◌-◌, ◌/◌, ◌<◌, ◌^◌, ◌∙◌, ◌≡◌,
  ◌≤◌,
}
use sycl_cts.Reference.RotateSigned.{low_mask, shift_right}

complement-div : (p q n : ℕ) → 1 ≤ q → n < p * q → n / q < p → (p * q - 1 - n) / q ≡ p - 1 - n / q
complement-div p q n h l below =
    div-eq_of_lt-le {k = p - 1 - n / q} q
      (omega (arith, l, split (omega (arith, below)), div-add-mod' n q, mod-lt n h))
      (omega (arith, l, split (omega (arith, below)), div-add-mod' n q, mod-lt n h))
  where
    split : p ≡ p - 1 - n / q + 1 + n / q → p * q ≡ (p - 1 - n / q) * q + q + n / q * q
    split e = ap (λ (t : ℕ). t * q) e ∙ omega arith

complement-mod : (p d t : ℕ) → t < p → (p * suc d - 1 - t) % p ≡ p - 1 - t
complement-mod p d t h =
    ap (λ (u : ℕ). u % p) (omega (arith, h))
    ∙ add-mul-mod_self_left (p - 1 - t) p d
    ∙ mod-eq_of_lt (omega (arith, h))

half-le : (w : Width) (m : ℕ) → suc m ≤ half_modulus w → m < modulus w
half-le w8 m h = omega (arith, h)
half-le w16 m h = omega (arith, h)
half-le w32 m h = omega (arith, h)
half-le w64 m h = omega (arith, h)

wide_modulus : (w : Width) → modulus w ≤ modulus (promote w)
wide_modulus w8 = omega arith
wide_modulus w16 = omega arith
wide_modulus w32 = omega arith
wide_modulus w64 = omega arith

wide_parts :
    (w : Width) (k : ℕ)
    → k < num_bits w
    → modulus (promote w) ≡ 2 ^ k * suc (2 ^ (num_bits w - k) * widening w - 1)
wide_parts w k l =
    promote-parts w
    ∙ ap (λ (t : ℕ). t * widening w) (modulus-parts w k l)
    ∙ regroup (2 ^ (num_bits w - k)) (2 ^ k) (widening w)
    ∙ ap (◌*◌ (2 ^ k))
        (omega (arith, mul-le-mul (one-le-pow (num_bits w - k) 2 (omega arith)) (some_widening w)))
  where
    regroup : (a b c : ℕ) → a * b * c ≡ b * (a * c)
    regroup a b c = omega arith

    some_widening : (w : Width) → 1 ≤ widening w
    some_widening w8 = omega arith
    some_widening w16 = omega arith
    some_widening w32 = omega arith
    some_widening w64 = omega arith

-- What the shift to the right leaves in the lower places, whatever the sign extension puts above.
pub shift_right-digits :
    (w : Width) (v : ℤ) (k : ℕ)
    → IsSigned w v
    → k < num_bits w
    → to_unsigned (promote w) (shift_right v (num_bits w - k)) % 2 ^ k
      ≡ to_unsigned w v / 2 ^ (num_bits w - k)
unfolding shift_right
shift_right-digits w (pos m) k h l =
    let q = 2 ^ (num_bits w - k) in
    let fits = half-le w m h.0 in
    ap (λ (t : ℕ). t % 2 ^ k) (mod-eq_of_lt (omega (arith, div-le_self m q, fits, wide_modulus w)))
    ∙ mod-eq_of_lt (top_digits w m k l fits)
    ∙ ap (λ (t : ℕ). t / q) (sym (mod-eq_of_lt fits))
shift_right-digits w (negsuc m) k h l =
    let q = 2 ^ (num_bits w - k) in
    let fits = half-le w m h.1 in
    ap (λ (t : ℕ). (modulus (promote w) - 1 - t) % 2 ^ k)
      (mod-eq_of_lt (omega (arith, div-le_self m q, fits, wide_modulus w)))
    ∙ ap (λ (t : ℕ). (t - 1 - m / q) % 2 ^ k) (wide_parts w k l)
    ∙ complement-mod (2 ^ k) (q * widening w - 1) (m / q) (top_digits w m k l fits)
    ∙ sym (
        complement-div (2 ^ k) q m (one-le-pow (num_bits w - k) 2 (omega arith))
          (omega (arith, fits, modulus-parts w k l)) (top_digits w m k l fits))
    ∙ ap₂ (λ (a b : ℕ). (a - 1 - b) / q) (omega (arith, modulus-parts w k l))
        (sym (mod-eq_of_lt fits))

mask_of :
    (w : Width) (p : ℕ)
    → 1 ≤ p
    → p ≤ half_modulus w
    → to_unsigned (promote w) (wrap w (wrap (promote w) (wrap (promote w) (pos p) -ℤ pos 1)))
      ≡ p - 1
unfolding ◌-ℤ◌
mask_of w8 p h h' = ground arith
mask_of w16 p h h' = ground arith
mask_of w32 p h h' = ground arith
mask_of w64 p h h' = ground arith

half_pow : (w : Width) (k : ℕ) → k < num_bits w → 2 ^ k ≤ half_modulus w
half_pow w8 k l = pow-le-pow_right {n = 2} (omega arith) {j = 7} (omega (arith, l))
half_pow w16 k l = pow-le-pow_right {n = 2} (omega arith) {j = 15} (omega (arith, l))
half_pow w32 k l = pow-le-pow_right {n = 2} (omega arith) {j = 31} (omega (arith, l))
half_pow w64 k l = pow-le-pow_right {n = 2} (omega arith) {j = 63} (omega (arith, l))

pub low_mask-digits :
    (w : Width) (k : ℕ) → k < num_bits w → to_unsigned (promote w) (low_mask w k) ≡ 2 ^ k - 1
unfolding low_mask ◌-ℤ◌
low_mask-digits w k l = mask_of w (2 ^ k) (one-le-pow k 2 (omega arith)) (half_pow w k l)

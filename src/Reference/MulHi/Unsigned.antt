-- ===== src/Reference/MulHi/Unsigned.antt =====
-- The high word of `mul_hi`, from four partial products.
use native.Mathlib.Nat.{mul-le-mul}
use sycl_cts.Prelude.{ap, ap₂, arith, sym, ℕ, ◌%◌, ◌*◌, ◌+◌, ◌-◌, ◌/◌, ◌∙◌, ◌≡◌, ◌≤◌}
use sycl_cts.Machine.{IsUnsigned, Width, modulus, w16, w32, w64, w8}
use sycl_cts.Reference.MulHi.{high_product, split}

-- The sum of the four partial products, without the products: each is below the modulus.
abbrev top_product : Width → ℕ
top_product w = (split w - 1) * (split w - 1)

partial_sums :
    (w : Width) (hh hl lh ll : ℕ)
    → hh ≤ top_product w
    → hl ≤ top_product w
    → lh ≤ top_product w
    → ll ≤ top_product w
    → (hh % modulus w
          + ((ll % modulus w / split w + (hl % modulus w % split w + lh % modulus w % split w))
                % modulus w
                / split w
              + hl % modulus w / split w
              + lh % modulus w / split w))
        % modulus w
      ≡ (hh * modulus w + (hl + lh) * split w + ll) / modulus w
partial_sums w8 hh hl lh ll a b c d = omega arith
partial_sums w16 hh hl lh ll a b c d = omega arith
partial_sums w32 hh hl lh ll a b c d = omega arith
partial_sums w64 hh hl lh ll a b c d = omega arith

below_split :
    (w : Width) (x : ℕ) → IsUnsigned w x → (x / split w ≤ split w - 1) × (x % split w ≤ split w - 1)
below_split w8 x h = omega arith
below_split w16 x h = omega arith
below_split w32 x h = omega arith
below_split w64 x h = omega arith

product_of_halves :
    (w : Width) (p q r s : ℕ)
    → (p * split w + r) * (q * split w + s) ≡ p * q * modulus w + (p * s + q * r) * split w + r * s
product_of_halves w8 p q r s = omega arith
product_of_halves w16 p q r s = omega arith
product_of_halves w32 p q r s = omega arith
product_of_halves w64 p q r s = omega arith

rejoin : (w : Width) (x : ℕ) → x / split w * split w + x % split w ≡ x
rejoin w8 x = omega arith
rejoin w16 x = omega arith
rejoin w32 x = omega arith
rejoin w64 x = omega arith

-- For values of the unsigned type, the high word built from the four partial products is the
-- exact product divided by the modulus, rounded down.
pub high_product-div :
    (w : Width) (x y : ℕ) → IsUnsigned w x → IsUnsigned w y → high_product w x y ≡ x * y / modulus w
unfolding high_product
high_product-div w x y hx hy =
    partial_sums w (p * q) (p * s) (q * r) (r * s) (mul-le-mul bx.0 by.0) (mul-le-mul bx.0 by.1)
      (mul-le-mul by.0 bx.1) (mul-le-mul bx.1 by.1)
    ∙ ap (λ t. t / modulus w)
        (sym (product_of_halves w p q r s) ∙ ap₂ ◌*◌ (rejoin w x) (rejoin w y))
  where
    p : ℕ
    p = x / split w

    q : ℕ
    q = y / split w

    r : ℕ
    r = x % split w

    s : ℕ
    s = y % split w

    bx : (p ≤ split w - 1) × (r ≤ split w - 1)
    bx = below_split w x hx

    by : (q ≤ split w - 1) × (s ≤ split w - 1)
    by = below_split w y hy

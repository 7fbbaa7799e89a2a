-- ===== src/Reference/MadSatLong/Product.antt =====
-- The signed 64-bit `mad_sat` where the product fits the type and both factors are at least 2 in
-- absolute value: there the comparisons of absolute values see no overflow.
use sycl_cts.Reference.Products.{negsuc-*ℤ-negsuc, negsuc-*ℤ-pos, pos-*ℤ-negsuc, pos-*ℤ-pos}
use sycl_cts.Machine.{IsSigned, clamp_signed, half_modulus, max_val, min_val, w64, wrap-IsSigned}
use sycl_cts.Prelude.{
  Bool, arith, dec_lt, false, if◌then◌else◌, ltb_ℤ, magnitude, negsuc, pos, sub_ℕ, suc, true, ℕ, ℤ,
  ◌*ℤ◌, ◌*◌, ◌+ℤ◌, ◌-ℤ◌, ◌<◌, ◌≡◌, ◌≤ℤ◌, ◌≤◌,
}
use native.Mathlib.Nat.{mul-le-mul}
use sycl_cts.Reference.Saturate.{add_sat_signed-clamp}
use sycl_cts.Reference.MadSatLong.{
  IsAccurate, LongDouble, mad_sat_product, mad_sat_signed_long, outgrows, same_sign,
}

-- The comparisons find that a product of at least twice each factor has not wrapped.
pub mad_sat_product-same :
    (x y z : ℤ) (p : ℕ)
    → same_sign x y ≡ true
    → magnitude x < p
    → magnitude y < p
    → p < half_modulus w64
    → IsSigned w64 z
    → mad_sat_product (pos p) x y z ≡ clamp_signed w64 (pos p +ℤ z)
unfolding mad_sat_product outgrows
mad_sat_product-same x y z p same hx hy hp hz = ground (arith, add_sat_signed-clamp w64 (pos p) z)

-- The absolute value of the least product does not fit, and it compares as the least value.
outgrows-least : (x y : ℤ) → IsSigned w64 x → outgrows (min_val w64) x y ≡ false
unfolding outgrows
outgrows-least x y hx = ground arith

outgrows-fits :
    (x y : ℤ) (p : ℕ)
    → magnitude x < p
    → magnitude y < p
    → p < half_modulus w64
    → outgrows (sub_ℕ 0 p) x y ≡ true
unfolding outgrows
outgrows-fits x y p hx hy h = ground arith

differ_fits :
    (x y z : ℤ) (p : ℕ)
    → same_sign x y ≡ false
    → magnitude x < p
    → magnitude y < p
    → p < half_modulus w64
    → IsSigned w64 z
    → mad_sat_product (sub_ℕ 0 p) x y z ≡ clamp_signed w64 (sub_ℕ 0 p +ℤ z)
unfolding mad_sat_product
differ_fits x y z p differ hx hy hp hz =
    rw (differ, outgrows-fits x y p hx hy hp, negative)
      (add_sat_signed-clamp w64 (sub_ℕ 0 p) z (ground arith) hz)
  where
    negative : ltb_ℤ (sub_ℕ 0 p) (pos 0) ≡ true
    negative = ground arith

differ_least :
    (x y z : ℤ)
    → same_sign x y ≡ false
    → IsSigned w64 x
    → IsSigned w64 z
    → mad_sat_product (min_val w64) x y z ≡ clamp_signed w64 (min_val w64 +ℤ z)
unfolding mad_sat_product ◌-ℤ◌ ◌+ℤ◌
differ_least x y z differ hx hz = rw (differ, outgrows-least x y hx) (ground arith)

pub mad_sat_product-differ :
    (x y z : ℤ) (p : ℕ)
    → same_sign x y ≡ false
    → magnitude x < p
    → magnitude y < p
    → p ≤ half_modulus w64
    → IsSigned w64 x
    → IsSigned w64 z
    → mad_sat_product (sub_ℕ 0 p) x y z ≡ clamp_signed w64 (sub_ℕ 0 p +ℤ z)
mad_sat_product-differ x y z p differ hx hy hp sx hz = elim (dec_lt p (half_modulus w64)) [
  | yes h ↦ differ_fits x y z p differ hx hy h hz
  | no h ↦ rw (least p hp h) (differ_least x y z differ sx hz)
]
  where
    least : (p : ℕ) → p ≤ half_modulus w64 → ¬ (p < half_modulus w64) → sub_ℕ 0 p ≡ min_val w64
    least p hp h = ground arith

-- A product of absolute values that are at least 2 exceeds both.
product_grows : (m n : ℕ) → 2 ≤ m → 2 ≤ n → (m < m * n) × (n < m * n)
product_grows m n hm hn = omega (
  arith,
  mul-le-mul {n₁ = m} {m₁ = 2} {n₂ = m} {m₂ = n} (omega arith) hn,
  mul-le-mul {n₁ = 2} {m₁ = n} {n₂ = m} {m₂ = n} hm (omega arith),
)

negated_fits : (p : ℕ) → IsSigned w64 (sub_ℕ 0 p) → p ≤ half_modulus w64
negated_fits p h = ground arith

-- The exact product, of factors of any sign.
mad_sat_product-exact :
    (x y z : ℤ)
    → 2 ≤ magnitude x
    → 2 ≤ magnitude y
    → IsSigned w64 x
    → IsSigned w64 y
    → IsSigned w64 (x *ℤ y)
    → IsSigned w64 z
    → mad_sat_product (x *ℤ y) x y z ≡ clamp_signed w64 (x *ℤ y +ℤ z)
mad_sat_product-exact (pos m) (pos n) z hx hy sx sy sp sz =
    let grows = product_grows m n hx hy in
    let fits = rw pos-*ℤ-pos at sp in
    rw (pos-*ℤ-pos m n) (
      mad_sat_product-same (pos m) (pos n) z (m * n) (unfold same_sign in ground arith) grows.0
        grows.1 (omega arith) sz)
mad_sat_product-exact (pos m) (negsuc n) z hx hy sx sy sp sz =
    let grows = product_grows (m) (suc n) hx hy in
    let fits = rw pos-*ℤ-negsuc at sp in
    rw (pos-*ℤ-negsuc m n) (
      mad_sat_product-differ (pos m) (negsuc n) z (m * suc n) (unfold same_sign in ground arith)
        grows.0 grows.1 (negated_fits (m * suc n) fits) sx sz)
mad_sat_product-exact (negsuc m) (pos n) z hx hy sx sy sp sz =
    let grows = product_grows (suc m) (n) hx hy in
    let fits = rw negsuc-*ℤ-pos at sp in
    rw (negsuc-*ℤ-pos m n) (
      mad_sat_product-differ (negsuc m) (pos n) z (suc m * n) (unfold same_sign in ground arith)
        grows.0 grows.1 (negated_fits (suc m * n) fits) sx sz)
mad_sat_product-exact (negsuc m) (negsuc n) z hx hy sx sy sp sz =
    let grows = product_grows (suc m) (suc n) hx hy in
    let fits = rw negsuc-*ℤ-negsuc at sp in
    rw (negsuc-*ℤ-negsuc m n) (
      mad_sat_product-same (negsuc m) (negsuc n) z (suc m * suc n)
        (unfold same_sign in ground arith) grows.0 grows.1 (omega arith) sz)

guarded :
    (above below : Bool) (s r : ℤ)
    → (s ≤ℤ max_val w64 → above ≡ false)
    → (min_val w64 ≤ℤ s → below ≡ false)
    → r ≡ clamp_signed w64 s
    → (if above then max_val w64 else if below then min_val w64 else r) ≡ clamp_signed w64 s
guarded above below s r h k e = ground arith

-- For values of the 64-bit signed type and accurate comparisons of `long double`s: where the factors
-- are at least 2 in absolute value and their product fits the type, `mad_sat` on
-- the 64-bit signed type is the exact `x * y + z`, limited to the type.
pub mad_sat_signed_long-clamp :
    (f : LongDouble)
    → IsAccurate f
    → (x y z : ℤ) → 2 ≤ magnitude x
    → 2 ≤ magnitude y
    → IsSigned w64 x
    → IsSigned w64 y
    → IsSigned w64 (x *ℤ y)
    → IsSigned w64 z
    → mad_sat_signed_long f x y z ≡ clamp_signed w64 (x *ℤ y +ℤ z)
unfolding mad_sat_signed_long
mad_sat_signed_long-clamp f accurate x y z hx hy sx sy sp sz = rw (wrap-IsSigned w64 (x *ℤ y) sp) (
    guarded (f.above x y z) (f.below x y z) (x *ℤ y +ℤ z) (mad_sat_product (x *ℤ y) x y z)
      (accurate.not_above x y z) (accurate.not_below x y z)
      (mad_sat_product-exact x y z hx hy sx sy sp sz))

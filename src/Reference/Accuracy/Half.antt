-- ===== src/Reference/Accuracy/Half.antt =====
-- The unit in the last place of a half, taken from that of a float.
use native.Mathlib.Nat.{pow-suc}
use sycl_cts.Reference.Accuracy.Ulp.{get_ulp_std-gap}
use sycl_cts.Reference.Accuracy.{
  Float, Value, exact, finite, get_ulp_std, get_ulp_std_half, magnitude_at, magnitude_of, scale,
  value_of,
}
use sycl_cts.Reference.Accuracy.Gaps.{gap}
use sycl_cts.Prelude.{
  Bool, ap, ap₂, arith, false, negate, negsuc, pos, refl, suc, sym, true, zero, ℕ, ◌%◌, ◌*ℤ◌, ◌*◌,
  ◌+◌, ◌-◌, ◌/◌, ◌<◌, ◌^◌, ◌∙◌, ◌≡◌, ◌≤◌,
}

-- The place among the floats of a normal half.
abbrev pub widen : ℕ → ℕ
widen m = m * 2 ^ 13 + 112 * 2 ^ 23

pow_add : (e k : ℕ) → 2 ^ (e + k) ≡ 2 ^ e * 2 ^ k
pow_add zero k = let e : 0 + k ≡ k = omega arith in rw e (omega arith)
pow_add (suc e) k =
    let shift : suc e + k ≡ suc (e + k) = omega arith in
    rw (shift, pow-suc 2 (e + k), pow-suc 2 e, pow_add e k) (regroup (2 ^ e) (2 ^ k))
  where
    regroup : (a b : ℕ) → a * b * 2 ≡ a * 2 * b
    regroup a b = omega arith

wide_value :
    (fraction e : ℕ)
    → magnitude_at (2 ^ 23) (suc (e + 112)) (fraction * 2 ^ 13)
      ≡ magnitude_at (2 ^ 10) (suc e) fraction * 2 ^ 125
unfolding magnitude_at
wide_value fraction e = rw (pow_add e 112) (omega arith)

-- The value of a half is that of its float, in units of 2 ^ -149.
widen-magnitude :
    (m : ℕ) → 2 ^ 10 ≤ m → magnitude_of (2 ^ 23) (widen m) ≡ magnitude_of (2 ^ 10) m * 2 ^ 125
unfolding magnitude_of
widen-magnitude m h =
    let e = m / 2 ^ 10 - 1 in
    let quotient : m / 2 ^ 10 ≡ suc e = omega arith in
    let wide_quotient : widen m / 2 ^ 23 ≡ suc (e + 112) = omega arith in
    let remainder : widen m % 2 ^ 23 ≡ m % 2 ^ 10 * 2 ^ 13 = omega arith in
    ap₂ (magnitude_at (2 ^ 23)) wide_quotient remainder
    ∙ wide_value (m % 2 ^ 10) e
    ∙ ap (λ q. magnitude_at (2 ^ 10) q (m % 2 ^ 10) * 2 ^ 125) (sym quotient)

widen-gap :
    (m : ℕ) → 2 ^ 10 < m → gap (2 ^ 23) (widen m - 1) * 8192 ≡ gap (2 ^ 10) (m - 1) * 2 ^ 125
widen-gap m h =
    let e = (m - 1) / 2 ^ 10 - 1 in
    let place : (m - 1) / 2 ^ 10 - 1 ≡ e = refl in
    let wide_place : (widen m - 1) / 2 ^ 23 - 1 ≡ e + 112 = omega arith in
    rw (wide_place, pow_add e 112) (omega arith)

scale-exact : (g multiplier : ℕ) → scale multiplier (exact (pos g)) ≡ exact (pos (g * multiplier))
unfolding scale ◌*ℤ◌
scale-exact g multiplier = ap exact (ground arith)

-- The float of the same value as a normal half, of either sign.
abbrev pub float_of : Bool → ℕ → Float
float_of false m = finite (pos (widen m))
float_of true m = finite (negsuc (widen m - 1))

float_ulp :
    (is_negative : Bool) (m : ℕ)
    → 2 ^ 10 ≤ m
    → m ≤ 0x7bff
    → get_ulp_std (2 ^ 23) 0x7f7f_ffff (float_of is_negative m)
      ≡ exact (pos (gap (2 ^ 23) (widen m - 1)))
float_ulp false m least most =
    ap (λ k. get_ulp_std (2 ^ 23) 0x7f7f_ffff (finite (pos k))) (omega arith)
    ∙ ((get_ulp_std-gap (2 ^ 23) 0x7f7f_ffff (omega arith) (omega arith)).1 (widen m - 1)
        (omega arith)).0
float_ulp true m least most =
    ((get_ulp_std-gap (2 ^ 23) 0x7f7f_ffff (omega arith) (omega arith)).1 (widen m - 1)
      (omega arith)).1

half_ulp {ℓ} :
    {A : Type ℓ} (narrow : Value → A) (is_negative : Bool) (m : ℕ)
    → 2 ^ 10 ≤ m
    → m ≤ 0x7bff
    → get_ulp_std_half narrow (float_of is_negative m)
      ≡ narrow (exact (pos (gap (2 ^ 23) (widen m - 1) * 8192)))
unfolding get_ulp_std_half
half_ulp narrow is_negative m least most =
    ap (λ v. narrow (scale 8192 v)) (float_ulp is_negative m least most)
    ∙ ap narrow (scale-exact (gap (2 ^ 23) (widen m - 1)) 8192)

-- The value of the half with the place `m`, in units of 2 ^ -149.
abbrev pub half_value : Bool → ℕ → Value
half_value false m = exact (pos (magnitude_of (2 ^ 10) m * 2 ^ 125))
half_value true m = exact (negate (pos (magnitude_of (2 ^ 10) m * 2 ^ 125)))

float_value :
    (is_negative : Bool) (m : ℕ)
    → 2 ^ 10 ≤ m
    → value_of (2 ^ 23) (float_of is_negative m) ≡ half_value is_negative m
unfolding value_of
float_value false m h = ap (λ k. exact (pos k)) (widen-magnitude m h)
float_value true m h =
    ap (λ k. exact (negate (pos (magnitude_of (2 ^ 23) k)))) (omega arith)
    ∙ ap (λ k. exact (negate (pos k))) (widen-magnitude m h)

-- For a normal half of either sign, given as the float of the same value: above the least one the
-- product is the distance to its neighbour nearer to 0 among the halves, and at the least one, where
-- that distance is the least positive half, it is half of it.
pub get_ulp_std_half-gap {ℓ} :
    {A : Type ℓ} (narrow : Value → A) (is_negative : Bool) (m : ℕ)
    → 2 ^ 10 ≤ m
    → m ≤ 0x7bff
    → (value_of (2 ^ 23) (float_of is_negative m) ≡ half_value is_negative m)
      × (2 ^ 10 < m
          → get_ulp_std_half narrow (float_of is_negative m)
            ≡ narrow (exact (pos (gap (2 ^ 10) (m - 1) * 2 ^ 125))))
      × (m ≡ 2 ^ 10
          → get_ulp_std_half narrow (float_of is_negative m) ≡ narrow (exact (pos (2 ^ 124))))
get_ulp_std_half-gap narrow is_negative m least most =
    let ulp = half_ulp narrow is_negative m least most in
    (
      float_value is_negative m least,
      λ h. ulp ∙ ap (λ g. narrow (exact (pos g))) (widen-gap m h),
      λ e. ulp ∙ rw e refl,
    )

-- ===== src/Reference/NextAfter.antt =====
-- `nextafter` for sycl::half, of util/math_reference.cpp. A half is its 16 bits, read as an
-- `int16_t`; `std::isnan` and the equality of halves are parameters.
use sycl_cts.Machine.{IsSigned, to_unsigned, w16, wrap, wrap-IsSigned}
use sycl_cts.Prelude.{
  Bool, Bool-cases, and-pow, ap, arith, bit_and, false, if◌then◌else◌, inl, inr, ltb, ltb_ℤ,
  neg_part, negate, negsuc, pos, pos_part, true, ℕ, ℤ, ◌+ℤ◌, ◌-ℤ◌, ◌-◌, ◌<◌, ◌==◌, ◌↔◌, ◌∙◌, ◌≡◌,
  ◌≢◌, ◌≤◌,
}

-- `if (a & 0x8000) a = 0x8000 - a`
unfoldable pub to_ordinal : ℤ → ℤ
to_ordinal a = if bit_and (to_unsigned w16 a) 0x8000 == 0 then a else wrap w16 (pos 0x8000 -ℤ a)

-- `a += (a < b) ? 1 : -1`
pub step_towards : ℤ → ℤ → ℤ
step_towards a b = wrap w16 (a +ℤ (if ltb_ℤ a b then pos 1 else negsuc 0))

-- `(a < 0) ? (int16_t)0x8000 - a : a`
pub of_ordinal : ℤ → ℤ
of_ordinal a = wrap w16 (if ltb_ℤ a (pos 0) then wrap w16 (pos 0x8000) -ℤ a else a)

pub nextafter : (ℤ → Bool) → (ℤ → ℤ → Bool) → ℤ → ℤ → ℤ
unfolding to_ordinal step_towards of_ordinal
nextafter isnan equal x y =
    if isnan x
    then x
    else if isnan y
    then y
    else if equal x y
    then y
    else of_ordinal (step_towards (to_ordinal x) (to_ordinal y))

-- The place of a half among all of them, in the order of their values: the sign bit and the 15
-- digits below it as sign and magnitude. Both zeros are at 0.
unfoldable pub ordinal : ℤ → ℤ
ordinal (pos m) = pos m
ordinal (negsuc n) = negate (pos (0x7fff - n))

sign_bit : (u : ℕ) → u < 0x1_0000 → (bit_and u 0x8000 == 0) ≡ ltb u 0x8000
sign_bit u h = rw (and-pow 15 u) (ground (arith, h))

to_ordinal-ordinal : (x : ℤ) → IsSigned w16 x → to_ordinal x ≡ ordinal x
unfolding to_ordinal ordinal ◌-ℤ◌
to_ordinal-ordinal (pos m) h =
    rw (to_ordinal, sign_bit (to_unsigned w16 (pos m)) (omega arith)) (ground (arith, h))
to_ordinal-ordinal (negsuc n) h =
    rw (to_ordinal, sign_bit (to_unsigned w16 (negsuc n)) (omega arith)) (ground (arith, h))

-- Ordinals are symmetric about 0.
ordinal-bounds :
    (x : ℤ) → IsSigned w16 x → (pos_part (ordinal x) ≤ 0x7fff) × (neg_part (ordinal x) ≤ 0x7fff)
unfolding ordinal
ordinal-bounds (pos m) h = ground arith
ordinal-bounds (negsuc n) h = ground arith

ordinal-of_ordinal :
    (a : ℤ) → pos_part a ≤ 0x7fff → neg_part a ≤ 0x7fff → ordinal (of_ordinal a) ≡ a
unfolding ordinal of_ordinal ◌-ℤ◌
ordinal-of_ordinal (pos m) h g = ground arith
ordinal-of_ordinal (negsuc n) h g = ground arith

-- One step towards another ordinal stays among them.
step-bounds :
    (a b : ℤ)
    → pos_part a ≤ 0x7fff
    → neg_part a ≤ 0x7fff
    → pos_part b ≤ 0x7fff
    → neg_part b ≤ 0x7fff
    → a ≢ b
    → (pos_part (a +ℤ (if ltb_ℤ a b then pos 1 else negsuc 0)) ≤ 0x7fff)
      × (neg_part (a +ℤ (if ltb_ℤ a b then pos 1 else negsuc 0)) ≤ 0x7fff)
unfolding ◌+ℤ◌
step-bounds (pos m) (pos n) ha hb hc hd differ = ground arith
step-bounds (pos m) (negsuc n) ha hb hc hd differ = ground arith
step-bounds (negsuc m) (pos n) ha hb hc hd differ = ground arith
step-bounds (negsuc m) (negsuc n) ha hb hc hd differ =
    let apart : m ≢ n = λ e. differ (ap negsuc e) in ground (arith, apart)

ordinal-step :
    (a b : ℤ)
    → pos_part a ≤ 0x7fff
    → neg_part a ≤ 0x7fff
    → pos_part b ≤ 0x7fff
    → neg_part b ≤ 0x7fff
    → a ≢ b
    → ordinal (of_ordinal (step_towards a b)) ≡ a +ℤ (if ltb_ℤ a b then pos 1 else negsuc 0)
unfolding step_towards
ordinal-step a b ha hb hc hd differ =
    let bounds = step-bounds a b ha hb hc hd differ in
    ap (λ c. ordinal (of_ordinal c))
      (wrap-IsSigned w16 (a +ℤ (if ltb_ℤ a b then pos 1 else negsuc 0))
        (omega (arith, bounds.0), omega (arith, bounds.1)))
    ∙ ordinal-of_ordinal (a +ℤ (if ltb_ℤ a b then pos 1 else negsuc 0)) bounds.0 bounds.1

-- Of two halves that are no NaN and differ in value, `nextafter` of the first is the half next to
-- it in the order of values, on the side of the second, if equality of halves that are no NaN is
-- equality of values.
pub nextafter-ordinal :
    (isnan : ℤ → Bool) (equal : ℤ → ℤ → Bool) (x y : ℤ)
    → IsSigned w16 x
    → IsSigned w16 y
    → ((x y : ℤ) → isnan x ≡ false → isnan y ≡ false → (equal x y ≡ true) ↔ (ordinal x ≡ ordinal y))
    → (isnan x ≡ false)
    → (isnan y ≡ false)
    → ordinal x ≢ ordinal y
    → ordinal (nextafter isnan equal x y)
      ≡ ordinal x +ℤ (if ltb_ℤ (ordinal x) (ordinal y) then pos 1 else negsuc 0)
unfolding nextafter step_towards
nextafter-ordinal isnan equal x y hx hy ieee nx ny differ = elim (Bool-cases (equal x y)) [
  | inl e ↦ absurd (differ ((ieee x y nx ny).0 e))
  | inr e ↦
      rw (nextafter, nx, ny, e, to_ordinal-ordinal x hx, to_ordinal-ordinal y hy)
        (ordinal-step (ordinal x) (ordinal y) (ordinal-bounds x hx).0 (ordinal-bounds x hx).1
          (ordinal-bounds y hy).0 (ordinal-bounds y hy).1 differ)
]

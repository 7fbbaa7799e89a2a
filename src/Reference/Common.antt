-- ===== src/Reference/Common.antt =====
-- The common functions sign, step, mix and smoothstep of util/math_reference.cpp, over the operations
-- of a floating-point type. `T()` is 0.
use sycl_cts.Reference.Geometric.{FloatingPoint}
use sycl_cts.Reference.Order.{clamp}
use sycl_cts.Reference.ResultRef.{ResultRef, defined, flagged}
use sycl_cts.Prelude.{ap, false, if◌then◌else◌, inl, inr, sym, true, ◌&&◌, ◌||◌, ◌≡◌, ◌⊎◌}

module _ {ℓ} {T : Type ℓ} (f : FloatingPoint T) where
  pub sign_t : T → T
  sign_t a =
      if f.isnan a
      then f.zero_value
      else if f.lt f.zero_value a
      then f.one_value
      else if f.lt a f.zero_value
      then f.minus_one
      else if f.signbit a
      then f.minus_zero
      else f.zero_value

  pub step_t : T → T → T
  step_t a b = if f.lt b a then f.zero_value else f.one_value

  pub mix_t : T → T → T → ResultRef T
  mix_t x y a =
      if f.le f.zero_value a && f.le a f.one_value
      then defined (f.add x (f.mul (f.sub y x) a))
      else flagged f.zero_value true

  -- `3 - 2 * t`, times `t * t`.
  unfoldable pub hermite : T → T
  hermite t = f.mul (f.mul t t) (f.sub f.three_value (f.mul f.two_value t))

  unfoldable pub smoothstep_t : T → T → T → ResultRef T
  smoothstep_t a b c =
      if f.isnan a || f.isnan b || f.isnan c || f.le b a
      then flagged f.zero_value true
      else defined (
          hermite
            (clamp f.zero_value f.lt (f.div (f.sub c a) (f.sub b a)) f.zero_value f.one_value).res)

  -- Between edges in order, smoothstep is 0 where the fraction of the way is below 0, and 1 where it
  -- is above 1, by what the type's arithmetic makes of 0, 1, 2 and 3.
  smoothstep_t-limits :
      (f.lt f.one_value f.zero_value ≡ false)
        × ((f.mul f.zero_value f.zero_value ≡ f.zero_value)
            × ((f.mul f.two_value f.zero_value ≡ f.zero_value)
                × (f.mul f.zero_value (f.sub f.three_value f.zero_value) ≡ f.zero_value)))
      → (f.mul f.one_value f.one_value ≡ f.one_value)
        × ((f.mul f.two_value f.one_value ≡ f.two_value)
            × (f.mul f.one_value (f.sub f.three_value f.two_value) ≡ f.one_value))
      → (a b c : T) → (f.isnan a || f.isnan b || f.isnan c || f.le b a) ≡ false
      → (result : T)
      → (f.lt (f.div (f.sub c a) (f.sub b a)) f.zero_value ≡ true) × (result ≡ f.zero_value)
        ⊎ (f.lt (f.div (f.sub c a) (f.sub b a)) f.zero_value ≡ false)
          × ((f.lt f.one_value (f.div (f.sub c a) (f.sub b a)) ≡ true) × (result ≡ f.one_value))
      → smoothstep_t a b c ≡ defined result
  unfolding smoothstep_t clamp hermite
  smoothstep_t-limits zero_laws one_laws a b c in_order result (inl h) =
      rw (in_order, zero_laws.0, h.0, hermite, zero_laws.1.0, zero_laws.1.1.0, zero_laws.1.1.1)
        (ap defined (sym h.1))
  smoothstep_t-limits zero_laws one_laws a b c in_order result (inr h) =
      rw (in_order, zero_laws.0, h.0, h.1.0, hermite, one_laws.0, one_laws.1.0, one_laws.1.1)
        (ap defined (sym h.1.1))

-- ===== src/Reference/Accuracy/Ulp.antt =====
-- `get_ulp_std` as the lesser of the distances to both neighbours.
use sycl_cts.Reference.Accuracy.{
  Value, exact, fabs, finite, fmin, get_ulp_std, magnitude_at, magnitude_of, next_down, next_up,
  plus_inf, subtract, value_of,
}
use sycl_cts.Reference.Accuracy.Gaps.{gap, gap_mono, magnitude_of-digits, magnitude_of-suc}
use sycl_cts.Prelude.{
  Bool-cases, ap, ap₂, arith, false, inl, inr, negate, negsuc, pos, refl, sub_ℕ, suc, zero, ℕ, ◌+◌,
  ◌-ℤ◌, ◌==◌, ◌∙◌, ◌≡◌, ◌≤◌, ◌⊎◌,
}

-- The four differences of neighbours.
distance_down : (a g : ℕ) → fabs (subtract (exact (pos a)) (exact (pos (a + g)))) ≡ exact (pos g)
unfolding fabs subtract ◌-ℤ◌
distance_down a g = ap (λ d. exact (pos d)) (ground arith)

distance_up : (a g : ℕ) → fabs (subtract (exact (pos (a + g))) (exact (pos a))) ≡ exact (pos g)
unfolding fabs subtract ◌-ℤ◌
distance_up a g = ap (λ d. exact (pos d)) (ground arith)

distance_up_negative :
    (a g : ℕ)
    → fabs (subtract (exact (negate (pos a))) (exact (negate (pos (a + g))))) ≡ exact (pos g)
unfolding fabs subtract ◌-ℤ◌
distance_up_negative a g = ap (λ d. exact (pos d)) (ground arith)

distance_down_negative :
    (a g : ℕ)
    → fabs (subtract (exact (negate (pos (a + g)))) (exact (negate (pos a)))) ≡ exact (pos g)
unfolding fabs subtract ◌-ℤ◌
distance_down_negative a g = ap (λ d. exact (pos d)) (ground arith)

-- The nearer neighbour is the one below in magnitude; the other may be an infinity.
abbrev IsFarther : ℕ → Value → Type 0
IsFarther g u = (u ≡ plus_inf) ⊎ ((g' : ℕ) × (g ≤ g') × (u ≡ exact (pos g')))

fmin_left : (g : ℕ) (u : Value) → IsFarther g u → fmin (exact (pos g)) u ≡ exact (pos g)
unfolding fmin
fmin_left g u (inl e) = rw e refl
fmin_left g u (inr (g', h, e)) = rw e (ground arith)

fmin_right : (g : ℕ) (u : Value) → IsFarther g u → fmin u (exact (pos g)) ≡ exact (pos g)
unfolding fmin
fmin_right g u (inl e) = rw e refl
fmin_right g u (inr (g', h, e)) = rw e (ground arith)

module _ (weight last : ℕ) (wide : 1 ≤ weight) where
  step : (n : ℕ) → magnitude_of weight (suc n) ≡ magnitude_of weight n + gap weight n
  step n = ap (magnitude_of weight) (omega arith) ∙ magnitude_of-suc weight n wide

  zero_magnitude : magnitude_of weight 0 ≡ 0
  unfolding magnitude_at
  zero_magnitude =
      ap (magnitude_of weight) (omega arith) ∙ magnitude_of-digits weight 0 0 (omega arith)

  -- The value of the negative number of a magnitude's place, or of 0.
  negative : ℕ → Value
  negative n = exact (negate (pos (magnitude_of weight n)))

  below :
      (n : ℕ)
      → fabs (subtract (value_of weight (finite (pos n))) (value_of weight (finite (pos (suc n)))))
        ≡ exact (pos (gap weight n))
  unfolding value_of
  below n =
      ap (λ b. fabs (subtract (exact (pos (magnitude_of weight n))) (exact (pos b)))) (step n)
      ∙ distance_down (magnitude_of weight n) (gap weight n)

  above :
      (n : ℕ)
      → fabs (subtract (value_of weight (finite (pos (suc n)))) (value_of weight (finite (pos n))))
        ≡ exact (pos (gap weight n))
  unfolding value_of
  above n =
      ap (λ b. fabs (subtract (exact (pos b)) (exact (pos (magnitude_of weight n))))) (step n)
      ∙ distance_up (magnitude_of weight n) (gap weight n)

  below_negative :
      (n : ℕ) → fabs (subtract (negative (suc n)) (negative n)) ≡ exact (pos (gap weight n))
  unfolding negative
  below_negative n =
      ap
        (λ b.
          fabs (subtract (exact (negate (pos b))) (exact (negate (pos (magnitude_of weight n))))))
        (step n)
      ∙ distance_down_negative (magnitude_of weight n) (gap weight n)

  above_negative :
      (n : ℕ) → fabs (subtract (negative n) (negative (suc n))) ≡ exact (pos (gap weight n))
  unfolding negative
  above_negative n =
      ap
        (λ b.
          fabs (subtract (exact (negate (pos (magnitude_of weight n)))) (exact (negate (pos b)))))
        (step n)
      ∙ distance_up_negative (magnitude_of weight n) (gap weight n)

  next_down-suc : (n : ℕ) → next_down last (finite (pos (suc n))) ≡ finite (pos n)
  unfolding next_down
  next_down-suc n = ap finite (ground arith)

  next_up-negative : (n : ℕ) → value_of weight (next_up last (finite (negsuc n))) ≡ negative n
  unfolding next_up value_of negative
  next_up-negative zero = rw zero_magnitude refl
  next_up-negative (suc n) =
      let e : sub_ℕ 1 (suc (suc n)) ≡ negsuc n = ground arith in
      ap (λ k. value_of weight (finite k)) e

  larger : (n : ℕ) → gap weight n ≤ gap weight (suc n)
  larger n = let e : n + 1 ≡ suc n = omega arith in rw e at (gap_mono weight n wide)

  next_up-IsFarther :
      (n : ℕ)
      → IsFarther (gap weight n) (
          fabs (
            subtract
              (value_of weight (next_up last (finite (pos (suc n)))))
              (value_of weight (finite (pos (suc n))))))
  unfolding next_up value_of fabs subtract
  next_up-IsFarther n = elim (Bool-cases (suc n == last)) [
    | inl e ↦ inl (rw e refl)
    | inr e ↦ inr (
      gap weight (suc n),
      larger n,
      rw e (
          ap
            (λ k. fabs (
              subtract (value_of weight (finite (pos k))) (value_of weight (finite (pos (suc n))))))
            (omega arith)
          ∙ above (suc n)),
    )
  ]

  next_down-IsFarther :
      (n : ℕ)
      → IsFarther (gap weight n) (
          fabs (subtract (value_of weight (next_down last (finite (negsuc n)))) (negative (suc n))))
  unfolding next_down value_of fabs subtract negative
  next_down-IsFarther n = elim (Bool-cases (suc n == last)) [
    | inl e ↦ inl (rw e refl)
    | inr e ↦ inr (
      gap weight (suc n),
      larger n,
      rw e (
          ap (λ k. fabs (subtract (value_of weight (finite (negsuc k))) (negative (suc n))))
            (omega arith)
          ∙ below_negative (suc n)),
    )
  ]

  least_negative : value_of weight (next_down last (finite (pos 0))) ≡ negative 1
  unfolding next_down value_of negative
  least_negative = refl

  next_up-zero : 1 ≤ last → next_up last (finite (pos 0)) ≡ finite (pos 1)
  unfolding next_up
  next_up-zero h = let inside : (0 == last) ≡ false = ground arith in rw inside refl

  value_zero : value_of weight (finite (pos 0)) ≡ negative 0
  unfolding value_of negative
  value_zero = rw zero_magnitude refl

  lower_zero :
      fabs (
        subtract
          (value_of weight (next_down last (finite (pos 0))))
          (value_of weight (finite (pos 0))))
      ≡ exact (pos (gap weight 0))
  lower_zero = ap₂ (λ v u. fabs (subtract v u)) least_negative value_zero ∙ below_negative 0

  upper_zero :
      1 ≤ last
      → fabs (
          subtract
            (value_of weight (next_up last (finite (pos 0))))
            (value_of weight (finite (pos 0))))
        ≡ exact (pos (gap weight 0))
  upper_zero h =
      ap (λ y. fabs (subtract (value_of weight y) (value_of weight (finite (pos 0)))))
        (next_up-zero h)
      ∙ above 0

  zero_ulp : 1 ≤ last → get_ulp_std weight last (finite (pos 0)) ≡ exact (pos (gap weight 0))
  unfolding get_ulp_std
  zero_ulp h =
      ap₂ fmin lower_zero (upper_zero h)
      ∙ fmin_left (gap weight 0) (exact (pos (gap weight 0)))
          (inr (gap weight 0, omega arith, refl))

  positive_ulp :
      (n : ℕ) → get_ulp_std weight last (finite (pos (suc n))) ≡ exact (pos (gap weight n))
  unfolding get_ulp_std
  positive_ulp n =
      ap
        (λ v. fmin v (
          fabs (
            subtract (value_of weight (next_up last (finite (pos (suc n)))))
              (value_of weight (finite (pos (suc n)))))))
        (ap (λ y. fabs (subtract (value_of weight y) (value_of weight (finite (pos (suc n))))))
            (next_down-suc n)
          ∙ below n)
      ∙ fmin_left (gap weight n)
          (fabs (
            subtract (value_of weight (next_up last (finite (pos (suc n)))))
              (value_of weight (finite (pos (suc n))))))
          (next_up-IsFarther n)

  value-negsuc : (n : ℕ) → value_of weight (finite (negsuc n)) ≡ negative (suc n)
  unfolding value_of negative
  value-negsuc n = refl

  negative_ulp : (n : ℕ) → get_ulp_std weight last (finite (negsuc n)) ≡ exact (pos (gap weight n))
  unfolding get_ulp_std
  negative_ulp n = rw (value-negsuc n) (
      ap
        (fmin (
          fabs
            (subtract (value_of weight (next_down last (finite (negsuc n)))) (negative (suc n)))))
        (ap (λ v. fabs (subtract v (negative (suc n)))) (next_up-negative n) ∙ above_negative n)
      ∙ fmin_right (gap weight n)
          (fabs
            (subtract (value_of weight (next_down last (finite (negsuc n)))) (negative (suc n))))
          (next_down-IsFarther n))

  -- The unit in the last place is the distance to the neighbour on the side of 0, and from 0 the
  -- distance to the least number, for every number of the format.
  pub get_ulp_std-gap :
      1 ≤ last
      → (get_ulp_std weight last (finite (pos 0)) ≡ exact (pos (gap weight 0)))
        × ((n : ℕ)
            → suc n ≤ last
            → (get_ulp_std weight last (finite (pos (suc n))) ≡ exact (pos (gap weight n)))
              × (get_ulp_std weight last (finite (negsuc n)) ≡ exact (pos (gap weight n))))
  get_ulp_std-gap h = (zero_ulp h, λ n q. (positive_ulp n, negative_ulp n))

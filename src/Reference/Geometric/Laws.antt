-- ===== src/Reference/Geometric/Laws.antt =====
-- Laws of the floating-point functions, from the laws of IEEE 754 that they rest on.
use sycl_cts.Reference.Geometric.{
  FloatingPoint, cross_components, cross_t, maxmag, minmag, normalize_vec, vector_length,
}
use sycl_cts.Reference.Elementwise.{get_element, run_func_on_vector}
use sycl_cts.Reference.Elementwise.Laws.{get_element-blank, run_func_on_vector_elements}
use sycl_cts.Prelude.{
  Bool-cases, List, ap, ap₂, arith, false, if◌then◌else◌, inl, inr, refl, suc, sym, true, zero, ℕ,
  ◌<◌, ◌∙◌, ◌≡◌, ◌≤◌,
}

module _ {ℓ} {T : Type ℓ} (f : FloatingPoint T) where
  -- maxmag and minmag do not depend on the order of their operands, if `<` holds one way at most
  -- and fmax and fmin do not depend on it.
  magnitudes_comm :
      ((x y : T) → f.lt x y ≡ true → f.lt y x ≡ false)
      → ((x y : T) → f.fmax x y ≡ f.fmax y x)
      → ((x y : T) → f.fmin x y ≡ f.fmin y x)
      → (a b : T) → (maxmag f a b ≡ maxmag f b a) × (minmag f a b ≡ minmag f b a)
  unfolding maxmag minmag
  magnitudes_comm asym fmax_comm fmin_comm a b = elim (Bool-cases (f.lt (f.fabs a) (f.fabs b))) [
    | inl e ↦ rw (e, asym (f.fabs a) (f.fabs b) e) (refl, refl)
    | inr e ↦ elim (Bool-cases (f.lt (f.fabs b) (f.fabs a))) [
      | inl g ↦ rw (e, g) (refl, refl)
      | inr g ↦ rw (e, g) (fmax_comm a b, fmin_comm a b)
    ]
  ]

  -- normalize of a vector of length 0 is zeros, and otherwise each element divided by the length.
  normalize_vec_elements :
      (n : ℕ) (a : List T) (j : ℕ)
      → j < n
      → get_element f.zero_value (normalize_vec f n a) j ≡ (
          if f.equal (vector_length f n a) f.zero_value
          then f.zero_value
          else f.div (get_element f.zero_value a j) (vector_length f n a))
  unfolding normalize_vec run_func_on_vector
  normalize_vec_elements n a j h = elim (Bool-cases (f.equal (vector_length f n a) f.zero_value)) [
    | inl e ↦ rw e (get_element-blank f.zero_value n j)
    | inr e ↦ rw e (
        (run_func_on_vector_elements f.zero_value n
            (λ i. f.div (get_element f.zero_value a i) (vector_length f n a))).1
          j h)
  ]

  component-swap :
      (negate_value : T → T)
      → ((x y : T) → f.mul x y ≡ f.mul y x)
      → ((x y : T) → f.sub y x ≡ negate_value (f.sub x y))
      → (x y u v : T) → f.sub (f.mul x y) (f.mul u v) ≡ negate_value (f.sub (f.mul v u) (f.mul y x))
  component-swap negate_value mul_comm sub_swap x y u v =
      ap₂ f.sub (mul_comm x y) (mul_comm u v) ∙ sub_swap (f.mul v u) (f.mul y x)

  components-swap :
      (negate_value : T → T)
      → ((x y : T) → f.mul x y ≡ f.mul y x)
      → ((x y : T) → f.sub y x ≡ negate_value (f.sub x y))
      → (a b : List T) (j : ℕ) → j < 3
      → get_element f.zero_value (cross_components f b a) j
        ≡ negate_value (get_element f.zero_value (cross_components f a b) j)
  unfolding cross_components get_element
  components-swap negate_value mul_comm sub_swap a b zero h =
      component-swap negate_value mul_comm sub_swap (get_element f.zero_value b 1)
        (get_element f.zero_value a 2) (get_element f.zero_value b 2) (get_element f.zero_value a 1)
  components-swap negate_value mul_comm sub_swap a b (suc zero) h =
      component-swap negate_value mul_comm sub_swap (get_element f.zero_value b 2)
        (get_element f.zero_value a 0) (get_element f.zero_value b 0) (get_element f.zero_value a 2)
  components-swap negate_value mul_comm sub_swap a b (suc (suc zero)) h =
      component-swap negate_value mul_comm sub_swap (get_element f.zero_value b 0)
        (get_element f.zero_value a 1) (get_element f.zero_value b 1) (get_element f.zero_value a 0)
  components-swap negate_value mul_comm sub_swap a b (suc (suc (suc j))) h =
      absurd (omega (arith, h))

  -- cross of two vectors of at least 3 elements is, in the first 3, the negative of cross with the
  -- operands exchanged, if products commute and exchanged differences are negatives.
  cross_t-swap :
      (negate_value : T → T)
      → ((x y : T) → f.mul x y ≡ f.mul y x)
      → ((x y : T) → f.sub y x ≡ negate_value (f.sub x y))
      → (n : ℕ) (a b : List T) (j : ℕ) → 3 ≤ n
      → j < 3
      → get_element f.zero_value (cross_t f n b a) j
        ≡ negate_value (get_element f.zero_value (cross_t f n a b) j)
  unfolding cross_t run_func_on_vector
  cross_t-swap negate_value mul_comm sub_swap n a b j enough h =
      (run_func_on_vector_elements f.zero_value n
          (get_element f.zero_value (cross_components f b a))).1
        j (omega (arith, enough, h))
      ∙ components-swap negate_value mul_comm sub_swap a b j h
      ∙ ap negate_value (
          sym (
            (run_func_on_vector_elements f.zero_value n
                (get_element f.zero_value (cross_components f a b))).1
              j (omega (arith, enough, h))))

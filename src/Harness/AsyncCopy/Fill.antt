-- ===== src/Harness/AsyncCopy/Fill.antt =====
-- What the loops put into the buffers of a copy.
use sycl_cts.Harness.AsyncCopy.{
  create_async_wg_copy_fixed, create_async_wg_copy_input, fill_loop, item_of,
}
use sycl_cts.Prelude.{
  Bool, ap, arith, false, if◌then◌else◌, not, refl, suc, true, zero, ℕ, ◌%◌, ◌+◌, ◌<◌, ◌==◌, ◌∙◌,
  ◌≡◌,
}

-- The items in turn, from `one` on.
abbrev pub alternating {ℓ} : {A : Type ℓ} → A → A → ℕ → A
alternating one zero_value k = if k % 2 == 0 then one else zero_value

-- The value in the round `k`.
abbrev pub value_in : (Bool → Bool) → ℕ → Bool → Bool
value_in next zero value = value
value_in next (suc k) value = value_in next k (next value)

pub value_in-not :
    (k : ℕ) → (value_in not k true ≡ (k % 2 == 0)) × (value_in not k false ≡ not (k % 2 == 0))
value_in-not zero = (refl, refl)
value_in-not (suc k) = let ih = value_in-not k in (ih.1 ∙ ground arith, ih.0 ∙ ground arith)

pub value_in-same : (k : ℕ) (value : Bool) → value_in (λ v. v) k value ≡ value
value_in-same zero value = refl
value_in-same (suc k) value = value_in-same k value

module _ {ℓ} {A : Type ℓ} (equal : A → A → Bool) (one zero_value : A) where
  fill_loop-below :
      (next : Bool → Bool) (rounds i : ℕ) (value : Bool) (result memory : ℕ → A) (k : ℕ)
      → k < i
      → ((fill_loop equal one zero_value next rounds i value (result, memory)).0 k ≡ result k)
        × ((fill_loop equal one zero_value next rounds i value (result, memory)).1 k ≡ memory k)
  unfolding fill_loop
  fill_loop-below next zero i value result memory k h = (refl, refl)
  fill_loop-below next (suc rounds) i value result memory k h =
      let other : (i == k) ≡ false = ground arith in
      let ih =
        fill_loop-below next rounds (i + 1) (next value)
          (λ j. if i == j then item_of equal one zero_value value else result j)
          (λ j. if i == j then item_of equal one zero_value value else memory j) k (omega arith) in
      (ih.0 ∙ rw other, ih.1 ∙ rw other)

  pub fill_loop_elements :
      (next : Bool → Bool) (rounds i : ℕ) (value : Bool) (result memory : ℕ → A) (j k : ℕ)
      → j < rounds
      → i + j ≡ k
      → ((fill_loop equal one zero_value next rounds i value (result, memory)).0 k
          ≡ item_of equal one zero_value (value_in next j value))
        × ((fill_loop equal one zero_value next rounds i value (result, memory)).1 k
            ≡ item_of equal one zero_value (value_in next j value))
  unfolding fill_loop
  fill_loop_elements next zero i value result memory j k h e = absurd (omega arith)
  fill_loop_elements next (suc rounds) i value result memory zero k h e =
      let here : (i == k) ≡ true = ground arith in
      let below =
        fill_loop-below next rounds (i + 1) (next value)
          (λ j. if i == j then item_of equal one zero_value value else result j)
          (λ j. if i == j then item_of equal one zero_value value else memory j) k (omega arith) in
      (below.0 ∙ rw here, below.1 ∙ rw here)
  fill_loop_elements next (suc rounds) i value result memory (suc j) k h e =
      fill_loop_elements next rounds (i + 1) (next value)
        (λ j. if i == j then item_of equal one zero_value value else result j)
        (λ j. if i == j then item_of equal one zero_value value else memory j) j k (omega arith)
        (omega arith)

  pub input_elements :
      (b : ℕ) (memory : ℕ → A) (k : ℕ)
      → k < b
      → ((create_async_wg_copy_input equal one zero_value b memory).0 k
          ≡ alternating one zero_value k)
        × ((create_async_wg_copy_input equal one zero_value b memory).1 k
            ≡ alternating one zero_value k)
  unfolding create_async_wg_copy_input
  input_elements b memory k h =
      let found = fill_loop_elements not b 0 true (λ k. zero_value) memory k k h (omega arith) in
      let value = ap (item_of equal one zero_value) (value_in-not k).0 in
      (found.0 ∙ value, found.1 ∙ value)

  pub fixed_elements :
      (b : ℕ) (value : Bool) (memory : ℕ → A) (k : ℕ)
      → k < b
      → ((create_async_wg_copy_fixed equal one zero_value b value memory).0 k
          ≡ item_of equal one zero_value value)
        × ((create_async_wg_copy_fixed equal one zero_value b value memory).1 k
            ≡ item_of equal one zero_value value)
  unfolding create_async_wg_copy_fixed
  fixed_elements b value memory k h =
      let found =
        fill_loop_elements (λ v. v) b 0 value (λ k. zero_value) memory k k h (omega arith) in
      let same = ap (item_of equal one zero_value) (value_in-same k value) in
      (found.0 ∙ same, found.1 ∙ same)

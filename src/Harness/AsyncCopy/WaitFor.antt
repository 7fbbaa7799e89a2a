-- ===== src/Harness/AsyncCopy/WaitFor.antt =====
-- The verdict of the check of `wait_for`.
use native.Mathlib.Nat.{div-le_self}
use sycl_cts.Harness.AsyncCopy.{check_wait_for, create_async_wg_copy_fixed, issue_loop}
use sycl_cts.Harness.AsyncCopy.Fill.{fixed_elements}
use sycl_cts.Harness.AsyncCopy.Laws.{same_loop_iff}
use sycl_cts.Prelude.{Bool, ap, arith, false, refl, sym, true, ℕ, ◌+◌, ◌/◌, ◌<◌, ◌↔◌, ◌∙◌, ◌≡◌}

module _ {ℓ} {A : Type ℓ} (equal : A → A → Bool) (one zero_value : A) where
  abbrev pub after_wait :
      (ℕ → (ℕ → A) × (ℕ → A) → ℕ → ℕ → ℕ → ℕ → (ℕ → A) × (ℕ → A))
      → ℕ
      → ℕ
      → (ℕ → A)
      → (ℕ → A)
      → (ℕ → A) × (ℕ → A)
  after_wait copy b events source destination =
      issue_loop equal one zero_value copy (b / events) events events 0 0 0 (
        (create_async_wg_copy_fixed equal one zero_value b true source).1,
        (create_async_wg_copy_fixed equal one zero_value b false destination).1,
      )

  -- The check of wait_for looks at the first elements of the destination only, as many as one event
  -- copies.
  pub check_wait_for_iff :
      (equal_iff : (x y : A) → (equal x y ≡ true) ↔ (x ≡ y))
      (copy : ℕ → (ℕ → A) × (ℕ → A) → ℕ → ℕ → ℕ → ℕ → (ℕ → A) × (ℕ → A)) (b events : ℕ)
      (source destination : ℕ → A)
      → (check_wait_for equal one zero_value copy b events source destination ≡ true)
        ↔ ((k : ℕ) → k < b / events → (after_wait copy b events source destination).1 k ≡ one)
  unfolding check_wait_for
  check_wait_for_iff equal_iff copy b events source destination =
      let after = after_wait copy b events source destination in
      let ones = λ (k : ℕ) (q : k < b). (fixed_elements equal one zero_value b true source k q).0 in
      let iff =
        same_loop_iff equal one zero_value equal_iff (b / events) 0 0 after.1
          (create_async_wg_copy_fixed equal one zero_value b true source).0 true in
      (
        λ e k q.
            ap after.1 (omega arith)
            ∙ (iff.0 e).1 k q
            ∙ ones (0 + k) (omega (arith, div-le_self b events)),
        λ h. iff.1 (
          refl,
          λ k q.
              ap after.1 (omega arith)
              ∙ h k q
              ∙ sym (ones (0 + k) (omega (arith, div-le_self b events))),
        ),
      )

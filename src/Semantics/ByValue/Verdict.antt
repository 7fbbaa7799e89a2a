-- ===== src/Semantics/ByValue/Verdict.antt =====
-- What the checks of value semantics accept.
use sycl_cts.Semantics.ByValue.{
  check_equality, check_equality_other, check_on_host, check_on_host_other, first_failure,
  run_on_device,
}
use sycl_cts.Prelude.{Bool, arith, false, none, refl, true, ℕ, ◌↔◌, ◌≡◌}

-- The two operators agree that the values are equal, and in both directions.
abbrev pub AreEqual {ℓ} : {A : Type ℓ} → (A → A → Bool) → (A → A → Bool) → A → A → Type 0
AreEqual equal not_equal x y =
    (equal x y ≡ true) × (equal y x ≡ true) × (not_equal x y ≡ false) × (not_equal y x ≡ false)

-- The operators agree that the values differ, and in both directions.
abbrev pub AreDifferent {ℓ} : {A : Type ℓ} → (A → A → Bool) → (A → A → Bool) → A → A → Type 0
AreDifferent equal not_equal x y =
    (equal x y ≡ false) × (equal y x ≡ false) × (not_equal x y ≡ true) × (not_equal y x ≡ true)

module _ {ℓ} {A : Type ℓ} (equal not_equal : A → A → Bool) (copy : A → A) where
  -- What is asked of an instance: it equals itself and its copy by both operators and in both
  -- directions, and the copy's copy equals it.
  abbrev pub EqualsItsCopies : A → Type 0
  EqualsItsCopies a =
      ((equal a a ≡ true) × (not_equal a a ≡ false))
      × AreEqual equal not_equal a (copy a)
      × ((equal (copy (copy a)) a ≡ true) × (not_equal (copy (copy a)) a ≡ false))

  check_one :
      (result : ℕ → Bool) (a : A)
      → (check_on_host equal not_equal copy result a ≡ none) ↔ EqualsItsCopies a
  unfolding check_on_host check_equality first_failure
  check_one result a = ground arith

  check_two :
      (result : ℕ → Bool) (a other : A)
      → (check_on_host_other equal not_equal copy result a other ≡ none)
        ↔ (EqualsItsCopies a × AreDifferent equal not_equal a other)
  unfolding check_on_host_other check_equality_other check_equality first_failure
  check_two result a other = ground arith

  device-host :
      (result : ℕ → Bool) (a other : A)
      → run_on_device equal not_equal copy a other
        ≡ check_on_host_other equal not_equal copy result a other
  unfolding run_on_device check_on_host_other check_equality_other check_equality first_failure
  device-host result a other = refl

  -- Whatever the array of results holds at first, the check of one instance passes exactly if the
  -- operators equate it with itself and its copies, the check beside another value exactly if they also
  -- tell the two apart, by both operators and in both directions, and the check on a device reports
  -- what the one on the host does.
  pub checks-verdict :
      (result : ℕ → Bool) (a other : A)
      → (check_on_host equal not_equal copy result a ≡ none ↔ EqualsItsCopies a)
        × (check_on_host_other equal not_equal copy result a other ≡ none
            ↔ (EqualsItsCopies a × AreDifferent equal not_equal a other))
        × (run_on_device equal not_equal copy a other
            ≡ check_on_host_other equal not_equal copy result a other)
  checks-verdict result a other =
      (check_one result a, check_two result a other, device-host result a other)

-- ===== src/Semantics/Tests.antt =====
-- The checks of semantics on concrete classes.
use sycl_cts.Semantics.ByReference.{Class, check_host_unequal}
use sycl_cts.Semantics.ByReference.Failing.{failing}
use sycl_cts.Semantics.ByReference.Verdict.{
  HasReferenceSemantics, check_host_unequal-report, host_names, host_values,
}
use sycl_cts.Semantics.ByValue.{
  check_on_host, check_on_host_other, not_equal_other, run_on_device, to_integral,
}
use sycl_cts.Semantics.ByValue.Verdict.{AreDifferent, EqualsItsCopies, checks-verdict}
use sycl_cts.Prelude.{[], false, none, not, refl, some, true, ℕ, ◌%◌, ◌==◌, ◌↔◌, ◌≡◌}

-- Objects as numbers, whose assignments do the wrong thing.
abbrev numbers : Class ℕ ℕ
numbers = record {
  is_copy_constructible = true;
  is_copy_assignable = true;
  is_destructible = true;
  is_move_constructible = true;
  is_move_assignable = false;
  copy_construct = λ x. x;
  copy_assign = λ x y. x;
  move_construct = λ x. (x, 0);
  move_assign = λ x y. (x, y);
  equal = ◌==◌;
  not_equal = λ x y. not (x == y);
  hash = λ x. x % 8;
  store = λ x. x;
  check = ◌==◌;
}

check_host_unequal-report_example :
    ((check_host_unequal numbers 3 4).0 ≡ failing host_names (host_values numbers 3 4))
    × ((check_host_unequal numbers 3 4).0 ≡ [] ↔ HasReferenceSemantics numbers 3 4)
check_host_unequal-report_example = check_host_unequal-report numbers 3 4

checks-verdict_example :
    (check_on_host ◌==◌ (λ x y. false) (λ x. x) (λ k. true) 3 ≡ none
      ↔ EqualsItsCopies ◌==◌ (λ x y. false) (λ x. x) 3)
    × (check_on_host_other ◌==◌ (λ x y. false) (λ x. x) (λ k. true) 3 4 ≡ none
        ↔ (EqualsItsCopies ◌==◌ (λ x y. false) (λ x. x) 3 × AreDifferent ◌==◌ (λ x y. false) 3 4))
    × (run_on_device ◌==◌ (λ x y. false) (λ x. x) 3 4
        ≡ check_on_host_other ◌==◌ (λ x y. false) (λ x. x) (λ k. true) 3 4)
checks-verdict_example = checks-verdict ◌==◌ (λ x y. false) (λ x. x) (λ k. true) 3 4

-- `!=` that never holds is found by the check of different values.
wrong_inequality :
    check_on_host_other ◌==◌ (λ x y. false) (λ x. x) (λ k. true) 3 4
    ≡ some (to_integral not_equal_other)
unfolding check_on_host_other
wrong_inequality = refl

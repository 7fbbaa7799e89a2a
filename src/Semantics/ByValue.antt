-- ===== src/Semantics/ByValue.antt =====
-- tests/common/semantics_by_value.h: the checks of `==` and `!=` of a class with value semantics. The
-- operators and the copy constructor are arguments.
pub mod Verdict
use sycl_cts.Devices.Text.{Text, text}
use sycl_cts.Prelude.{
  Bool, List, Option, [], false, get_elem?, if◌then◌else◌, none, not, some, suc, zero, ℕ, ◌+◌, ◌==◌,
  ◌∷◌,
}

pub data CurrentCheck : Type 0 where
  reflexivity_equal_self : CurrentCheck
  reflexivity_not_equal_self : CurrentCheck
  equal_copy : CurrentCheck
  equal_copy_symmetry : CurrentCheck
  not_equal_copy : CurrentCheck
  not_equal_copy_symmetry : CurrentCheck
  transitivity_equal : CurrentCheck
  transitivity_not_equal : CurrentCheck
  equal_other : CurrentCheck
  equal_other_symmetry : CurrentCheck
  not_equal_other : CurrentCheck
  not_equal_other_symmetry : CurrentCheck
  size : CurrentCheck

abbrev pub to_integral : CurrentCheck → ℕ
to_integral reflexivity_equal_self = 0
to_integral reflexivity_not_equal_self = 1
to_integral equal_copy = 2
to_integral equal_copy_symmetry = 3
to_integral not_equal_copy = 4
to_integral not_equal_copy_symmetry = 5
to_integral transitivity_equal = 6
to_integral transitivity_not_equal = 7
to_integral equal_other = 8
to_integral equal_other_symmetry = 9
to_integral not_equal_other = 10
to_integral not_equal_other_symmetry = 11
to_integral size = 12

pub error_strings : List Text
error_strings =
    text "not equality-comparable (operator== reflexivity failed)"
    ∷ text "not equality-comparable (operator!= reflexivity failed)"
    ∷ text "not equality-comparable (operator==, copy constructor)"
    ∷ text "not equality-comparable (operator== symmetry failed, copy constructor"
    ∷ text "not equality-comparable (operator!=, copy constructor)"
    ∷ text "not equality-comparable (operator!= symmetry failed, copy constructor"
    ∷ text "not equality-comparable (operator== transitivity failed)"
    ∷ text "not equality-comparable (operator!= transitivity  failed)"
    ∷ text "not equality-comparable (operator==, different value)"
    ∷ text "not equality-comparable (operator== symmetry failed, different value)"
    ∷ text "not equality-comparable (operator!=, different value)"
    ∷ text "not equality-comparable (operator!= symmetry failed, different value)"
    ∷ []

pub get_error_string : ℕ → Option Text
unfolding error_strings
get_error_string code = get_elem? error_strings code

abbrev pub set_result : CurrentCheck → Bool → (ℕ → Bool) → ℕ → Bool
set_result c value result k = if to_integral c == k then value else result k

-- `for (i < last) if (!result[i]) FAIL(…)`: FAIL throws, so the first one ends the check. What is
-- reported is the code whose text is shown.
pub first_failure : ℕ → ℕ → (ℕ → Bool) → Option ℕ
first_failure zero i result = none
first_failure (suc rounds) i result =
    let rest = first_failure rounds (i + 1) result in if not (result i) then some i else rest

module _ {ℓ} {A : Type ℓ} (equal not_equal : A → A → Bool) (copy : A → A) where
  pub check_equality : A → (ℕ → Bool) → ℕ → Bool
  check_equality a result =
      let b = copy a in
      let c = copy b in
      set_result transitivity_not_equal (not (not_equal c a)) (
        set_result transitivity_equal (equal c a) (
          set_result not_equal_copy_symmetry (not (not_equal b a)) (
            set_result not_equal_copy (not (not_equal a b)) (
              set_result equal_copy_symmetry (equal b a) (
                set_result equal_copy (equal a b) (
                  set_result reflexivity_not_equal_self (not (not_equal a a))
                    (set_result reflexivity_equal_self (equal a a) result)))))))

  pub check_equality_other : A → A → (ℕ → Bool) → ℕ → Bool
  unfolding check_equality
  check_equality_other a other result = set_result not_equal_other_symmetry (not_equal other a) (
      set_result not_equal_other (not_equal a other) (
        set_result equal_other_symmetry (not (equal other a))
          (set_result equal_other (not (equal a other)) (check_equality a result))))

  -- `result` holds anything at first.
  unfoldable pub check_on_host : (ℕ → Bool) → A → Option ℕ
  unfolding first_failure check_equality
  check_on_host result a = first_failure (to_integral equal_other) 0 (check_equality a result)

  unfoldable pub check_on_host_other : (ℕ → Bool) → A → A → Option ℕ
  unfolding first_failure check_equality_other
  check_on_host_other result a other =
      first_failure (to_integral size) 0 (check_equality_other a other result)

  -- `on_device_checker::run`: the results are false at first, and `items` are `a` and `other`.
  unfoldable pub run_on_device : A → A → Option ℕ
  unfolding first_failure check_equality_other
  run_on_device a other =
      first_failure (to_integral size) 0 (check_equality_other a other (λ k. false))

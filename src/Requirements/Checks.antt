-- ===== src/Requirements/Checks.antt =====
-- The verifications of util/named_requirement_verification up to the output iterator, and what they
-- share: each is its conditions in the order of the source, with the code that is added where one
-- holds. A condition inside `if constexpr (g)` is `g && ...`.
use sycl_cts.Requirements.ErrorCodes.{
  ErrorCodesContainer, add_error, add_errors, equality_comparable_code, error_codes_container,
  get_array, has_errors, legacy_iterator_code, legacy_output_iterator_code,
}
use sycl_cts.Prelude.{Bool, List, [], if◌then◌else◌, not, ℤ, ◌&&◌, ◌+◌, ◌||◌, ◌∷◌}
use sycl_cts.Requirements.TypeTraits.{
  Compiler, Expression, can_post_increment, can_pre_increment, declval, dereference,
  has_difference_type, has_is_equal, has_iterator_category, has_pointer, has_reference,
  has_value_type, is_dereferenceable, is_equal, post_increment, pre_increment, value_type, variable,
}

-- The operations of an iterator type that the verifications run. A copy of an iterator may share
-- state with its source, so an operation reads the state `S` behind the iterators and an increment
-- or a decrement returns the next.
pub record Operations (S : Type 0) (It : Type 0) (V : Type 0) : Type 0 where
  -- `It{}`
  pub initial : It
  pub increment : S → It → It × S
  pub decrement : S → It → It × S
  pub value : S → It → V
  -- `i == j`, the same of constants, `i != j` and, of values, `v != w`
  pub equals : S → It → It → Bool
  pub const_equals : S → It → It → Bool
  pub differs : S → It → It → Bool
  pub value_differs : V → V → Bool
  -- `a + n` and `n + a` for the `n` of the source, 1
  pub plus_one : S → It → It
  pub one_plus : S → It → It

-- The condition of an `add_error` and its code.
abbrev pub Check : Type 0
Check = Bool × ℤ

unfoldable pub run_checks : List Check → ErrorCodesContainer → ErrorCodesContainer
run_checks [] c = c
run_checks ((condition, code) ∷ rest) c =
    run_checks rest (if condition then add_error code c else c)

-- What `is_satisfied_for` returns.
abbrev pub Verdict : Type 0
Verdict = Bool × List ℤ

abbrev pub conclude : ErrorCodesContainer → Verdict
conclude c = (not (has_errors c), get_array c)

-- `if (!res.first) add_errors(res.second)`
unfoldable pub add_unsatisfied : Verdict → ErrorCodesContainer → ErrorCodesContainer
add_unsatisfied (satisfied, codes) c = if satisfied then c else add_errors codes c

module _ {𝕋 : Type 0} (cxx : Compiler 𝕋) (it : 𝕋) where
  -- `decltype(++std::declval<It&>())` is not `It&`.
  abbrev pub increment_differs : Bool
  increment_differs =
      not (cxx.is_same (cxx.decltype (pre_increment (variable cxx it))) (cxx.lvalue_reference it))

  -- A comparison of variables of the type `t` that does not convert to `bool`.
  abbrev pub unboolean : (Expression 𝕋 → Expression 𝕋 → Expression 𝕋) → 𝕋 → Bool
  unboolean op t =
      not (cxx.is_convertible (cxx.decltype (op (variable cxx t) (variable cxx t))) cxx.bool_type)

  unfoldable pub legacy_iterator_checks : List Check
  legacy_iterator_checks =
      (not (cxx.is_copy_constructible it), legacy_iterator_code 0)
      ∷ (not (cxx.is_copy_assignable it), legacy_iterator_code 1)
      ∷ (not (cxx.is_destructible it), legacy_iterator_code 2)
      ∷ (not (cxx.is_swappable it), legacy_iterator_code 3)
      ∷ (not (has_value_type cxx it), legacy_iterator_code 4)
      ∷ (not (has_difference_type cxx it), legacy_iterator_code 5)
      ∷ (not (has_reference cxx it), legacy_iterator_code 6)
      ∷ (not (has_pointer cxx it), legacy_iterator_code 7)
      ∷ (not (has_iterator_category cxx it), legacy_iterator_code 8)
      ∷ (not (can_pre_increment cxx it), legacy_iterator_code 9)
      ∷ (can_pre_increment cxx it && increment_differs, legacy_iterator_code 10)
      ∷ (not (is_dereferenceable cxx it), legacy_iterator_code 11)
      ∷ []

  unfoldable pub legacy_iterator : Verdict
  legacy_iterator = conclude (run_checks legacy_iterator_checks (error_codes_container 12))

  -- `*std::declval<It>()` does not take a `value_type`.
  abbrev pub unassignable : Bool
  unassignable =
      not (cxx.is_assignable (cxx.decltype (dereference (declval it))) (cxx.member value_type it))

  unfoldable pub legacy_output_iterator_checks : List Check
  legacy_output_iterator_checks =
      (
        has_value_type cxx it && is_dereferenceable cxx it && unassignable,
        legacy_output_iterator_code 0,
      )
      ∷ (can_pre_increment cxx it && increment_differs, legacy_output_iterator_code 1)
      ∷ (
        can_pre_increment cxx it
            && not (
                cxx.is_convertible (cxx.decltype (pre_increment (variable cxx it)))
                  (cxx.add_const it)),
        legacy_output_iterator_code 2,
      )
      ∷ (
        can_post_increment cxx it
            && is_dereferenceable cxx it
            && has_value_type cxx it
            && not (
                cxx.is_assignable (cxx.decltype (dereference (post_increment (variable cxx it))))
                  (cxx.member value_type it)),
        legacy_output_iterator_code 3,
      )
      ∷ (
        is_dereferenceable cxx it && has_value_type cxx it && unassignable,
        legacy_output_iterator_code 4,
      )
      ∷ []

  unfoldable pub legacy_output_iterator : Verdict
  legacy_output_iterator = conclude (
      run_checks legacy_output_iterator_checks
        (add_unsatisfied legacy_iterator (error_codes_container (12 + 8))))

  module _ {S It V : Type 0} (ops : Operations S It V) (s : S) where
    -- The four comparisons of three copies of one iterator, `a`, `b` and `c`.
    abbrev pub copies_differ : (S → It → It → Bool) → It → Bool
    copies_differ equal i =
        not (equal s i i) || not (equal s i i) || not (equal s i i) || not (equal s i i)

    unfoldable pub equality_comparable_checks : It → List Check
    equality_comparable_checks valid_iterator =
        (has_is_equal cxx it && copies_differ ops.equals valid_iterator, equality_comparable_code 0)
        ∷ (has_is_equal cxx it && unboolean is_equal it, equality_comparable_code 1)
        ∷ (
          has_is_equal cxx it && copies_differ ops.const_equals valid_iterator,
          equality_comparable_code 2,
        )
        ∷ (has_is_equal cxx it && unboolean is_equal (cxx.add_const it), equality_comparable_code 3)
        ∷ (not (has_is_equal cxx it), equality_comparable_code 4)
        ∷ []

    unfoldable pub equality_comparable : It → Verdict
    equality_comparable valid_iterator =
        conclude (run_checks (equality_comparable_checks valid_iterator) (error_codes_container 5))

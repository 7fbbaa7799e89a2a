-- ===== src/Requirements/RandomAccess.antt =====
-- The verifications of bidirectional and random access iterators, of
-- util/named_requirement_verification, as those of Requirements.Iterators.
use sycl_cts.Requirements.ErrorCodes.{
  error_codes_container, legacy_bidirectional_iterator_code, legacy_random_access_iterator_code,
}
use sycl_cts.Prelude.{Bool, List, [], if◌then◌else◌, not, ◌&&◌, ◌++◌, ◌+◌, ◌||◌, ◌∷◌}
use sycl_cts.Requirements.Checks.{
  Check, Operations, Verdict, add_unsatisfied, conclude, run_checks, unboolean,
}
use sycl_cts.Requirements.TypeTraits.{
  Compiler, Expression, addition, addition_assignment, can_add, can_add_assign, can_post_decrement,
  can_post_increment, can_pre_decrement, can_pre_increment, can_subtract, declval, dereference,
  difference_type, greater_or_equal, greater_than, has_difference_type, has_greater_or_equal,
  has_greater_than, has_less_or_equal, has_less_than, has_reference, has_subscript_operator,
  has_value_type, is_dereferenceable, less_or_equal, less_than, negation, post_decrement,
  pre_decrement, pre_increment, reference, subscript, subtraction, subtraction_assignment,
  subtraction_assignment_v, variable,
}
use sycl_cts.Requirements.Iterators.{RoundTrip, forward_state, legacy_forward_iterator}

module _ {S It V : Type 0} (ops : Operations S It V) where
  unfoldable pub round_trip : S → It → RoundTrip S
  round_trip s valid_iterator =
      let up = ops.increment s valid_iterator in
      let down = ops.decrement up.1 up.0 in
      let a = ops.increment down.1 valid_iterator in
      let b = ops.increment a.1 valid_iterator in
      let back_a = ops.decrement b.1 a.0 in
      let back_b = ops.decrement back_a.1 b.0 in
      record {
        return_differs = ops.differs down.1 down.0 valid_iterator;
        returns_equal = ops.equals back_b.1 back_a.0 back_b.0;
        returns_differ = ops.differs back_b.1 back_a.0 back_b.0;
        returned = back_b.1;
      }

module _ {𝕋 : Type 0} (cxx : Compiler 𝕋) (it : 𝕋) {S It V : Type 0} (ops : Operations S It V) where
  abbrev pub verifies_round_trip : Bool
  verifies_round_trip =
      can_pre_decrement cxx it && can_pre_increment cxx it && is_dereferenceable cxx it

  unfoldable pub bidirectional_state : S → It → S
  bidirectional_state s valid_iterator =
      let before = forward_state cxx it ops s valid_iterator in
      if verifies_round_trip then (round_trip ops before valid_iterator).returned else before

  unfoldable pub legacy_bidirectional_iterator_checks : S → It → List Check
  legacy_bidirectional_iterator_checks s valid_iterator =
      let trip = round_trip ops s valid_iterator in
      (
        can_pre_increment cxx it
            && can_pre_decrement cxx it
            && not (
                cxx.is_same (cxx.decltype (pre_decrement (pre_increment (variable cxx it))))
                  (cxx.lvalue_reference it)),
        legacy_bidirectional_iterator_code 0,
      )
      ∷ (not (can_post_decrement cxx it), legacy_bidirectional_iterator_code 1)
      ∷ (verifies_round_trip && trip.return_differs, legacy_bidirectional_iterator_code 2)
      ∷ (
        verifies_round_trip && trip.returns_equal && trip.returns_differ,
        legacy_bidirectional_iterator_code 3,
      )
      ∷ (verifies_round_trip && not trip.returns_equal, legacy_bidirectional_iterator_code 4)
      ∷ (
        can_pre_decrement cxx it
            && not (
                cxx.is_same (cxx.decltype (pre_decrement (variable cxx it)))
                  (cxx.lvalue_reference it)),
        legacy_bidirectional_iterator_code 5,
      )
      ∷ (not (can_pre_decrement cxx it), legacy_bidirectional_iterator_code 6)
      ∷ (
        can_post_increment cxx it
            && can_post_decrement cxx it
            && has_value_type cxx it
            && not (
                cxx.is_convertible (cxx.decltype (post_decrement (pre_increment (variable cxx it))))
                  (cxx.lvalue_reference (cxx.add_const it))),
        legacy_bidirectional_iterator_code 7,
      )
      ∷ (
        can_post_decrement cxx it
            && is_dereferenceable cxx it
            && has_reference cxx it
            && not (
                cxx.is_same (cxx.decltype (dereference (post_decrement (variable cxx it))))
                  (cxx.member reference it)),
        legacy_bidirectional_iterator_code 8,
      )
      ∷ []

  unfoldable pub legacy_bidirectional_iterator : S → It → Verdict
  legacy_bidirectional_iterator s valid_iterator = conclude (
      run_checks
        (legacy_bidirectional_iterator_checks (forward_state cxx it ops s valid_iterator)
          valid_iterator)
        (add_unsatisfied (legacy_forward_iterator cxx it ops s valid_iterator)
          (error_codes_container (12 + 5 + 11 + (12 + 8) + 10 + 9))))

  abbrev pub diff_t : 𝕋
  diff_t = cxx.member difference_type it

  -- `std::is_same_v<decltype(e), t>` fails.
  abbrev pub mistyped : Expression 𝕋 → 𝕋 → Bool
  mistyped e t = not (cxx.is_same (cxx.decltype e) t)

  abbrev pub is_compound_ops_correct : Bool
  is_compound_ops_correct =
      let i = variable cxx it in
      let n = declval diff_t in
      cxx.is_same (cxx.decltype (addition_assignment i n)) (cxx.lvalue_reference it)
      && cxx.is_same (cxx.decltype (subtraction_assignment i n)) (cxx.lvalue_reference it)
      && cxx.is_same (cxx.decltype (addition_assignment i (negation n))) (cxx.lvalue_reference it)
      && cxx.is_same (cxx.decltype (subtraction_assignment i (negation n)))
          (cxx.lvalue_reference it)

  -- The checks inside the `else` of `!has_difference_type_member`, which is no `if constexpr`: the
  -- code compiles for a type with difference_type only.
  unfoldable pub difference_checks : S → It → List Check
  difference_checks s valid_iterator =
      let has = has_difference_type cxx it in
      let add_assign = can_add_assign cxx it diff_t in
      let subtract_assign = subtraction_assignment_v cxx it diff_t in
      let n_plus_i = can_add cxx diff_t it in
      let i_plus_n = can_add cxx it diff_t in
      let i_minus_n = can_subtract cxx it diff_t in
      let i_minus_i = can_subtract cxx it it in
      let i = variable cxx it in
      let n = variable cxx diff_t in
      (has && not add_assign, legacy_random_access_iterator_code 1)
      ∷ (has && not subtract_assign, legacy_random_access_iterator_code 2)
      ∷ (has && not i_minus_i, legacy_random_access_iterator_code 3)
      ∷ (has && not n_plus_i, legacy_random_access_iterator_code 4)
      ∷ (has && not (has_subscript_operator cxx it), legacy_random_access_iterator_code 5)
      ∷ (
        has && (add_assign && subtract_assign) && not is_compound_ops_correct,
        legacy_random_access_iterator_code 6,
      )
      ∷ (
        has
            && (n_plus_i && i_plus_n)
            && (mistyped (addition i n) it
                || mistyped (addition n i) it
                || mistyped (subtraction i n) it
                || mistyped (addition (negation n) i) it),
        legacy_random_access_iterator_code 7,
      )
      ∷ (
        has
            && (n_plus_i && i_plus_n)
            && not (ops.equals s (ops.plus_one s valid_iterator) (ops.one_plus s valid_iterator)),
        legacy_random_access_iterator_code 8,
      )
      ∷ (has && not (n_plus_i && i_plus_n), legacy_random_access_iterator_code 9)
      ∷ (has && i_minus_n && mistyped (subtraction i n) it, legacy_random_access_iterator_code 10)
      ∷ (has && not i_minus_n, legacy_random_access_iterator_code 11)
      ∷ (
        has && i_plus_n && (i_minus_i && has) && mistyped (subtraction i i) diff_t,
        legacy_random_access_iterator_code 12,
      )
      ∷ (
        has
            && i_plus_n
            && (has_subscript_operator cxx it && has_reference cxx it)
            && not (
                cxx.is_convertible (cxx.decltype (subscript i (declval cxx.int_type)))
                  (cxx.member reference it)),
        legacy_random_access_iterator_code 13,
      )
      ∷ []

  unfoldable pub order_checks : List Check
  order_checks =
      (
        has_greater_than cxx it && unboolean cxx it greater_than it,
        legacy_random_access_iterator_code 14,
      )
      ∷ (not (has_greater_than cxx it), legacy_random_access_iterator_code 15)
      ∷ (
        has_less_than cxx it && unboolean cxx it less_than it,
        legacy_random_access_iterator_code 16,
      )
      ∷ (not (has_less_than cxx it), legacy_random_access_iterator_code 17)
      ∷ (
        has_greater_or_equal cxx it && unboolean cxx it greater_or_equal it,
        legacy_random_access_iterator_code 18,
      )
      ∷ (not (has_greater_or_equal cxx it), legacy_random_access_iterator_code 19)
      ∷ (
        has_less_or_equal cxx it && unboolean cxx it less_or_equal it,
        legacy_random_access_iterator_code 20,
      )
      ∷ (not (has_less_or_equal cxx it), legacy_random_access_iterator_code 21)
      ∷ []

  unfoldable pub legacy_random_access_iterator_checks : S → It → List Check
  legacy_random_access_iterator_checks s valid_iterator =
      (not (has_difference_type cxx it), legacy_random_access_iterator_code 0)
      ∷ (difference_checks s valid_iterator ++ order_checks)

  unfoldable pub legacy_random_access_iterator : S → It → Verdict
  legacy_random_access_iterator s valid_iterator = conclude (
      run_checks
        (legacy_random_access_iterator_checks (bidirectional_state s valid_iterator) valid_iterator)
        (add_unsatisfied (legacy_bidirectional_iterator s valid_iterator)
          (error_codes_container (12 + 5 + 11 + (12 + 8) + 10 + 9 + 21))))

-- ===== src/Requirements/Iterators.antt =====
-- The verifications of input, forward and bidirectional iterators, of
-- util/named_requirement_verification: their checks as in Requirements.Checks, and what they do to
-- the state behind the iterators. The operands of `++a != ++b` and `--a == --b` are taken from the
-- left.
use sycl_cts.Requirements.ErrorCodes.{
  error_codes_container, legacy_forward_iterator_code, legacy_input_iterator_code,
}
use sycl_cts.Prelude.{Bool, List, [], if◌then◌else◌, not, ◌&&◌, ◌+◌, ◌∷◌}
use sycl_cts.Requirements.Checks.{
  Check, Operations, Verdict, add_unsatisfied, conclude, equality_comparable, increment_differs,
  legacy_iterator, legacy_output_iterator, run_checks, unboolean,
}
use sycl_cts.Requirements.TypeTraits.{
  Compiler, can_post_increment, can_pre_increment, declval, dereference, has_is_equal,
  has_not_equal, has_reference, has_value_type, is_dereferenceable, not_equal, post_increment,
  reference, value_type, variable,
}

-- The comparisons of the multipass guarantee, and the state behind each of its two blocks.
pub record Multipass (S : Type 0) : Type 0 where
  pub values_differ : Bool
  pub iterators_differ : Bool
  pub increments_differ : Bool
  pub compared : S
  pub value_changes : Bool
  pub reread : S

-- The two blocks that step forward and back.
pub record RoundTrip (S : Type 0) : Type 0 where
  pub return_differs : Bool
  pub returns_equal : Bool
  pub returns_differ : Bool
  pub returned : S

module _ {S It V : Type 0} (ops : Operations S It V) where
  unfoldable pub multipass : S → It → Multipass S
  multipass s valid_iterator =
      let a = ops.increment s valid_iterator in
      let b = ops.increment a.1 valid_iterator in
      let zero_pos_it = ops.increment b.1 valid_iterator in
      record {
        values_differ = ops.value_differs (ops.value s valid_iterator) (ops.value s valid_iterator);
        iterators_differ = ops.differs s valid_iterator valid_iterator;
        increments_differ = ops.differs b.1 a.0 b.0;
        compared = b.1;
        value_changes =
            ops.value_differs (ops.value b.1 valid_iterator)
              (ops.value zero_pos_it.1 valid_iterator);
        reread = zero_pos_it.1;
      }

module _ {𝕋 : Type 0} (cxx : Compiler 𝕋) (it : 𝕋) {S It V : Type 0} (ops : Operations S It V) where
  -- `++i` of `It i{}`, when the input verification runs it.
  abbrev pub compares_increment : Bool
  compares_increment = can_pre_increment cxx it && has_not_equal cxx it

  unfoldable pub input_state : S → S
  input_state s = if compares_increment then (ops.increment s ops.initial).1 else s

  unfoldable pub legacy_input_iterator_checks : S → List Check
  legacy_input_iterator_checks s =
      let first = ops.increment s ops.initial in
      (not (has_is_equal cxx it), legacy_input_iterator_code 0)
      ∷ (not (has_not_equal cxx it), legacy_input_iterator_code 1)
      ∷ (not (can_post_increment cxx it), legacy_input_iterator_code 2)
      ∷ (compares_increment && ops.equals first.1 first.0 ops.initial, legacy_input_iterator_code 3)
      ∷ (compares_increment && unboolean cxx it not_equal it, legacy_input_iterator_code 4)
      ∷ (can_pre_increment cxx it && increment_differs cxx it, legacy_input_iterator_code 5)
      ∷ (
        is_dereferenceable cxx it
            && can_post_increment cxx it
            && has_value_type cxx it
            && not (
                cxx.is_convertible (cxx.decltype (dereference (post_increment (variable cxx it))))
                  (cxx.member value_type it)),
        legacy_input_iterator_code 6,
      )
      ∷ (
        is_dereferenceable cxx it
            && has_reference cxx it
            && not
                (cxx.is_same (cxx.decltype (dereference (declval it))) (cxx.member reference it)),
        legacy_input_iterator_code 7,
      )
      ∷ (
        is_dereferenceable cxx it
            && has_value_type cxx it
            && not (
                cxx.is_convertible (cxx.decltype (dereference (declval it)))
                  (cxx.member value_type it)),
        legacy_input_iterator_code 8,
      )
      ∷ []

  -- The verdict on equality comparison is computed; what is added instead is the first verdict,
  -- again.
  unfoldable pub legacy_input_iterator : S → It → Verdict
  legacy_input_iterator s valid_iterator =
      let legacy_iterator_res = legacy_iterator cxx it in
      let equal_comparable_res = equality_comparable cxx it ops s valid_iterator in
      conclude (
        run_checks (legacy_input_iterator_checks s) (
          add_unsatisfied legacy_iterator_res
            (add_unsatisfied legacy_iterator_res (error_codes_container (12 + 5 + 11)))))

  abbrev pub verifies_multipass : Bool
  verifies_multipass = has_is_equal cxx it && is_dereferenceable cxx it && can_pre_increment cxx it

  abbrev pub rereads_value : Bool
  rereads_value =
      verifies_multipass
      && has_value_type cxx it
      && (is_dereferenceable cxx it
          && can_pre_increment cxx it
          && has_is_equal cxx (cxx.member value_type it))

  unfoldable pub forward_state : S → It → S
  forward_state s valid_iterator =
      let passes = multipass ops (input_state s) valid_iterator in
      if rereads_value
      then passes.reread
      else if verifies_multipass
      then passes.compared
      else input_state s

  -- `std::is_same_v<t, typename it_traits::reference>`
  abbrev pub is_reference : 𝕋 → Bool
  is_reference t = cxx.is_same t (cxx.member reference it)

  -- The code compiles for a type with value_type only; for another one `value` is any type.
  unfoldable pub legacy_forward_iterator_checks : S → It → List Check
  legacy_forward_iterator_checks s valid_iterator =
      let passes = multipass ops s valid_iterator in
      let is_output_iterator_req_satisfied = (legacy_output_iterator cxx it).0 in
      let value = cxx.member value_type it in
      (not (cxx.is_default_constructible it), legacy_forward_iterator_code 0)
      ∷ (
        has_reference cxx it
            && is_output_iterator_req_satisfied
            && (not (is_reference (cxx.lvalue_reference value))
                && not (is_reference (cxx.rvalue_reference value))),
        legacy_forward_iterator_code 1,
      )
      ∷ (
        has_reference cxx it
            && not is_output_iterator_req_satisfied
            && (not (is_reference (cxx.lvalue_reference (cxx.add_const value)))
                && not (is_reference (cxx.rvalue_reference (cxx.add_const value)))),
        legacy_forward_iterator_code 2,
      )
      ∷ (
        can_post_increment cxx it
            && not (cxx.is_same (cxx.decltype (post_increment (variable cxx it))) it),
        legacy_forward_iterator_code 3,
      )
      ∷ (not (can_post_increment cxx it), legacy_forward_iterator_code 4)
      ∷ (
        can_post_increment cxx it
            && is_dereferenceable cxx it
            && has_reference cxx it
            && not (
                cxx.is_convertible (cxx.decltype (dereference (post_increment (variable cxx it))))
                  (cxx.member reference it)),
        legacy_forward_iterator_code 5,
      )
      ∷ (verifies_multipass && passes.values_differ, legacy_forward_iterator_code 6)
      ∷ (verifies_multipass && passes.iterators_differ, legacy_forward_iterator_code 7)
      ∷ (verifies_multipass && passes.increments_differ, legacy_forward_iterator_code 8)
      ∷ (rereads_value && passes.value_changes, legacy_forward_iterator_code 9)
      ∷ []

  unfoldable pub legacy_forward_iterator : S → It → Verdict
  legacy_forward_iterator s valid_iterator = conclude (
      run_checks (legacy_forward_iterator_checks (input_state s) valid_iterator) (
        add_unsatisfied (legacy_input_iterator s valid_iterator)
          (error_codes_container (12 + 5 + 11 + (12 + 8) + 10))))

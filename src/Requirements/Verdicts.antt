-- ===== src/Requirements/Verdicts.antt =====
-- The verdict of each verification of util/named_requirement_verification: no verification runs out
-- of the room that its `count_of_possible_errors` gives.
use sycl_cts.Requirements.Report.Chain.{
  Reports, Reports-add_unsatisfied, add_unsatisfied-Reports, conclude-Reports,
  conclude_more-Reports,
}
use sycl_cts.Requirements.RandomAccess.{
  bidirectional_state, difference_checks, legacy_bidirectional_iterator,
  legacy_bidirectional_iterator_checks, legacy_random_access_iterator,
  legacy_random_access_iterator_checks, order_checks,
}
use sycl_cts.Requirements.ErrorCodes.{error_codes_container}
use sycl_cts.Prelude.{List, ap, arith, length, length-append, refl, ℤ, ◌++◌, ◌+◌, ◌∙◌, ◌≤◌}
use sycl_cts.Requirements.TypeTraits.{
  Compiler, can_pre_increment, greater_than, has_greater_than, has_reference, has_value_type,
  is_dereferenceable,
}
use sycl_cts.Requirements.Checks.{
  Operations, add_unsatisfied, legacy_iterator, legacy_iterator_checks, legacy_output_iterator,
  legacy_output_iterator_checks, unboolean,
}
use sycl_cts.Requirements.Iterators.{
  forward_state, input_state, legacy_forward_iterator, legacy_forward_iterator_checks,
  legacy_input_iterator, legacy_input_iterator_checks,
}
use sycl_cts.Requirements.ErrorCodes.Laws.{add_each}
use sycl_cts.Requirements.Report.{
  add_each-append, all_codes, all_codes-append, codes_of, count, failed, length-failed-count,
  nonzero, weight-and, weight-not, weight_le,
}

module _ {𝕋 : Type 0} (cxx : Compiler 𝕋) (it : 𝕋) where
  abbrev pub legacy_iterator_codes : List ℤ
  legacy_iterator_codes = failed (legacy_iterator_checks cxx it)

  -- The verdict on a legacy iterator is satisfied exactly when none of its checks fails, and the
  -- array holds the codes of those that do, in their order and none of them 0, then zeros: they are
  -- at most 12, for 12 places.
  pub legacy_iterator-Reports : Reports 12 legacy_iterator_codes (legacy_iterator cxx it)
  unfolding legacy_iterator legacy_iterator_checks all_codes codes_of
  legacy_iterator-Reports =
      conclude-Reports 12 (legacy_iterator_checks cxx it) (omega arith) (omega arith) refl

  pub legacy_output_iterator-Reports :
      Reports 20
        (legacy_iterator_codes ++ failed (legacy_output_iterator_checks cxx it))
        (legacy_output_iterator cxx it)
  unfolding legacy_output_iterator legacy_output_iterator_checks all_codes codes_of
  legacy_output_iterator-Reports =
      add_unsatisfied-Reports 12 20 legacy_iterator_codes (legacy_iterator cxx it)
        (legacy_output_iterator_checks cxx it) legacy_iterator-Reports (omega arith) (omega arith)
        refl

  module _ {S It V : Type 0} (ops : Operations S It V) where
    abbrev pub legacy_input_iterator_codes : S → List ℤ
    legacy_input_iterator_codes s =
        legacy_iterator_codes
        ++ legacy_iterator_codes
        ++ failed (legacy_input_iterator_checks cxx it ops s)

    -- Two reports of the first verification and the input checks fit, since the conditions on one
    -- operator exclude each other: 28 codes at most, for 28 places.
    input_room :
        (s : S)
        → length legacy_iterator_codes
            + length legacy_iterator_codes
            + length (failed (legacy_input_iterator_checks cxx it ops s))
          ≤ 28
    unfolding legacy_iterator_checks legacy_input_iterator_checks count
    input_room s =
        let p = can_pre_increment cxx it in
        let d = is_dereferenceable cxx it in
        let v = has_value_type cxx it in
        let r = has_reference cxx it in
        rw
          (
            length-failed-count (legacy_iterator_checks cxx it),
            length-failed-count (legacy_input_iterator_checks cxx it ops s),
          )
          (omega
            (arith, weight_le, weight-not p, weight-not d, weight-not v, weight-not r, weight-and))

    -- The verdict on an input iterator is satisfied exactly when no check of a legacy iterator and
    -- none of its own fails, and the array holds the codes of the former that fail, the same codes
    -- again, and the codes of the latter, then zeros: they always fit in the 28 places.
    pub legacy_input_iterator-Reports :
        (s : S) (valid_iterator : It)
        → Reports 28
            (legacy_input_iterator_codes s)
            (legacy_input_iterator cxx it ops s valid_iterator)
    unfolding legacy_input_iterator legacy_input_iterator_checks all_codes codes_of
    legacy_input_iterator-Reports s valid_iterator =
        conclude_more-Reports 28 (legacy_iterator_codes ++ legacy_iterator_codes)
          (add_unsatisfied (legacy_iterator cxx it)
            (add_unsatisfied (legacy_iterator cxx it) (error_codes_container 28)))
          (legacy_input_iterator_checks cxx it ops s) (omega arith)
          (Reports-add_unsatisfied 12 legacy_iterator_codes (legacy_iterator cxx it)
              (add_unsatisfied (legacy_iterator cxx it) (error_codes_container 28))
              legacy_iterator-Reports
            ∙ ap (add_each legacy_iterator_codes) (
                Reports-add_unsatisfied 12 legacy_iterator_codes (legacy_iterator cxx it)
                  (error_codes_container 28) legacy_iterator-Reports)
            ∙ add_each-append legacy_iterator_codes legacy_iterator_codes
                (error_codes_container 28))
          (omega (arith, input_room s, length-append legacy_iterator_codes legacy_iterator_codes))
          (all_codes-append nonzero legacy_iterator_codes legacy_iterator_codes
            legacy_iterator-Reports.1.1 legacy_iterator-Reports.1.1)
          refl

    abbrev pub legacy_forward_iterator_codes : S → It → List ℤ
    legacy_forward_iterator_codes s valid_iterator =
        legacy_input_iterator_codes s
        ++ failed
            (legacy_forward_iterator_checks cxx it ops (input_state cxx it ops s) valid_iterator)

    pub legacy_forward_iterator-Reports :
        (s : S) (valid_iterator : It)
        → Reports 58
            (legacy_forward_iterator_codes s valid_iterator)
            (legacy_forward_iterator cxx it ops s valid_iterator)
    unfolding legacy_forward_iterator legacy_forward_iterator_checks all_codes codes_of
    legacy_forward_iterator-Reports s valid_iterator =
        add_unsatisfied-Reports 28 58 (legacy_input_iterator_codes s)
          (legacy_input_iterator cxx it ops s valid_iterator)
          (legacy_forward_iterator_checks cxx it ops (input_state cxx it ops s) valid_iterator)
          (legacy_input_iterator-Reports s valid_iterator) (omega arith) (omega arith) refl

    abbrev pub legacy_bidirectional_iterator_codes : S → It → List ℤ
    legacy_bidirectional_iterator_codes s valid_iterator =
        legacy_forward_iterator_codes s valid_iterator
        ++ failed (
            legacy_bidirectional_iterator_checks cxx it ops
              (forward_state cxx it ops s valid_iterator) valid_iterator)

    pub legacy_bidirectional_iterator-Reports :
        (s : S) (valid_iterator : It)
        → Reports 67
            (legacy_bidirectional_iterator_codes s valid_iterator)
            (legacy_bidirectional_iterator cxx it ops s valid_iterator)
    unfolding legacy_bidirectional_iterator legacy_bidirectional_iterator_checks all_codes codes_of
    legacy_bidirectional_iterator-Reports s valid_iterator =
        add_unsatisfied-Reports 58 67 (legacy_forward_iterator_codes s valid_iterator)
          (legacy_forward_iterator cxx it ops s valid_iterator)
          (legacy_bidirectional_iterator_checks cxx it ops
            (forward_state cxx it ops s valid_iterator) valid_iterator)
          (legacy_forward_iterator-Reports s valid_iterator) (omega arith) (omega arith) refl

    abbrev pub legacy_random_access_iterator_codes : S → It → List ℤ
    legacy_random_access_iterator_codes s valid_iterator =
        legacy_bidirectional_iterator_codes s valid_iterator
        ++ failed (
            legacy_random_access_iterator_checks cxx it ops
              (bidirectional_state cxx it ops s valid_iterator) valid_iterator)

    -- 22 checks for 21 places: two of them exclude each other.
    random_access_room :
        (s : S) (valid_iterator : It)
        → length (failed (legacy_random_access_iterator_checks cxx it ops s valid_iterator)) ≤ 21
    unfolding legacy_random_access_iterator_checks difference_checks order_checks count
    random_access_room s valid_iterator =
        rw (length-failed-count (legacy_random_access_iterator_checks cxx it ops s valid_iterator))
          (omega (
            arith,
            weight_le,
            weight-not (has_greater_than cxx it),
            weight-and (has_greater_than cxx it) (unboolean cxx it greater_than it),
          ))

    -- The verdict on a random access iterator is satisfied exactly when no check of the chain from
    -- legacy iterator to random access iterator fails, each run on the state that the ones before
    -- leave, and the array holds the codes of those that fail, in their order and none of them 0,
    -- then zeros: they always fit in the 88 places.
    pub legacy_random_access_iterator-Reports :
        (s : S) (valid_iterator : It)
        → Reports 88
            (legacy_random_access_iterator_codes s valid_iterator)
            (legacy_random_access_iterator cxx it ops s valid_iterator)
    unfolding legacy_random_access_iterator legacy_random_access_iterator_checks difference_checks
        order_checks all_codes codes_of
    legacy_random_access_iterator-Reports s valid_iterator =
        conclude_more-Reports 88 (legacy_bidirectional_iterator_codes s valid_iterator)
          (add_unsatisfied (legacy_bidirectional_iterator cxx it ops s valid_iterator)
            (error_codes_container 88))
          (legacy_random_access_iterator_checks cxx it ops
            (bidirectional_state cxx it ops s valid_iterator) valid_iterator)
          (omega arith)
          (Reports-add_unsatisfied 67 (legacy_bidirectional_iterator_codes s valid_iterator)
            (legacy_bidirectional_iterator cxx it ops s valid_iterator) (error_codes_container 88)
            (legacy_bidirectional_iterator-Reports s valid_iterator))
          (omega (
            arith,
            (legacy_bidirectional_iterator-Reports s valid_iterator).1.0,
            random_access_room (bidirectional_state cxx it ops s valid_iterator) valid_iterator,
          ))
          (legacy_bidirectional_iterator-Reports s valid_iterator).1.1 refl

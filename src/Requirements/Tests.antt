-- ===== src/Requirements/Tests.antt =====
-- The verifications on a pointer into an array, and on types that lack something of it.
use sycl_cts.Requirements.Report.Chain.{Reports}
use sycl_cts.Requirements.Iterators.{
  forward_state, input_state, legacy_forward_iterator, legacy_forward_iterator_checks,
  legacy_input_iterator, legacy_input_iterator_checks, multipass,
}
use sycl_cts.Requirements.Report.{failed}
use sycl_cts.Requirements.ErrorCodes.{
  add_error, add_errors, error_codes_container, filled, get_array, has_errors,
}
use sycl_cts.Prelude.{
  Bool, [], ap, arith, false, if◌then◌else◌, negsuc, not, pos, refl, suc, true, ℕ, ◌*◌, ◌+◌, ◌-◌,
  ◌==◌, ◌∷◌, ◌≡◌,
}
use sycl_cts.Requirements.TypeTraits.{
  Compiler, Expression, Member, addition, addition_assignment, call_size, call_to_string, declval,
  dereference, difference_type, is_equal, negation, pointer, post_decrement, post_increment,
  pre_decrement, pre_increment, reference, subscript, subtraction, subtraction_assignment,
  value_type,
}
use sycl_cts.Requirements.Checks.{
  Operations, add_unsatisfied, legacy_iterator, legacy_iterator_checks, legacy_output_iterator,
  legacy_output_iterator_checks, run_checks,
}
use sycl_cts.Requirements.RandomAccess.{
  bidirectional_state, difference_checks, legacy_bidirectional_iterator,
  legacy_bidirectional_iterator_checks, legacy_random_access_iterator,
  legacy_random_access_iterator_checks, order_checks, round_trip,
}
use sycl_cts.Requirements.Faithful.{IsFaithful, faithful-passes}
use sycl_cts.Requirements.Hierarchy.{hierarchy}
use sycl_cts.Requirements.ErrorCodes.Laws.{add_each, add_each-recorded, recorded}
use sycl_cts.Requirements.Verdicts.{
  legacy_input_iterator-Reports, legacy_random_access_iterator-Reports,
}

-- The types of the expressions on a pointer.
data Name : Type 0 where
  iterator element distance boolean integer absent : Name
  lvalue rvalue constant : Name → Name

abbrev same : Name → Name → Bool
same iterator iterator = true
same element element = true
same distance distance = true
same boolean boolean = true
same integer integer = true
same absent absent = true
same (lvalue t) (lvalue u) = same t u
same (rvalue t) (rvalue u) = same t u
same (constant t) (constant u) = same t u
same _ _ = false

abbrev bare : Name → Name
bare (lvalue t) = bare t
bare (rvalue t) = bare t
bare (constant t) = bare t
bare t = t

abbrev type_of : Expression Name → Name
type_of (declval t) = t
type_of (dereference e) = lvalue element
type_of (subscript e i) = lvalue element
type_of (pre_increment e) = lvalue iterator
type_of (pre_decrement e) = lvalue iterator
type_of (addition_assignment i n) = lvalue iterator
type_of (subtraction_assignment i n) = lvalue iterator
type_of (post_increment e) = iterator
type_of (post_decrement e) = iterator
type_of (addition i n) = iterator
type_of (subtraction i j) = if same (bare (type_of j)) iterator then distance else iterator
type_of (negation n) = distance
type_of (call_size e) = absent
type_of (call_to_string t) = absent
type_of _ = boolean

abbrev members : Member → Name → Name
members value_type t = element
members difference_type t = distance
members reference t = lvalue element
members _ t = absent

-- What the compiler says of a pointer, if each expression is valid that `valid` says so, and it has
-- the member `pointer` as `has_pointer` says.
abbrev compiler : (Expression Name → Bool) → Bool → Compiler Name
compiler valid pointed = record {
  is_valid = valid;
  decltype = type_of;
  has_member = λ m t. elim m [ pointer ↦ pointed | _ ↦ true ];
  member = members;
  lvalue_reference = lvalue;
  rvalue_reference = rvalue;
  add_const = constant;
  bool_type = boolean;
  int_type = integer;
  size_type = integer;
  is_same = same;
  is_convertible = λ t u. same (bare t) (bare u);
  is_assignable = λ t u. same t (lvalue u);
  is_copy_constructible = λ t. true;
  is_copy_assignable = λ t. true;
  is_destructible = λ t. true;
  is_swappable = λ t. true;
  is_default_constructible = λ t. true;
}

abbrev pointers : Compiler Name
pointers = compiler (λ e. true) true

-- A pointer is an index, and the state counts the steps.
abbrev indices : Operations ℕ ℕ ℕ
indices = record {
  initial = 0;
  increment = λ s i. (suc i, s + 1);
  decrement = λ s i. (i - 1, s + 1);
  value = λ s i. i * i;
  equals = λ s i j. i == j;
  const_equals = λ s i j. i == j;
  differs = λ s i j. not (i == j);
  value_differs = λ v w. not (v == w);
  plus_one = λ s i. i + 1;
  one_plus = λ s i. 1 + i;
}

pointers_accepted : legacy_random_access_iterator pointers iterator indices 0 3 ≡ (true, filled 88)
unfolding legacy_random_access_iterator legacy_random_access_iterator_checks difference_checks
    order_checks bidirectional_state legacy_bidirectional_iterator
    legacy_bidirectional_iterator_checks round_trip forward_state multipass legacy_forward_iterator
    legacy_forward_iterator_checks input_state legacy_input_iterator legacy_input_iterator_checks
    legacy_output_iterator legacy_output_iterator_checks legacy_iterator legacy_iterator_checks
    failed run_checks add_unsatisfied add_errors add_error has_errors error_codes_container recorded
    filled
pointers_accepted = refl

hierarchy_example :
    ((legacy_bidirectional_iterator pointers iterator indices 0 3).0 ≡ true)
    × (((legacy_forward_iterator pointers iterator indices 0 3).0 ≡ true)
        × (((legacy_input_iterator pointers iterator indices 0 3).0 ≡ true)
            × ((legacy_iterator pointers iterator).0 ≡ true)))
hierarchy_example = hierarchy pointers iterator indices 0 3 (ap (λ v. v.0) pointers_accepted)

legacy_random_access_iterator-Reports_example :
    Reports 88 [] (legacy_random_access_iterator pointers iterator indices 0 3)
unfolding legacy_random_access_iterator legacy_random_access_iterator_checks difference_checks
    order_checks bidirectional_state legacy_bidirectional_iterator
    legacy_bidirectional_iterator_checks round_trip forward_state multipass legacy_forward_iterator
    legacy_forward_iterator_checks input_state legacy_input_iterator legacy_input_iterator_checks
    legacy_output_iterator legacy_output_iterator_checks legacy_iterator legacy_iterator_checks
    failed run_checks add_unsatisfied add_errors add_error has_errors error_codes_container recorded
    filled
legacy_random_access_iterator-Reports_example =
    legacy_random_access_iterator-Reports pointers iterator indices 0 3

-- Without `==`; that equality comparison is missing is not reported.
abbrev is_not_equality : Expression Name → Bool
is_not_equality (is_equal e f) = false
is_not_equality _ = true

legacy_input_iterator-Reports_example :
    Reports 28
      (pos 43 ∷ pos 44 ∷ pos 43 ∷ pos 44 ∷ pos 25 ∷ [])
      (legacy_input_iterator (compiler is_not_equality false) iterator indices 0 3)
unfolding legacy_iterator_checks legacy_input_iterator_checks failed
legacy_input_iterator-Reports_example =
    legacy_input_iterator-Reports (compiler is_not_equality false) iterator indices 0 3

-- Three codes in two places.
add_each-recorded_example :
    (get_array (add_each (pos 7 ∷ pos 8 ∷ pos 9 ∷ []) (error_codes_container 2))
      ≡ pos 7 ∷ negsuc 0 ∷ [])
    × (has_errors (add_each (pos 7 ∷ pos 8 ∷ pos 9 ∷ []) (error_codes_container 2)) ≡ true)
unfolding recorded
add_each-recorded_example = add_each-recorded 2 (pos 7 ∷ pos 8 ∷ pos 9 ∷ []) (omega arith)

abbrev square : ℕ → ℕ
square n = n * n

indices-IsFaithful : IsFaithful indices (λ i. i) square
indices-IsFaithful = record {
  increment_position = λ s i. refl;
  decrement_position = λ s i. refl;
  value_element = λ s i. refl;
  equals_position = λ s i j. refl;
  differs_position = λ s i j. refl;
  value_reflexive = λ v. ground arith;
}

faithful-passes_example :
    (((multipass indices 0 3).values_differ ≡ false)
      × (((multipass indices 0 3).iterators_differ ≡ false)
          × (((multipass indices 0 3).increments_differ ≡ false)
              × ((multipass indices 0 3).value_changes ≡ false))))
    × (((round_trip indices 0 3).return_differs ≡ false)
        × (((round_trip indices 0 3).returns_equal ≡ true)
            × ((round_trip indices 0 3).returns_differ ≡ false)))
faithful-passes_example = faithful-passes indices (λ i. i) square indices-IsFaithful 0 3

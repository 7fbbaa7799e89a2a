-- ===== src/Harness/ValueOperations/Laws.antt =====
-- What is proved of tests/common/value_operations.h.
use mathlib.Core.Bool.{false≢true}
use sycl_cts.Prelude.{
  ==_iff, Bool, Bool-cases, List, [], ap, ap₂, arith, false, inl, inr, length, none, refl, some,
  suc, true, ◌&&◌, ◌<◌, ◌↔◌, ◌∙◌, ◌∷◌, ◌≡◌, ◌≤◌,
}
use sycl_cts.Harness.ValueOperations.{
  Kind, Value, are_equal_all, are_equal_by_index_sequence, are_equal_value_or_even, as_integer,
  assign_all, assign_by_index_sequence, assign_each, assign_value_or_even, bool_kind, boolean,
  equal_elements, integer, integer_kind, is_odd, kind_of, same_bool,
}

same_bool_refl : (b : Bool) → same_bool b b ≡ true
unfolding same_bool
same_bool_refl true = refl
same_bool_refl false = refl

same_bool_iff : (a b : Bool) → same_bool a b ≡ true ↔ a ≡ b
unfolding same_bool
same_bool_iff a b = ground arith

are_equal_value_or_even-assign :
    (kind : Kind) (right : Value)
    → are_equal_value_or_even (assign_value_or_even kind right) right ≡ true
unfolding assign_value_or_even are_equal_value_or_even
are_equal_value_or_even-assign bool_kind (integer n) = same_bool_refl (is_odd n)
are_equal_value_or_even-assign bool_kind (boolean b) = same_bool_refl b
are_equal_value_or_even-assign integer_kind (integer n) = ground arith
are_equal_value_or_even-assign integer_kind (boolean b) = ground arith

-- A comparison that answers true says that the left operand is what an assignment would leave.
are_equal_value_or_even_sound :
    (left right : Value)
    → are_equal_value_or_even left right ≡ true
    → left ≡ assign_value_or_even (kind_of left) right
unfolding assign_value_or_even are_equal_value_or_even
are_equal_value_or_even_sound (boolean a) (integer n) e =
    ap boolean ((same_bool_iff a (is_odd n)).0 e)
are_equal_value_or_even_sound (boolean a) (boolean b) e = ap boolean ((same_bool_iff a b).0 e)
are_equal_value_or_even_sound (integer m) (integer n) e = ap integer ((==_iff m n).0 e)
are_equal_value_or_even_sound (integer m) (boolean b) e = ap integer ((==_iff m (as_integer b)).0 e)

are_equal_all_assigned :
    (left : List Value) (right : Value) → are_equal_all (assign_all left right) right ≡ true
unfolding are_equal_all assign_all
are_equal_all_assigned [] right = refl
are_equal_all_assigned (x ∷ left) right =
    rw (are_equal_value_or_even-assign (kind_of x) right, are_equal_all_assigned left right) refl

are_equal_all_sound :
    (left : List Value) (right : Value)
    → are_equal_all left right ≡ true
    → left ≡ assign_all left right
unfolding are_equal_all assign_all
are_equal_all_sound [] right e = refl
are_equal_all_sound (x ∷ left) right e = elim (Bool-cases (are_equal_value_or_even x right)) [
  | inl same ↦
      ap₂ ◌∷◌ (are_equal_value_or_even_sound x right same)
        (are_equal_all_sound left right (rw same at e))
  | inr other ↦ absurd (false≢true (rw other at e))
]

-- The comparison of each element with one value answers true exactly for a sequence that
-- assigning the value does not change, and so it does after an assignment.
are_equal_all-assign :
    (left : List Value) (right : Value)
    → (are_equal_all left right ≡ true ↔ left ≡ assign_all left right)
      × (are_equal_all (assign_all left right) right ≡ true)
are_equal_all-assign left right = (
  (
    are_equal_all_sound left right,
    λ e. ap (λ (l : List Value). are_equal_all l right) e ∙ are_equal_all_assigned left right,
  ),
  are_equal_all_assigned left right,
)

fold_result :
    (result : Bool) (left : List Value) (right : Value)
    → are_equal_by_index_sequence result left right ≡ (result && are_equal_all left right)
unfolding are_equal_by_index_sequence are_equal_all
fold_result true [] right = refl
fold_result false [] right = refl
fold_result true (x ∷ left) right = elim (Bool-cases (are_equal_value_or_even x right)) [
  | inl e ↦ rw e (fold_result true left right)
  | inr e ↦ rw e (fold_result false left right)
]
fold_result false (x ∷ left) right = fold_result false left right

assign_fold :
    (left : List Value) (right : Value)
    → assign_by_index_sequence left right ≡ assign_all left right
unfolding assign_by_index_sequence assign_all
assign_fold [] right = refl
assign_fold (x ∷ left) right =
    ap (◌∷◌ (assign_value_or_even (kind_of x) right)) (assign_fold left right)

-- The folds over the elements of a tuple assign and compare as the loops over an array do, though
-- the fold that compares has no early return.
index_sequence-loops :
    (left : List Value) (right : Value)
    → (assign_by_index_sequence left right ≡ assign_all left right)
      × (are_equal_by_index_sequence true left right ≡ are_equal_all left right)
index_sequence-loops left right = (assign_fold left right, fold_result true left right)

-- An assignment from a container gives a result exactly if no index is out of the container's
-- range; if the sizes are equal, the result compares equal to the container.
assign_each-are_equal :
    (left rights : List Value)
    → (length left ≤ length rights
        → (new : List Value) × (assign_each left rights ≡ some new)
          × (length new ≡ length left)
          × (equal_elements new rights ≡ true))
      × (length rights < length left → assign_each left rights ≡ none)
unfolding assign_each equal_elements
assign_each-are_equal [] rights = (λ h. ([], refl, refl, refl), λ h. absurd (omega arith))
assign_each-are_equal (x ∷ left) [] = (λ h. absurd (omega arith), λ h. refl)
assign_each-are_equal (x ∷ left) (r ∷ rights) = (
  λ h.
      let found = (assign_each-are_equal left rights).0 (omega (arith, h)) in
      (
        assign_value_or_even (kind_of x) r ∷ found.0,
        rw found.1 refl,
        ap suc found.2,
        rw (are_equal_value_or_even-assign (kind_of x) r, found.3) refl,
      ),
  λ h. rw ((assign_each-are_equal left rights).1 (omega (arith, h))) refl,
)

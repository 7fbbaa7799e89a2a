-- ===== src/Harness/ValueOperations.antt =====
-- tests/common/value_operations.h: how a test sets a value and compares it. Values are booleans or
-- integers; an array, a container with `[]` and a tuple are sequences of values.
pub mod Laws
use mathlib.Core.Option
use sycl_cts.Prelude.{
  Bool, List, Option, [], false, if◌then◌else◌, length, none, not, some, true, ℕ, ◌%◌, ◌&&◌, ◌==◌,
  ◌∷◌,
}

-- The two kinds of values that the code tells apart; `std::optional<bool>` is as `bool` is.
pub data Value : Type 0 where
  boolean : Bool → Value
  integer : ℕ → Value

-- The kind that the left operand's type has.
pub data Kind : Type 0 where
  bool_kind integer_kind : Kind

abbrev pub kind_of : Value → Kind
kind_of (boolean b) = bool_kind
kind_of (integer n) = integer_kind

-- `right % 2 != 0`
pub is_odd : ℕ → Bool
is_odd n = not (n % 2 == 0)

-- The conversion of a bool to an integer type by `=` and `==`.
pub as_integer : Bool → ℕ
as_integer b = if b then 1 else 0

-- The new value of a left operand of the kind given.
pub assign_value_or_even : Kind → Value → Value
unfolding is_odd as_integer
assign_value_or_even bool_kind (integer n) = boolean (is_odd n)
assign_value_or_even bool_kind (boolean b) = boolean b
assign_value_or_even integer_kind (integer n) = integer n
assign_value_or_even integer_kind (boolean b) = integer (as_integer b)

pub same_bool : Bool → Bool → Bool
same_bool a b = if a then b else not b

pub are_equal_value_or_even : Value → Value → Bool
unfolding is_odd as_integer same_bool
are_equal_value_or_even (boolean a) (integer n) = same_bool a (is_odd n)
are_equal_value_or_even (boolean a) (boolean b) = same_bool a b
are_equal_value_or_even (integer m) (integer n) = m == n
are_equal_value_or_even (integer m) (boolean b) = m == as_integer b

-- `left[i]` for each `i` in order: an array or a container, and a right operand without `[]`.
pub assign_all : List Value → Value → List Value
unfolding assign_value_or_even
assign_all [] right = []
assign_all (x ∷ left) right = assign_value_or_even (kind_of x) right ∷ assign_all left right

-- A right operand with `[]`: `right[i]` out of range is `none`.
pub assign_each : List Value → List Value → Option (List Value)
unfolding assign_value_or_even
assign_each [] rights = some []
assign_each (x ∷ left) [] = none
assign_each (x ∷ left) (r ∷ rights) =
    Option.map (◌∷◌ (assign_value_or_even (kind_of x) r)) (assign_each left rights)

-- A tuple or a pair: the assignments of the fold over the indexes, the first index first.
pub assign_by_index_sequence : List Value → Value → List Value
unfolding assign_value_or_even
assign_by_index_sequence [] right = []
assign_by_index_sequence (x ∷ left) right =
    assign_value_or_even (kind_of x) right ∷ assign_by_index_sequence left right

-- `if (!equal) return false` for each element.
pub are_equal_all : List Value → Value → Bool
unfolding are_equal_value_or_even
are_equal_all [] right = true
are_equal_all (x ∷ left) right =
    let rest = are_equal_all left right in
    if not (are_equal_value_or_even x right) then false else rest

pub equal_elements : List Value → List Value → Bool
unfolding are_equal_value_or_even
equal_elements [] rights = true
equal_elements (x ∷ left) [] = false
equal_elements (x ∷ left) (r ∷ rights) =
    let rest = equal_elements left rights in
    if not (are_equal_value_or_even x r) then false else rest

-- Containers of different sizes are not equal.
pub are_equal_each : List Value → List Value → Bool
unfolding equal_elements
are_equal_each left rights =
    if not (length left == length rights) then false else equal_elements left rights

-- `result &= equal` for each index, without a return before the end.
pub are_equal_by_index_sequence : Bool → List Value → Value → Bool
unfolding are_equal_value_or_even
are_equal_by_index_sequence result [] right = result
are_equal_by_index_sequence result (x ∷ left) right =
    are_equal_by_index_sequence (result && are_equal_value_or_even x right) left right

-- `std::variant`: `std::get<U>` throws where the variant holds another type than `U`.
pub are_equal_variant : Value → Value → Option Bool
unfolding same_bool
are_equal_variant (boolean a) (boolean b) = some (same_bool a b)
are_equal_variant (integer m) (integer n) = some (m == n)
are_equal_variant (boolean a) (integer n) = none
are_equal_variant (integer m) (boolean b) = none

-- ===== src/Requirements/TypeTraits.antt =====
-- util/type_traits.h: the type traits that the verification of iterators asks. What a C++ compiler
-- knows of the types is a parameter: which expressions are well formed, of which type, and the
-- standard's own traits. A type is an element of `𝕋`.
use sycl_cts.Prelude.{Bool, List, [], false, ◌&&◌, ◌||◌, ◌∷◌}

pub data Member : Type 0 where
  value_type difference_type reference pointer iterator_category : Member

-- The expressions that the traits and the verifications write. `declval T` is `std::declval<T>()`,
-- and a named variable of the type `T` is `declval` of its lvalue reference.
pub data Expression (𝕋 : Type 0) : Type 0 where
  declval : 𝕋 → Expression 𝕋
  dereference pre_increment post_increment : Expression 𝕋 → Expression 𝕋
  pre_decrement post_decrement negation : Expression 𝕋 → Expression 𝕋
  call_size : Expression 𝕋 → Expression 𝕋
  call_to_string : 𝕋 → Expression 𝕋
  addition subtraction subscript : Expression 𝕋 → Expression 𝕋 → Expression 𝕋
  addition_assignment subtraction_assignment : Expression 𝕋 → Expression 𝕋 → Expression 𝕋
  is_equal not_equal greater_than less_than : Expression 𝕋 → Expression 𝕋 → Expression 𝕋
  greater_or_equal less_or_equal : Expression 𝕋 → Expression 𝕋 → Expression 𝕋

pub record Compiler (𝕋 : Type 0) : Type 0 where
  -- `std::void_t<decltype(e)>` has a type, and which one `decltype(e)` is.
  pub is_valid : Expression 𝕋 → Bool
  pub decltype : Expression 𝕋 → 𝕋
  -- `typename std::iterator_traits<T>::member`
  pub has_member : Member → 𝕋 → Bool
  pub member : Member → 𝕋 → 𝕋
  pub lvalue_reference : 𝕋 → 𝕋
  pub rvalue_reference : 𝕋 → 𝕋
  pub add_const : 𝕋 → 𝕋
  pub bool_type : 𝕋
  pub int_type : 𝕋
  pub size_type : 𝕋
  pub is_same : 𝕋 → 𝕋 → Bool
  pub is_convertible : 𝕋 → 𝕋 → Bool
  pub is_assignable : 𝕋 → 𝕋 → Bool
  pub is_copy_constructible : 𝕋 → Bool
  pub is_copy_assignable : 𝕋 → Bool
  pub is_destructible : 𝕋 → Bool
  pub is_swappable : 𝕋 → Bool
  pub is_default_constructible : 𝕋 → Bool

module _ {𝕋 : Type 0} (cxx : Compiler 𝕋) where
  -- A named variable of the type `t`.
  abbrev pub variable : 𝕋 → Expression 𝕋
  variable t = declval (cxx.lvalue_reference t)

  abbrev pub is_dereferenceable : 𝕋 → Bool
  is_dereferenceable t = cxx.is_valid (dereference (declval t))

  abbrev pub has_subscript_operator : 𝕋 → Bool
  has_subscript_operator t = cxx.is_valid (subscript (declval t) (declval cxx.size_type))

  abbrev pub has_size : 𝕋 → Bool
  has_size t = cxx.is_valid (call_size (declval t))

  abbrev pub has_subscript_and_size : 𝕋 → Bool
  has_subscript_and_size t = has_subscript_operator t && has_size t

  -- `T::to_string()`
  abbrev pub has_static_to_string : 𝕋 → Bool
  has_static_to_string t = cxx.is_valid (call_to_string t)

  -- `contains<T, List...>`
  pub contains : 𝕋 → List 𝕋 → Bool
  contains t [] = false
  contains t (head ∷ tail) = cxx.is_same t head || contains t tail

  abbrev pub has_value_type : 𝕋 → Bool
  has_value_type t = cxx.has_member value_type t

  abbrev pub has_difference_type : 𝕋 → Bool
  has_difference_type t = cxx.has_member difference_type t

  abbrev pub has_reference : 𝕋 → Bool
  has_reference t = cxx.has_member reference t

  abbrev pub has_pointer : 𝕋 → Bool
  has_pointer t = cxx.has_member pointer t

  -- It asks for the member `pointer`.
  abbrev pub has_iterator_category : 𝕋 → Bool
  has_iterator_category t = cxx.has_member pointer t

  abbrev pub can_add_assign : 𝕋 → 𝕋 → Bool
  can_add_assign t u = cxx.is_valid (addition_assignment (variable t) (declval u))

  abbrev pub can_subtract_assign : 𝕋 → 𝕋 → Bool
  can_subtract_assign t u = cxx.is_valid (subtraction_assignment (variable t) (declval u))

  -- `subtraction_v<T, RightOperandT>` is `subtraction<T>::value`, with the default operand.
  abbrev pub subtraction_assignment_v : 𝕋 → 𝕋 → Bool
  subtraction_assignment_v t u = can_subtract_assign t cxx.int_type

  abbrev pub can_add : 𝕋 → 𝕋 → Bool
  can_add t u = cxx.is_valid (addition (declval t) (declval u))

  abbrev pub can_subtract : 𝕋 → 𝕋 → Bool
  can_subtract t u = cxx.is_valid (subtraction (declval t) (declval u))

  abbrev pub can_pre_increment : 𝕋 → Bool
  can_pre_increment t = cxx.is_valid (pre_increment (variable t))

  abbrev pub can_post_increment : 𝕋 → Bool
  can_post_increment t = cxx.is_valid (post_increment (variable t))

  abbrev pub can_post_decrement : 𝕋 → Bool
  can_post_decrement t = cxx.is_valid (post_decrement (variable t))

  abbrev pub can_pre_decrement : 𝕋 → Bool
  can_pre_decrement t = cxx.is_valid (pre_decrement (variable t))

  abbrev pub has_is_equal : 𝕋 → Bool
  has_is_equal t = cxx.is_valid (is_equal (declval t) (declval t))

  abbrev pub has_not_equal : 𝕋 → Bool
  has_not_equal t = cxx.is_valid (not_equal (declval t) (declval t))

  abbrev pub has_greater_than : 𝕋 → Bool
  has_greater_than t = cxx.is_valid (greater_than (declval t) (declval t))

  abbrev pub has_less_than : 𝕋 → Bool
  has_less_than t = cxx.is_valid (less_than (declval t) (declval t))

  abbrev pub has_greater_or_equal : 𝕋 → Bool
  has_greater_or_equal t = cxx.is_valid (greater_or_equal (declval t) (declval t))

  abbrev pub has_less_or_equal : 𝕋 → Bool
  has_less_or_equal t = cxx.is_valid (less_or_equal (declval t) (declval t))

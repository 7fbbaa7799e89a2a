-- ===== src/Requirements/Messages.antt =====
-- The messages of util/named_requirement_verification/common.h. A `string_view` is its characters,
-- and the map the list of what is inserted, no key twice.
use sycl_cts.Requirements.ErrorCodes.{
  common_code, equality_comparable_code, legacy_bidirectional_iterator_code,
  legacy_forward_iterator_code, legacy_input_iterator_code, legacy_iterator_code,
  legacy_output_iterator_code, legacy_random_access_iterator_code,
}
use sycl_cts.Devices.Text.{Text, text}
use sycl_cts.Prelude.{
  Bool, List, Option, [], false, if◌then◌else◌, negsuc, none, pos, some, ℤ, ◌++◌, ◌==◌, ◌∷◌,
}

unfoldable pub init_common : List (ℤ × Text)
init_common =
    (common_code 0, text "Size for error_codes_container setted wrong!")
    ∷ (common_code 1, text "Wrong error code!")
    ∷ []

unfoldable pub init_equality_comparable : List (ℤ × Text)
init_equality_comparable =
    (
      equality_comparable_code 0,
      text "Non-const copies of one object doesn't equal to each other equal during comparing.",
    )
    ∷ (
      equality_comparable_code 1,
      text "Non-const copies of one object doesn't return convertible to bool after comparing.",
    )
    ∷ (
      equality_comparable_code 2,
      text "Const copies of one object doesn't equal to each other equal during comparing.",
    )
    ∷ (
      equality_comparable_code 3,
      text "Const copies of one object doesn't return convertible to bool after comparing.",
    )
    ∷ (equality_comparable_code 4, text "Iterator must have operator==().")
    ∷ []

unfoldable pub init_legacy_bidirectional_iterator : List (ℤ × Text)
init_legacy_bidirectional_iterator =
    (legacy_bidirectional_iterator_code 0, text "Iterator expression --(++i) must return It& type.")
    ∷ (
      legacy_bidirectional_iterator_code 1,
      text "Iterator doesn't have implemented operator--(int)",
    )
    ∷ (legacy_bidirectional_iterator_code 2, text "Iterator expression --(++i) must be equal to i.")
    ∷ (legacy_bidirectional_iterator_code 3, text "If --a == --b then a == b must be true.")
    ∷ (
      legacy_bidirectional_iterator_code 4,
      text "--a must be equal to --b, if they are copy of same object.",
    )
    ∷ (
      legacy_bidirectional_iterator_code 5,
      text "Iterator expression --i must return It& data type.",
    )
    ∷ (legacy_bidirectional_iterator_code 6, text "Iterator must have operator--().")
    ∷ (
      legacy_bidirectional_iterator_code 7,
      text "Iterator expression (i++)-- must be convertible to const It&.",
    )
    ∷ (
      legacy_bidirectional_iterator_code 8,
      text "Iterator expression *i-- must return reference data type.",
    )
    ∷ []

unfoldable pub init_legacy_forward_iterator : List (ℤ × Text)
init_legacy_forward_iterator =
    (legacy_forward_iterator_code 0, text "Iterator must be default constructible.")
    ∷ (
      legacy_forward_iterator_code 1,
      text
          "Provided iterator satisfy to LegacyOutputIterator requirement. iterator_traits::reference must be T& or T&&.",
    )
    ∷ (
      legacy_forward_iterator_code 2,
      text
          "Provided iterator not satisfy to LegacyOutputIterator requirement. iterator_traits::reference must be const T& or const T&&.",
    )
    ∷ (legacy_forward_iterator_code 3, text "operator++(int) must return It.")
    ∷ (legacy_forward_iterator_code 4, text "Iterator doesn't have implemented operator++(int)")
    ∷ (
      legacy_forward_iterator_code 5,
      text "Expression *i++ must be convertible to iterator_traits::reference.",
    )
    ∷ (
      legacy_forward_iterator_code 6,
      text
          "If a and b compare equal (a == b) then *a and *b are references bound to the same object.",
    )
    ∷ (
      legacy_forward_iterator_code 7,
      text "If *a and *b refer to the same object, then a == b equals true.",
    )
    ∷ (
      legacy_forward_iterator_code 8,
      text "If a == b equals true then ++a == ++b also equals true.",
    )
    ∷ (
      legacy_forward_iterator_code 9,
      text
          "Incrementing copy of iterator instance must not affect on the value read from original object.",
    )
    ∷ []

unfoldable pub init_legacy_input_iterator : List (ℤ × Text)
init_legacy_input_iterator =
    (legacy_input_iterator_code 0, text "Iterator must have implemented operator==().")
    ∷ (legacy_input_iterator_code 1, text "Iterator must have implemented operator!=().")
    ∷ (legacy_input_iterator_code 2, text "Iterator must have implemented operator++(int).")
    ∷ (
      legacy_input_iterator_code 3,
      text "Two not equal iterators returns true with NOT EQUAL operator.",
    )
    ∷ (
      legacy_input_iterator_code 4,
      text
          "Two not equal iterators must return implicit convertible to bool value with NOT EQUAL operator.",
    )
    ∷ (legacy_input_iterator_code 5, text "Iterator must return It& from operator++().")
    ∷ (
      legacy_input_iterator_code 6,
      text "Iterator expression *i++ must be convertible to iterator_traits::value_type.",
    )
    ∷ (
      legacy_input_iterator_code 7,
      text "Iterator must return iterator_traits::reference from operator*().",
    )
    ∷ (
      legacy_input_iterator_code 8,
      text "operator*() result must be convertible to iterator_traits::value_type.",
    )
    ∷ (legacy_input_iterator_code 9, text "")
    ∷ (legacy_input_iterator_code 10, text "")
    ∷ []

unfoldable pub init_legacy_iterator : List (ℤ × Text)
init_legacy_iterator =
    (legacy_iterator_code 0, text "Iterator must be copy constructable.")
    ∷ (legacy_iterator_code 1, text "Iterator must be copy assignable.")
    ∷ (legacy_iterator_code 2, text "Iterator must be destructible.")
    ∷ (legacy_iterator_code 3, text "Iterator must be swappable.")
    ∷ (legacy_iterator_code 4, text "Iterator must have value_type member typedef.")
    ∷ (legacy_iterator_code 5, text "Iterator must have difference_type member typedef.")
    ∷ (legacy_iterator_code 6, text "Iterator must have reference member typedef.")
    ∷ (legacy_iterator_code 7, text "Iterator must have pointer member typedef.")
    ∷ (legacy_iterator_code 8, text "Iterator must have iterator_category member typedef.")
    ∷ (legacy_iterator_code 9, text "Iterator must have operator++().")
    ∷ (legacy_iterator_code 10, text "Iterator must return It& after usage of operator++().")
    ∷ (legacy_iterator_code 11, text "Iterator must have operator*().")
    ∷ []

unfoldable pub init_legacy_output_iterator : List (ℤ × Text)
init_legacy_output_iterator =
    (
      legacy_output_iterator_code 0,
      text "Iterator must return iterator_traits::value_type from operator*().",
    )
    ∷ (legacy_output_iterator_code 1, text "Iterator must return It& from operator++().")
    ∷ (
      legacy_output_iterator_code 2,
      text "Iterator must return convertible to const It from operator++().",
    )
    ∷ (
      legacy_output_iterator_code 3,
      text
          "Iterator must be assignable with iterator_traits::value_type after usage of operator++() and operator*().",
    )
    ∷ (
      legacy_output_iterator_code 4,
      text
          "Iterator must be assignable with iterator_traits::value_type after usage of operator*().",
    )
    ∷ (legacy_output_iterator_code 5, text "")
    ∷ (legacy_output_iterator_code 6, text "")
    ∷ (legacy_output_iterator_code 7, text "")
    ∷ []

unfoldable pub init_legacy_random_access_iterator : List (ℤ × Text)
init_legacy_random_access_iterator =
    (
      legacy_random_access_iterator_code 0,
      text "Iterator must have difference_type member typedef.",
    )
    ∷ (
      legacy_random_access_iterator_code 1,
      text
          "Iterator must have operator+=() between Iterator instance and iterator_traits::difference_type.",
    )
    ∷ (
      legacy_random_access_iterator_code 2,
      text
          "Iterator must have operator-=() between Iterator instance and iterator_traits::difference_type.",
    )
    ∷ (
      legacy_random_access_iterator_code 3,
      text "Iterator must have subtraction between iterators.",
    )
    ∷ (
      legacy_random_access_iterator_code 4,
      text
          "Iterator must have operator+() iterator_traits::difference_type plus Iterator object with operator.",
    )
    ∷ (legacy_random_access_iterator_code 5, text "Iterator must have operator[].")
    ∷ (
      legacy_random_access_iterator_code 6,
      text "operator+=() and operator-=() must return It& for positive and negative vales.",
    )
    ∷ (
      legacy_random_access_iterator_code 7,
      text "operator+() and operator-() must return It& for positive and negative vales.",
    )
    ∷ (legacy_random_access_iterator_code 8, text "Iterator operator+=() must be commutative.")
    ∷ (
      legacy_random_access_iterator_code 9,
      text "Iterator must have operator+() with iterator_traits::difference_type operator.",
    )
    ∷ (
      legacy_random_access_iterator_code 10,
      text "Iterator object minus iterator_traits::difference_type must return Iterator instance.",
    )
    ∷ (
      legacy_random_access_iterator_code 11,
      text "Iterator must have operator-() with iterator_traits::difference_type operator.",
    )
    ∷ (
      legacy_random_access_iterator_code 12,
      text "operator-() of It instances must return iterator_traits::difference_type.",
    )
    ∷ (
      legacy_random_access_iterator_code 13,
      text "operator[]() return value must be convertible to iterator_traits::reference.",
    )
    ∷ (
      legacy_random_access_iterator_code 14,
      text "operator>() return value must be contextually convertible to bool.",
    )
    ∷ (
      legacy_random_access_iterator_code 15,
      text "operator<() return value must be contextually convertible to bool.",
    )
    ∷ (
      legacy_random_access_iterator_code 16,
      text "operator>=() return value must be contextually convertible to bool.",
    )
    ∷ (legacy_random_access_iterator_code 17, text "Iterator must have operator>=().")
    ∷ (
      legacy_random_access_iterator_code 18,
      text "operator>=() return value must be contextually convertible to bool.",
    )
    ∷ (legacy_random_access_iterator_code 19, text "Iterator must have operator>=().")
    ∷ (
      legacy_random_access_iterator_code 20,
      text "operator<=() return value must be contextually convertible to bool.",
    )
    ∷ (legacy_random_access_iterator_code 21, text "Iterator must have operator<=().")
    ∷ []

unfoldable pub init : List (ℤ × Text)
init =
    init_common
    ++ (init_equality_comparable
        ++ (init_legacy_bidirectional_iterator
            ++ (init_legacy_forward_iterator
                ++ (init_legacy_input_iterator
                    ++ (init_legacy_iterator
                        ++ (init_legacy_output_iterator ++ init_legacy_random_access_iterator))))))

abbrev pub same_code : ℤ → ℤ → Bool
same_code (pos m) (pos n) = m == n
same_code (pos m) (negsuc n) = false
same_code (negsuc m) (pos n) = false
same_code (negsuc m) (negsuc n) = m == n

-- `m_error_map.find(error_code)`
unfoldable pub find : ℤ → List (ℤ × Text) → Option Text
find code [] = none
find code ((key, message) ∷ rest) = if same_code code key then some message else find code rest

-- The fallback's `at` would throw, were there no text for its code.
unfoldable pub error_message : ℤ → Option Text
error_message code = elim (find code init) [
  | none ↦ find (common_code 1) init
  | some message ↦ some message
]

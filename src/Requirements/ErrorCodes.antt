-- ===== src/Requirements/ErrorCodes.antt =====
-- The error codes of util/named_requirement_verification/common.h and the container that
-- collects them. An `int` is an integer, since no code is near its bounds. `Size` is the field `capacity`, and
-- a store behind the array, which only `Size` 0 allows, does nothing.
pub mod Laws
use sycl_cts.Prelude.{
  Bool, List, [], false, if◌then◌else◌, ltb, negsuc, not, pos, suc, true, zero, ℕ, ℤ, ◌+◌, ◌-◌,
  ◌==◌, ◌∷◌,
}

abbrev pub common_code : ℕ → ℤ
common_code k = negsuc k

abbrev pub equality_comparable_code : ℕ → ℤ
equality_comparable_code k = pos (1 + k)

abbrev pub legacy_bidirectional_iterator_code : ℕ → ℤ
legacy_bidirectional_iterator_code k = pos (6 + k)

abbrev pub legacy_forward_iterator_code : ℕ → ℤ
legacy_forward_iterator_code k = pos (15 + k)

abbrev pub legacy_input_iterator_code : ℕ → ℤ
legacy_input_iterator_code k = pos (25 + k)

abbrev pub legacy_iterator_code : ℕ → ℤ
legacy_iterator_code k = pos (36 + k)

abbrev pub legacy_output_iterator_code : ℕ → ℤ
legacy_output_iterator_code k = pos (48 + k)

abbrev pub legacy_random_access_iterator_code : ℕ → ℤ
legacy_random_access_iterator_code k = pos (56 + k)

pub record ErrorCodesContainer : Type 0 where
  pub capacity : ℕ
  pub m_error_codes_container : List ℤ
  pub m_index : ℕ

-- `fill(0)`
unfoldable pub filled : ℕ → List ℤ
filled zero = []
filled (suc n) = pos 0 ∷ filled n

unfoldable pub error_codes_container : ℕ → ErrorCodesContainer
error_codes_container n = record { capacity = n; m_error_codes_container = filled n; m_index = 0 }

-- `m_error_codes_container[i] = code`
pub store : List ℤ → ℕ → ℤ → List ℤ
store [] i code = []
store (x ∷ xs) zero code = code ∷ xs
store (x ∷ xs) (suc i) code = x ∷ store xs i code

unfoldable pub add_error : ℤ → ErrorCodesContainer → ErrorCodesContainer
add_error code c =
    if ltb c.m_index c.capacity
    then (record c {
      m_error_codes_container = store c.m_error_codes_container c.m_index code;
      m_index = c.m_index + 1;
    })
    else (record c {
      m_error_codes_container = store c.m_error_codes_container (c.capacity - 1) (common_code 0);
    })

abbrev pub is_zero : ℤ → Bool
is_zero (pos zero) = true
is_zero (pos (suc n)) = false
is_zero (negsuc n) = false

unfoldable pub add_errors : List ℤ → ErrorCodesContainer → ErrorCodesContainer
add_errors [] c = c
add_errors (code ∷ rest) c = add_errors rest (if is_zero code then c else add_error code c)

unfoldable pub has_errors : ErrorCodesContainer → Bool
has_errors c = not (c.m_index == 0)

abbrev pub get_array : ErrorCodesContainer → List ℤ
get_array c = c.m_error_codes_container

-- ===== src/Requirements/Reportable.antt =====
-- Which codes the verification of an input iterator can report, and the message of a code that no
-- namespace of util/named_requirement_verification/common.h defines.
use mathlib.Core.Bool.{false≢true}
use sycl_cts.Devices.Text.{Text, text}
use sycl_cts.Prelude.{
  Bool, Bool-cases, List, [], ap, arith, false, inl, inr, leb, negsuc, none, pos, refl, some, sym,
  true, ℕ, ℤ, ◌&&◌, ◌++◌, ◌∙◌, ◌∷◌, ◌≡◌,
}
use sycl_cts.Requirements.TypeTraits.{Compiler}
use sycl_cts.Requirements.Checks.{Operations, legacy_iterator_checks}
use sycl_cts.Requirements.Iterators.{legacy_input_iterator_checks}
use sycl_cts.Requirements.Verdicts.{legacy_input_iterator_codes, legacy_iterator_codes}
use sycl_cts.Requirements.Report.{
  all_codes, all_codes-append, all_codes-failed, and_split, codes_of, failed,
}
use sycl_cts.Requirements.Messages.{
  error_message, find, init, init_common, init_equality_comparable,
  init_legacy_bidirectional_iterator, init_legacy_forward_iterator, init_legacy_input_iterator,
  init_legacy_iterator, init_legacy_output_iterator, init_legacy_random_access_iterator, same_code,
}

abbrev pub between : ℕ → ℕ → ℤ → Bool
between low high (pos n) = leb low n && leb n high
between low high (negsuc n) = false

module _ {𝕋 : Type 0} (cxx : Compiler 𝕋) (it : 𝕋) {S It V : Type 0} (ops : Operations S It V) where
  input_codes :
      (test : ℤ → Bool) (s : S)
      → all_codes test (codes_of (legacy_iterator_checks cxx it)) ≡ true
      → all_codes test (codes_of (legacy_input_iterator_checks cxx it ops s)) ≡ true
      → all_codes test (legacy_input_iterator_codes cxx it ops s) ≡ true
  input_codes test s h g =
      let first = all_codes-failed test (legacy_iterator_checks cxx it) h in
      all_codes-append test (legacy_iterator_codes cxx it ++ legacy_iterator_codes cxx it)
        (failed (legacy_input_iterator_checks cxx it ops s))
        (all_codes-append test (legacy_iterator_codes cxx it) (legacy_iterator_codes cxx it) first
          first)
        (all_codes-failed test (legacy_input_iterator_checks cxx it ops s) g)

  -- The verification of an input iterator reports none of the codes 1 to 5 of equality comparison:
  -- all its codes lie between 25 and 47, whatever the iterator's `==` does.
  legacy_input_iterator-between :
      (s : S) → all_codes (between 25 47) (legacy_input_iterator_codes cxx it ops s) ≡ true
  unfolding legacy_iterator_checks legacy_input_iterator_checks codes_of all_codes
  legacy_input_iterator-between s = input_codes (between 25 47) s refl refl

-- The codes that the namespaces of the header define.
abbrev pub is_defined : ℤ → Bool
is_defined (pos n) = leb 1 n && leb n 77
is_defined (negsuc n) = leb n 1

all_keys : (ℤ → Bool) → List (ℤ × Text) → Bool
all_keys test [] = true
all_keys test ((key, message) ∷ rest) = test key && all_keys test rest

same_code-eq : (a b : ℤ) → same_code a b ≡ true → a ≡ b
same_code-eq (pos m) (pos n) h = ground (arith, h)
same_code-eq (pos m) (negsuc n) h = absurd (false≢true h)
same_code-eq (negsuc m) (pos n) h = absurd (false≢true h)
same_code-eq (negsuc m) (negsuc n) h = ground (arith, h)

find-none :
    (test : ℤ → Bool) (code : ℤ) (table : List (ℤ × Text))
    → test code ≡ false
    → all_keys test table ≡ true
    → find code table ≡ none
unfolding find all_keys
find-none test code [] h g = refl
find-none test code ((key, message) ∷ rest) h g = elim (Bool-cases (same_code code key)) [
  | inl e ↦ absurd (
      false≢true (
        sym h
        ∙ ap test (same_code-eq code key e)
        ∙ (and_split (test key) (all_keys test rest) g).0))
  | inr e ↦ rw e (find-none test code rest h (and_split (test key) (all_keys test rest) g).1)
]

-- A code that no namespace defines, such as 0 or 78, gets the text for a wrong code.
error_message-unknown :
    (code : ℤ) → is_defined code ≡ false → error_message code ≡ some (text "Wrong error code!")
unfolding error_message all_keys find init init_common init_equality_comparable
    init_legacy_bidirectional_iterator init_legacy_forward_iterator init_legacy_input_iterator
    init_legacy_iterator init_legacy_output_iterator init_legacy_random_access_iterator
error_message-unknown code h = rw (error_message, find-none is_defined code init h refl) refl

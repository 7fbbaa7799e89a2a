-- ===== src/Requirements/Hierarchy.antt =====
-- How the verdicts of util/named_requirement_verification depend on each other.
use sycl_cts.Requirements.Report.Chain.{Reports}
use sycl_cts.Requirements.Verdicts.{
  legacy_bidirectional_iterator-Reports, legacy_bidirectional_iterator_codes,
  legacy_forward_iterator-Reports, legacy_forward_iterator_codes, legacy_input_iterator-Reports,
  legacy_input_iterator_codes, legacy_iterator-Reports, legacy_iterator_codes,
  legacy_random_access_iterator-Reports, legacy_random_access_iterator_codes,
}
use sycl_cts.Prelude.{
  ==_iff, List, ap, arith, length, length-append, sym, true, ℕ, ℤ, ◌∙◌, ◌≡◌, ◌≤◌,
}
use sycl_cts.Requirements.TypeTraits.{Compiler}
use sycl_cts.Requirements.Checks.{Operations, Verdict, legacy_iterator}
use sycl_cts.Requirements.Iterators.{legacy_forward_iterator, legacy_input_iterator}
use sycl_cts.Requirements.RandomAccess.{
  legacy_bidirectional_iterator, legacy_random_access_iterator,
}

-- Satisfied with more codes is satisfied with fewer.
satisfied_fewer :
    {n m : ℕ} (xs ys : List ℤ) {v w : Verdict}
    → Reports n xs v
    → Reports m ys w
    → length ys ≤ length xs
    → v.0 ≡ true
    → w.0 ≡ true
satisfied_fewer xs ys h g fewer e =
    ap (λ v. v.0) g.0
    ∙ (==_iff (length ys) 0).1
        (omega (arith, fewer, (==_iff (length xs) 0).0 (sym (ap (λ v. v.0) h.0) ∙ e)))

module _ {𝕋 : Type 0} (cxx : Compiler 𝕋) (it : 𝕋) {S It V : Type 0} (ops : Operations S It V)
    (s : S) (valid_iterator : It) where
  -- A random access iterator that is satisfied is so as a bidirectional, a forward, an input and a
  -- legacy iterator too.
  pub hierarchy :
      (legacy_random_access_iterator cxx it ops s valid_iterator).0 ≡ true
      → ((legacy_bidirectional_iterator cxx it ops s valid_iterator).0 ≡ true)
        × (((legacy_forward_iterator cxx it ops s valid_iterator).0 ≡ true)
            × (((legacy_input_iterator cxx it ops s valid_iterator).0 ≡ true)
                × ((legacy_iterator cxx it).0 ≡ true)))
  hierarchy h =
      let random_access = legacy_random_access_iterator-Reports cxx it ops s valid_iterator in
      (
        satisfied_fewer (legacy_random_access_iterator_codes cxx it ops s valid_iterator)
            (legacy_bidirectional_iterator_codes cxx it ops s valid_iterator) random_access
            (legacy_bidirectional_iterator-Reports cxx it ops s valid_iterator)
            (omega (arith, length-append {A = ℤ})) h,
        (
          satisfied_fewer (legacy_random_access_iterator_codes cxx it ops s valid_iterator)
              (legacy_forward_iterator_codes cxx it ops s valid_iterator) random_access
              (legacy_forward_iterator-Reports cxx it ops s valid_iterator)
              (omega (arith, length-append {A = ℤ})) h,
          (
            satisfied_fewer (legacy_random_access_iterator_codes cxx it ops s valid_iterator)
                (legacy_input_iterator_codes cxx it ops s) random_access
                (legacy_input_iterator-Reports cxx it ops s valid_iterator)
                (omega (arith, length-append {A = ℤ})) h,
            satisfied_fewer (legacy_random_access_iterator_codes cxx it ops s valid_iterator)
                (legacy_iterator_codes cxx it) random_access (legacy_iterator-Reports cxx it)
                (omega (arith, length-append {A = ℤ})) h,
          ),
        ),
      )

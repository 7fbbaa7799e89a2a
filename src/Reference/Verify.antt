-- ===== src/Reference/Verify.antt =====
-- `verify` of tests/math_builtin_api/math_builtin.h: the comparison of a result with its reference.
-- Only the verdict is modelled, not the notes in the log.
use sycl_cts.Reference.ResultRef.{ResultRef, is_empty, lookup_key}
use sycl_cts.Prelude.{
  Bool, List, arith, false, if◌then◌else◌, ltb_ℤ, none, not, pos, refl, some, suc, true, zero, ℕ, ℤ,
  ◌&&◌, ◌+◌, ◌<◌, ◌||◌, ◌↔◌, ◌≡◌, ◌≤◌,
}
use sycl_cts.Reference.Elementwise.{
  get_element, run_func_on_marray_result_ref, run_func_on_vector_result_ref,
}
use sycl_cts.Reference.Elementwise.Laws.{marray_result_ref_elements, vector_result_ref-lookup_key}

module _ {ℓ} {A : Type ℓ} (eq : A → A → Bool) where
  -- The overload for integers; `eq` is `==` of the type.
  pub verify_integral : A → ResultRef A → Bool
  verify_integral value r = eq value r.res || not (is_empty r.undefined)

-- `AccuracyMode`
pub data AccuracyMode : Type 0 where
  ulp absolute_tolerance : AccuracyMode

-- The floating-point operations that `verify` calls, at a type `T`: `within_ulps difference
-- accuracy reference` is `difference <= unsigned(accuracy) * get_ulp_std(reference)`, and
-- `within difference accuracy` is `difference <= accuracy`.
pub record Float {ℓ} (T : Type ℓ) : Type ℓ where
  pub eq : T → T → Bool
  pub lt : T → T → Bool
  pub isnan : T → Bool
  pub isinf : T → Bool
  pub fabs : T → T
  pub sub : T → T → T
  pub min_t : T
  pub within_ulps : T → ℤ → T → Bool
  pub within : T → ℤ → Bool

module _ {ℓ} {T : Type ℓ} (f : Float T) where
  abbrev both_finite : T → T → Bool
  both_finite value reference =
      not (f.isnan value)
      && not (f.isnan reference)
      && not (f.isinf value)
      && not (f.isinf reference)

  abbrev is_subnormal : T → Bool
  is_subnormal x = f.lt (f.fabs x) f.min_t

  -- The overload for floating-point types, behind the test for an undefined result. The accuracy
  -- is a whole number here, as in the calls.
  pub compare_floats : T → T → ℤ → AccuracyMode → Bool
  compare_floats value reference accuracy mode =
      if f.isnan value && f.isnan reference
      then true
      else if f.eq value reference
      then true
      else if both_finite value reference
      then (if ltb_ℤ accuracy (pos 0)
          then true
          else if is_subnormal value && is_subnormal reference
          then true
          else elim mode [
            | ulp ↦ f.within_ulps (f.fabs (f.sub value reference)) accuracy reference
            | absolute_tolerance ↦ f.within (f.fabs (f.sub value reference)) accuracy
          ])
      else false

  pub verify_float : T → ResultRef T → ℤ → AccuracyMode → Bool
  verify_float value r accuracy mode =
      if not (is_empty r.undefined) then true else compare_floats value r.res accuracy mode

module _ {ℓ} {A : Type ℓ} (start : A) (check : A → A → Bool) where
  -- `r.undefined.find(i) == r.undefined.end()`
  abbrev is_absent : ℕ → List (ℕ × Bool) → Bool
  is_absent i undefined = elim (lookup_key i undefined) [ none ↦ true | some flag ↦ false ]

  -- The loop over the elements at index `i` with `rounds` of it left, which returns at the first
  -- element that fails. The overloads for `vec` and for `marray` have the same body.
  pub verify_loop : ℕ → ℕ → List A → ResultRef (List A) → Bool
  verify_loop zero i a r = true
  verify_loop (suc rounds) i a r =
      let rest = verify_loop rounds (i + 1) a r in
      if is_absent i r.undefined && not (check (get_element start a i) (get_element start r.res i))
      then false
      else rest

  pub verify_elements : ℕ → List A → ResultRef (List A) → Bool
  verify_elements n a r = verify_loop n 0 a r

  verify_loop-true :
      (rounds i : ℕ) (a : List A) (r : ResultRef (List A))
      → ((j : ℕ) → i ≤ j → j < i + rounds → is_absent j r.undefined ≡ false)
      → verify_loop rounds i a r ≡ true
  unfolding verify_loop
  verify_loop-true zero i a r h = refl
  verify_loop-true (suc rounds) i a r h =
      ground
        (arith, h i, verify_loop-true rounds (i + 1) a r (λ j p q. h j (omega arith) (omega arith)))

  -- The result of `run_func_on_vector_result_ref` is accepted beside every vector, whatever the
  -- scalar function and the test of an element are.
  pub verify_vector_accepts_all :
      (n : ℕ) (elem : ℕ → ResultRef A) (a : List A)
      → verify_elements n a (run_func_on_vector_result_ref start n elem) ≡ true
  unfolding verify_elements
  verify_vector_accepts_all n elem a =
      verify_loop-true n 0 a (run_func_on_vector_result_ref start n elem)
        λ j p q. rw (vector_result_ref-lookup_key start n elem j (omega arith), is_absent)

  verify_loop_sound :
      (rounds i : ℕ) (a : List A) (r : ResultRef (List A)) (j : ℕ)
      → verify_loop rounds i a r ≡ true
      → i ≤ j
      → j < i + rounds
      → is_absent j r.undefined ≡ true
      → check (get_element start a j) (get_element start r.res j) ≡ true
  unfolding verify_loop
  verify_loop_sound zero i a r j h p q e = absurd (omega arith)
  verify_loop_sound (suc rounds) i a r j h p q e =
      ground (arith, verify_loop_sound rounds (i + 1) a r j)

  verify_loop_complete :
      (rounds i : ℕ) (a : List A) (r : ResultRef (List A))
      → ((j : ℕ)
          → i ≤ j
          → j < i + rounds
          → is_absent j r.undefined ≡ true
          → check (get_element start a j) (get_element start r.res j) ≡ true)
      → verify_loop rounds i a r ≡ true
  unfolding verify_loop
  verify_loop_complete zero i a r h = refl
  verify_loop_complete (suc rounds) i a r h = ground (
    arith,
    h i,
    verify_loop_complete rounds (i + 1) a r (λ j p q. h j (omega arith) (omega arith)),
  )

  -- Beside the result of `run_func_on_marray_result_ref`, an `marray` is accepted exactly when
  -- every element at which the scalar function is defined passes the test.
  pub verify_marray_iff :
      (n : ℕ) (elem : ℕ → ResultRef A) (a : List A)
      → (verify_elements n a (run_func_on_marray_result_ref start n elem) ≡ true) ↔ (
          (j : ℕ)
          → j < n
          → is_empty (elem j).undefined ≡ true
          → check (get_element start a j) (elem j).res ≡ true)
  unfolding verify_elements
  verify_marray_iff n elem a = (
    λ h j q e.
        let laws = marray_result_ref_elements start n elem j q in
        let passed =
          verify_loop_sound n 0 a (run_func_on_marray_result_ref start n elem) j h (omega arith)
            (omega arith) (rw (laws.0, e, is_absent)) in
        ground (arith, passed, laws.1),
    λ h. verify_loop_complete n 0 a (run_func_on_marray_result_ref start n elem) λ j p q e.
        let laws = marray_result_ref_elements start n elem j (omega arith) in
        ground (arith, laws.0, laws.1, h j),
  )

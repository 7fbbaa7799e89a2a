-- ===== src/Reference/Elementwise.antt =====
-- The functions of util/math_helper.h that run a scalar function over the elements of a `vec` or an
-- `marray`, and the versions for both that the macros of util/math_reference.h make of one.
-- `N` elements are a list of that length. The pack `args...` enters as the function
-- `elem i = fun(getElement(args, i)...)`.
pub mod Laws
use sycl_cts.Reference.ResultRef.{ResultRef, assign_key, is_empty}
use sycl_cts.Prelude.{Bool, List, [], false, if◌then◌else◌, suc, true, zero, ℕ, ◌+◌, ◌∷◌}

module _ {ℓ} {A : Type ℓ} where
  -- `res[i] = v`
  pub set_element : List A → ℕ → A → List A
  set_element [] i v = []
  set_element (x ∷ xs) zero v = v ∷ xs
  set_element (x ∷ xs) (suc i) v = x ∷ set_element xs i v

  -- `f[i]`; every index of the callers is in range, and `start` stands for none.
  unfoldable pub get_element : A → List A → ℕ → A
  get_element start [] i = start
  get_element start (x ∷ xs) zero = x
  get_element start (x ∷ xs) (suc i) = get_element start xs i

  -- A value-initialised `vec<A, N>`.
  pub blank : A → ℕ → List A
  blank start zero = []
  blank start (suc n) = start ∷ blank start n

  -- The loop at index `i` with `rounds` of it left.
  pub run_loop : (ℕ → A) → ℕ → ℕ → List A → List A
  run_loop elem zero i res = res
  run_loop elem (suc rounds) i res = run_loop elem rounds (i + 1) (set_element res i (elem i))

  unfoldable pub run_func_on_vector : A → ℕ → (ℕ → A) → List A
  run_func_on_vector start n elem = run_loop elem n 0 (blank start n)

  unfoldable pub run_func_on_marray : A → ℕ → (ℕ → A) → List A
  run_func_on_marray start n elem = run_loop elem n 0 (blank start n)

  -- `undefined[i] = false`, the call, and one of the two stores.
  pub vector_ref_loop : (ℕ → ResultRef A) → ℕ → ℕ → List A → List (ℕ × Bool) → ResultRef (List A)
  vector_ref_loop elem zero i res undefined = record { res = res; undefined = undefined }
  vector_ref_loop elem (suc rounds) i res undefined =
      let element = elem i in
      vector_ref_loop elem rounds (i + 1)
        (if is_empty element.undefined then set_element res i element.res else res)
        (if is_empty element.undefined
          then assign_key i false undefined
          else assign_key i true (assign_key i false undefined))

  pub run_func_on_vector_result_ref : A → ℕ → (ℕ → ResultRef A) → ResultRef (List A)
  run_func_on_vector_result_ref start n elem = vector_ref_loop elem n 0 (blank start n) []

  pub marray_ref_loop : (ℕ → ResultRef A) → ℕ → ℕ → List A → List (ℕ × Bool) → ResultRef (List A)
  marray_ref_loop elem zero i res undefined = record { res = res; undefined = undefined }
  marray_ref_loop elem (suc rounds) i res undefined =
      let element = elem i in
      marray_ref_loop elem rounds (i + 1)
        (if is_empty element.undefined then set_element res i element.res else res)
        (if is_empty element.undefined then undefined else assign_key i true undefined)

  pub run_func_on_marray_result_ref : A → ℕ → (ℕ → ResultRef A) → ResultRef (List A)
  run_func_on_marray_result_ref start n elem = marray_ref_loop elem n 0 (blank start n) []

-- MAKE_VEC_AND_MARRAY_VERSIONS, with 2ARGS, 3ARGS and WITH_SCALAR.
module _ {ℓ} {A : Type ℓ} (start : A) (n : ℕ) where
  pub version_1 : (A → A) → List A → List A
  version_1 func a = run_func_on_vector start n (λ i. func (get_element start a i))

  pub version_2 : (A → A → A) → List A → List A → List A
  version_2 func a b =
      run_func_on_vector start n (λ i. func (get_element start a i) (get_element start b i))

  pub version_3 : (A → A → A → A) → List A → List A → List A → List A
  version_3 func a b c =
      run_func_on_vector start n
        (λ i. func (get_element start a i) (get_element start b i) (get_element start c i))

  pub version_with_scalar : (A → A → A) → List A → A → List A
  version_with_scalar func a b = run_func_on_vector start n (λ i. func (get_element start a i) b)

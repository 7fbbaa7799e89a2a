-- ===== src/Reference/Overloads.antt =====
-- The overloads of util/math_reference.h whose loops are written out: functions that store a second
-- result through a pointer, functions of operands of several types, and functions of vectors and
-- scalars. The scalar functions are parameters: most are the standard library's or oclmath's. Each
-- returns its value and what it stores.
pub mod Laws
pub mod References
use sycl_cts.Reference.ResultRef.{ResultRef}
use sycl_cts.Reference.Elementwise.{
  blank, get_element, run_func_on_marray_result_ref, run_loop, set_element,
}
use sycl_cts.Prelude.{List, pos, suc, zero, ℕ, ℤ, ◌+◌}

module _ {ℓ κ} {A : Type ℓ} {B : Type κ} where
  -- `res[i] = func(a[i], &value); resPtr[i] = value;`
  pub pointer_loop : (ℕ → A × B) → ℕ → ℕ → List A → List B → List A × List B
  pointer_loop elem zero i res resPtr = (res, resPtr)
  pointer_loop elem (suc rounds) i res resPtr =
      let element = elem i in
      pointer_loop elem rounds (i + 1) (set_element res i element.0)
        (set_element resPtr i element.1)

  pub run_with_pointer : A → B → ℕ → (ℕ → A × B) → List A × List B
  run_with_pointer start_a start_b n elem =
      pointer_loop elem n 0 (blank start_a n) (blank start_b n)

module _ {ℓ} {T : Type ℓ} (start : T) (n : ℕ) where
  pub fract_vec : (T → T × T) → List T → List T × List T
  fract_vec fract a = run_with_pointer start start n (λ i. fract (get_element start a i))

  pub fract_marray : (T → T × T) → List T → List T × List T
  fract_marray fract a = run_with_pointer start start n (λ i. fract (get_element start a i))

  pub frexp_vec : (T → T × ℤ) → List T → List T × List ℤ
  frexp_vec frexp a = run_with_pointer start (pos 0) n (λ i. frexp (get_element start a i))

  pub frexp_marray : (T → T × ℤ) → List T → List T × List ℤ
  frexp_marray frexp a = run_with_pointer start (pos 0) n (λ i. frexp (get_element start a i))

  pub lgamma_r_vec : (T → T × ℤ) → List T → List T × List ℤ
  lgamma_r_vec lgamma_r a = run_with_pointer start (pos 0) n (λ i. lgamma_r (get_element start a i))

  pub lgamma_r_marray : (T → T × ℤ) → List T → List T × List ℤ
  lgamma_r_marray lgamma_r a =
      run_with_pointer start (pos 0) n (λ i. lgamma_r (get_element start a i))

  pub modf_vec : (T → T × T) → List T → List T × List T
  modf_vec modf a = run_with_pointer start start n (λ i. modf (get_element start a i))

  pub modf_marray : (T → T × T) → List T → List T × List T
  modf_marray modf a = run_with_pointer start start n (λ i. modf (get_element start a i))

  pub sincos_vec : (T → T × T) → List T → List T × List T
  sincos_vec sincos a = run_with_pointer start start n (λ i. sincos (get_element start a i))

  pub sincos_marray : (T → T × T) → List T → List T × List T
  sincos_marray sincos a = run_with_pointer start start n (λ i. sincos (get_element start a i))

  pub remquo_vec : (T → T → T × ℤ) → List T → List T → List T × List ℤ
  remquo_vec remquo a b =
      run_with_pointer start (pos 0) n (λ i. remquo (get_element start a i) (get_element start b i))

  pub remquo_marray : (T → T → T × ℤ) → List T → List T → List T × List ℤ
  remquo_marray remquo a b =
      run_with_pointer start (pos 0) n (λ i. remquo (get_element start a i) (get_element start b i))

  pub ilogb_vec : (T → ℤ) → List T → List ℤ
  ilogb_vec ilogb a = run_loop (λ i. ilogb (get_element start a i)) n 0 (blank (pos 0) n)

  pub ilogb_marray : (T → ℤ) → List T → List ℤ
  ilogb_marray ilogb a = run_loop (λ i. ilogb (get_element start a i)) n 0 (blank (pos 0) n)

  pub ldexp_vec : (T → ℤ → T) → List T → List ℤ → List T
  ldexp_vec ldexp a b =
      run_loop (λ i. ldexp (get_element start a i) (get_element (pos 0) b i)) n 0 (blank start n)

  pub ldexp_marray : (T → ℤ → T) → List T → List ℤ → List T
  ldexp_marray ldexp a b =
      run_loop (λ i. ldexp (get_element start a i) (get_element (pos 0) b i)) n 0 (blank start n)

  pub pown_vec : (T → ℤ → T) → List T → List ℤ → List T
  pown_vec pown a b =
      run_loop (λ i. pown (get_element start a i) (get_element (pos 0) b i)) n 0 (blank start n)

  pub pown_marray : (T → ℤ → T) → List T → List ℤ → List T
  pown_marray pown a b =
      run_loop (λ i. pown (get_element start a i) (get_element (pos 0) b i)) n 0 (blank start n)

  pub rootn_vec : (T → ℤ → T) → List T → List ℤ → List T
  rootn_vec rootn a b =
      run_loop (λ i. rootn (get_element start a i) (get_element (pos 0) b i)) n 0 (blank start n)

  pub rootn_marray : (T → ℤ → T) → List T → List ℤ → List T
  rootn_marray rootn a b =
      run_loop (λ i. rootn (get_element start a i) (get_element (pos 0) b i)) n 0 (blank start n)

  pub ldexp_vec_scalar : (T → ℤ → T) → List T → ℤ → List T
  ldexp_vec_scalar ldexp a b = run_loop (λ i. ldexp (get_element start a i) b) n 0 (blank start n)

  pub ldexp_marray_scalar : (T → ℤ → T) → List T → ℤ → List T
  ldexp_marray_scalar ldexp a b =
      run_loop (λ i. ldexp (get_element start a i) b) n 0 (blank start n)

  pub step_scalar_vec : (T → T → T) → T → List T → List T
  step_scalar_vec step a b = run_loop (λ i. step a (get_element start b i)) n 0 (blank start n)

  pub step_scalar_marray : (T → T → T) → T → List T → List T
  step_scalar_marray step a b = run_loop (λ i. step a (get_element start b i)) n 0 (blank start n)

  -- The loop that run_func_on_marray_result_ref has too.
  unfoldable pub run_result_ref : (ℕ → ResultRef T) → ResultRef (List T)
  run_result_ref elem = run_func_on_marray_result_ref start n elem

  unfoldable pub clamp_vec_scalars : (T → T → T → ResultRef T) → List T → T → T → ResultRef (List T)
  clamp_vec_scalars clamp a b c = run_result_ref (λ i. clamp (get_element start a i) b c)

  unfoldable pub clamp_marray_scalars :
      (T → T → T → ResultRef T) → List T → T → T → ResultRef (List T)
  clamp_marray_scalars clamp a b c = run_result_ref (λ i. clamp (get_element start a i) b c)

  unfoldable pub mix_vec_scalar :
      (T → T → T → ResultRef T) → List T → List T → T → ResultRef (List T)
  mix_vec_scalar mix a b c =
      run_result_ref (λ i. mix (get_element start a i) (get_element start b i) c)

  unfoldable pub mix_marray_scalar :
      (T → T → T → ResultRef T) → List T → List T → T → ResultRef (List T)
  mix_marray_scalar mix a b c =
      run_result_ref (λ i. mix (get_element start a i) (get_element start b i) c)

  unfoldable pub smoothstep_scalars_vec :
      (T → T → T → ResultRef T) → T → T → List T → ResultRef (List T)
  smoothstep_scalars_vec smoothstep a b c =
      run_result_ref (λ i. smoothstep a b (get_element start c i))

  unfoldable pub smoothstep_scalars_marray :
      (T → T → T → ResultRef T) → T → T → List T → ResultRef (List T)
  smoothstep_scalars_marray smoothstep a b c =
      run_result_ref (λ i. smoothstep a b (get_element start c i))

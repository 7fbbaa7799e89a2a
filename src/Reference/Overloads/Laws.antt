-- ===== src/Reference/Overloads/Laws.antt =====
-- What the overloads with written out loops compute, element by element.
use sycl_cts.Reference.Elementwise.{blank, get_element, set_element}
use sycl_cts.Reference.Elementwise.Laws.{
  get_element-set_element, length-blank, length-set_element, run_loop_elements,
}
use sycl_cts.Reference.Overloads.{
  fract_marray, fract_vec, frexp_marray, frexp_vec, ilogb_marray, ilogb_vec, ldexp_marray,
  ldexp_marray_scalar, ldexp_vec, ldexp_vec_scalar, lgamma_r_marray, lgamma_r_vec, modf_marray,
  modf_vec, pointer_loop, pown_marray, pown_vec, remquo_marray, remquo_vec, rootn_marray, rootn_vec,
  run_with_pointer, sincos_marray, sincos_vec, step_scalar_marray, step_scalar_vec,
}
use sycl_cts.Prelude.{
  List, arith, if◌then◌else◌, leb, length, ltb, pos, suc, zero, ℕ, ℤ, ◌&&◌, ◌+◌, ◌<◌, ◌≡◌, ◌≤◌,
}

module _ {ℓ κ} {A : Type ℓ} {B : Type κ} (start_a : A) (start_b : B) (elem : ℕ → A × B) where
  pointer_loop_values :
      (rounds i j : ℕ) (res : List A) (resPtr : List B)
      → i + rounds ≤ length res
      → get_element start_a (pointer_loop elem rounds i res resPtr).0 j
        ≡ (if leb i j && ltb j (i + rounds) then (elem j).0 else get_element start_a res j)
  unfolding pointer_loop
  pointer_loop_values zero i j res resPtr h = ground arith
  pointer_loop_values (suc rounds) i j res resPtr h = ground (
    arith,
    pointer_loop_values rounds (i + 1) j (set_element res i (elem i).0)
        (set_element resPtr i (elem i).1),
    length-set_element res i (elem i).0,
    get_element-set_element start_a res i j (elem i).0,
  )

  pointer_loop_stored :
      (rounds i j : ℕ) (res : List A) (resPtr : List B)
      → i + rounds ≤ length resPtr
      → get_element start_b (pointer_loop elem rounds i res resPtr).1 j
        ≡ (if leb i j && ltb j (i + rounds) then (elem j).1 else get_element start_b resPtr j)
  unfolding pointer_loop
  pointer_loop_stored zero i j res resPtr h = ground arith
  pointer_loop_stored (suc rounds) i j res resPtr h = ground (
    arith,
    pointer_loop_stored rounds (i + 1) j (set_element res i (elem i).0)
        (set_element resPtr i (elem i).1),
    length-set_element resPtr i (elem i).1,
    get_element-set_element start_b resPtr i j (elem i).1,
  )

  run_with_pointer_elements :
      (n j : ℕ)
      → j < n
      → (get_element start_a (run_with_pointer start_a start_b n elem).0 j ≡ (elem j).0)
        × (get_element start_b (run_with_pointer start_a start_b n elem).1 j ≡ (elem j).1)
  unfolding run_with_pointer
  run_with_pointer_elements n j h = (
    ground (
      arith,
      pointer_loop_values n 0 j (blank start_a n) (blank start_b n),
      length-blank start_a n,
    ),
    ground (
      arith,
      pointer_loop_stored n 0 j (blank start_a n) (blank start_b n),
      length-blank start_b n,
    ),
  )

-- The values of a call at index `j` of a result and of what is stored through the pointer.
abbrev pub IsAt {ℓ κ} :
    {A : Type ℓ} {B : Type κ} → A → B → ℕ → A × B → List A × List B → Type (ℓ ⊔ κ)
IsAt start_a start_b j element lists =
    (get_element start_a lists.0 j ≡ element.0) × (get_element start_b lists.1 j ≡ element.1)

module _ {ℓ} {T : Type ℓ} (start : T) (n j : ℕ) where
  -- At every index, each overload for a vec or an marray that stores a second result, of fract,
  -- modf, sincos, frexp, lgamma_r and remquo, returns and stores what the scalar function returns and
  -- stores for the elements there, with the operands of remquo in their order.
  pub pointer_overloads_elements :
      (fract modf sincos : T → T × T) (frexp lgamma_r : T → T × ℤ) (remquo : T → T → T × ℤ)
      (a b : List T)
      → j < n
      → IsAt start start j (fract (get_element start a j)) (fract_vec start n fract a)
        × IsAt start start j (fract (get_element start a j)) (fract_marray start n fract a)
        × IsAt start start j (modf (get_element start a j)) (modf_vec start n modf a)
        × IsAt start start j (modf (get_element start a j)) (modf_marray start n modf a)
        × IsAt start start j (sincos (get_element start a j)) (sincos_vec start n sincos a)
        × IsAt start start j (sincos (get_element start a j)) (sincos_marray start n sincos a)
        × IsAt start (pos 0) j (frexp (get_element start a j)) (frexp_vec start n frexp a)
        × IsAt start (pos 0) j (frexp (get_element start a j)) (frexp_marray start n frexp a)
        × IsAt start (pos 0) j (lgamma_r (get_element start a j)) (lgamma_r_vec start n lgamma_r a)
        × IsAt start
            (pos 0)
            j
            (lgamma_r (get_element start a j))
            (lgamma_r_marray start n lgamma_r a)
        × IsAt start
            (pos 0)
            j
            (remquo (get_element start a j) (get_element start b j))
            (remquo_vec start n remquo a b)
        × IsAt start
            (pos 0)
            j
            (remquo (get_element start a j) (get_element start b j))
            (remquo_marray start n remquo a b)
  unfolding fract_vec fract_marray modf_vec modf_marray sincos_vec sincos_marray frexp_vec
      frexp_marray lgamma_r_vec lgamma_r_marray remquo_vec remquo_marray
  pointer_overloads_elements fract modf sincos frexp lgamma_r remquo a b h = (
    run_with_pointer_elements start start (λ i. fract (get_element start a i)) n j h,
    run_with_pointer_elements start start (λ i. fract (get_element start a i)) n j h,
    run_with_pointer_elements start start (λ i. modf (get_element start a i)) n j h,
    run_with_pointer_elements start start (λ i. modf (get_element start a i)) n j h,
    run_with_pointer_elements start start (λ i. sincos (get_element start a i)) n j h,
    run_with_pointer_elements start start (λ i. sincos (get_element start a i)) n j h,
    run_with_pointer_elements start (pos 0) (λ i. frexp (get_element start a i)) n j h,
    run_with_pointer_elements start (pos 0) (λ i. frexp (get_element start a i)) n j h,
    run_with_pointer_elements start (pos 0) (λ i. lgamma_r (get_element start a i)) n j h,
    run_with_pointer_elements start (pos 0) (λ i. lgamma_r (get_element start a i)) n j h,
    run_with_pointer_elements start (pos 0)
        (λ i. remquo (get_element start a i) (get_element start b i)) n j h,
    run_with_pointer_elements start (pos 0)
        (λ i. remquo (get_element start a i) (get_element start b i)) n j h,
  )

  -- At every index, each overload for a vec or an marray of ilogb, ldexp, pown, rootn, of ldexp with
  -- one exponent and of step with one edge has the value of the scalar function for the elements
  -- there and the scalar, with the operands in their order.
  pub mixed_overloads_elements :
      (ilogb : T → ℤ) (ldexp pown rootn : T → ℤ → T) (step : T → T → T) (a : List T) (k : List ℤ)
      (x : T) (e : ℤ)
      → j < n
      → (get_element (pos 0) (ilogb_vec start n ilogb a) j ≡ ilogb (get_element start a j))
        × (get_element (pos 0) (ilogb_marray start n ilogb a) j ≡ ilogb (get_element start a j))
        × (get_element start (ldexp_vec start n ldexp a k) j
            ≡ ldexp (get_element start a j) (get_element (pos 0) k j))
        × (get_element start (ldexp_marray start n ldexp a k) j
            ≡ ldexp (get_element start a j) (get_element (pos 0) k j))
        × (get_element start (pown_vec start n pown a k) j
            ≡ pown (get_element start a j) (get_element (pos 0) k j))
        × (get_element start (pown_marray start n pown a k) j
            ≡ pown (get_element start a j) (get_element (pos 0) k j))
        × (get_element start (rootn_vec start n rootn a k) j
            ≡ rootn (get_element start a j) (get_element (pos 0) k j))
        × (get_element start (rootn_marray start n rootn a k) j
            ≡ rootn (get_element start a j) (get_element (pos 0) k j))
        × (get_element start (ldexp_vec_scalar start n ldexp a e) j
            ≡ ldexp (get_element start a j) e)
        × (get_element start (ldexp_marray_scalar start n ldexp a e) j
            ≡ ldexp (get_element start a j) e)
        × (get_element start (step_scalar_vec start n step x a) j ≡ step x (get_element start a j))
        × (get_element start (step_scalar_marray start n step x a) j
            ≡ step x (get_element start a j))
  unfolding ilogb_vec ilogb_marray ldexp_vec ldexp_marray pown_vec pown_marray rootn_vec
      rootn_marray step_scalar_vec step_scalar_marray ldexp_vec_scalar ldexp_marray_scalar
  mixed_overloads_elements ilogb ldexp pown rootn step a k x e h = (
    run_loop_elements (pos 0) n j (λ i. ilogb (get_element start a i)) h,
    run_loop_elements (pos 0) n j (λ i. ilogb (get_element start a i)) h,
    run_loop_elements start n j (λ i. ldexp (get_element start a i) (get_element (pos 0) k i)) h,
    run_loop_elements start n j (λ i. ldexp (get_element start a i) (get_element (pos 0) k i)) h,
    run_loop_elements start n j (λ i. pown (get_element start a i) (get_element (pos 0) k i)) h,
    run_loop_elements start n j (λ i. pown (get_element start a i) (get_element (pos 0) k i)) h,
    run_loop_elements start n j (λ i. rootn (get_element start a i) (get_element (pos 0) k i)) h,
    run_loop_elements start n j (λ i. rootn (get_element start a i) (get_element (pos 0) k i)) h,
    run_loop_elements start n j (λ i. ldexp (get_element start a i) e) h,
    run_loop_elements start n j (λ i. ldexp (get_element start a i) e) h,
    run_loop_elements start n j (λ i. step x (get_element start a i)) h,
    run_loop_elements start n j (λ i. step x (get_element start a i)) h,
  )

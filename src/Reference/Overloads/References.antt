-- ===== src/Reference/Overloads/References.antt =====
-- The references of vectors and scalars that can be undefined.
use sycl_cts.Reference.ResultRef.{ResultRef, is_empty, lookup_key}
use sycl_cts.Reference.Overloads.{
  clamp_marray_scalars, clamp_vec_scalars, mix_marray_scalar, mix_vec_scalar, run_result_ref,
  smoothstep_scalars_marray, smoothstep_scalars_vec,
}
use sycl_cts.Reference.Elementwise.{get_element}
use sycl_cts.Reference.Elementwise.Laws.{marray_result_ref_elements}
use sycl_cts.Prelude.{List, if◌then◌else◌, none, some, true, ℕ, ◌<◌, ◌≡◌}

-- The reference of an element within that of a whole vector: its value where it is defined, and a
-- flag in the map where it is not.
abbrev pub IsReferenceAt {ℓ} : {T : Type ℓ} → T → ℕ → ResultRef T → ResultRef (List T) → Type ℓ
IsReferenceAt start j element whole =
    (lookup_key j whole.undefined ≡ (if is_empty element.undefined then none else some true))
    × (get_element start whole.res j ≡ (if is_empty element.undefined then element.res else start))

module _ {ℓ} {T : Type ℓ} (start : T) (n j : ℕ) where
  -- At every index, each overload of clamp, mix and smoothstep for a vec or an marray and scalars has
  -- the reference of the scalar function for the elements there and the scalars, with the operands in
  -- their order: its value where it is defined, and a flag where it is not.
  pub scalar_overloads_elements :
      (clamp mix smoothstep : T → T → T → ResultRef T) (a b : List T) (y z : T)
      → j < n
      → IsReferenceAt start j
          (clamp (get_element start a j) y z)
          (clamp_vec_scalars start n clamp a y z)
        × IsReferenceAt start j
            (clamp (get_element start a j) y z)
            (clamp_marray_scalars start n clamp a y z)
        × IsReferenceAt start j
            (mix (get_element start a j) (get_element start b j) z)
            (mix_vec_scalar start n mix a b z)
        × IsReferenceAt start j
            (mix (get_element start a j) (get_element start b j) z)
            (mix_marray_scalar start n mix a b z)
        × IsReferenceAt start j
            (smoothstep y z (get_element start a j))
            (smoothstep_scalars_vec start n smoothstep y z a)
        × IsReferenceAt start j
            (smoothstep y z (get_element start a j))
            (smoothstep_scalars_marray start n smoothstep y z a)
  unfolding run_result_ref clamp_vec_scalars clamp_marray_scalars mix_vec_scalar mix_marray_scalar
      smoothstep_scalars_vec smoothstep_scalars_marray
  scalar_overloads_elements clamp mix smoothstep a b y z h = (
    marray_result_ref_elements start n (λ i. clamp (get_element start a i) y z) j h,
    marray_result_ref_elements start n (λ i. clamp (get_element start a i) y z) j h,
    marray_result_ref_elements start n (λ i. mix (get_element start a i) (get_element start b i) z)
        j h,
    marray_result_ref_elements start n (λ i. mix (get_element start a i) (get_element start b i) z)
        j h,
    marray_result_ref_elements start n (λ i. smoothstep y z (get_element start a i)) j h,
    marray_result_ref_elements start n (λ i. smoothstep y z (get_element start a i)) j h,
  )

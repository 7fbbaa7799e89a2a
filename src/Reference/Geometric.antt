-- ===== src/Reference/Geometric.antt =====
-- Floating-point functions of util/math_reference.h and math_reference.cpp over the operations of a
-- type, which are parameters: maxmag and minmag, and the geometric functions.
pub mod Laws
use sycl_cts.Reference.Elementwise.{blank, get_element, run_loop}
use sycl_cts.Prelude.{Bool, List, [], if◌then◌else◌, suc, zero, ℕ, ◌+◌, ◌∷◌}

-- `lt` is `<`, and `a > b` is `b < a`.
pub record FloatingPoint {ℓ} (T : Type ℓ) : Type ℓ where
  pub zero_value : T
  pub one_value : T
  pub minus_one : T
  pub minus_zero : T
  pub two_value : T
  pub three_value : T
  pub isnan : T → Bool
  pub signbit : T → Bool
  pub lt : T → T → Bool
  pub le : T → T → Bool
  pub equal : T → T → Bool
  pub add : T → T → T
  pub sub : T → T → T
  pub mul : T → T → T
  pub div : T → T → T
  pub fabs : T → T
  pub fmax : T → T → T
  pub fmin : T → T → T
  pub sqrt : T → T

module _ {ℓ} {T : Type ℓ} (f : FloatingPoint T) where
  unfoldable pub maxmag : T → T → T
  maxmag a b =
      if f.lt (f.fabs b) (f.fabs a) then a else if f.lt (f.fabs a) (f.fabs b) then b else f.fmax a b

  unfoldable pub minmag : T → T → T
  minmag a b =
      if f.lt (f.fabs a) (f.fabs b) then a else if f.lt (f.fabs b) (f.fabs a) then b else f.fmin a b

  -- `res += a[i] * b[i]`, at index `i` with `rounds` of the loop left.
  unfoldable pub dot_loop : ℕ → ℕ → List T → List T → T → T
  dot_loop zero i a b res = res
  dot_loop (suc rounds) i a b res =
      dot_loop rounds (i + 1) a b
        (f.add res (f.mul (get_element f.zero_value a i) (get_element f.zero_value b i)))

  unfoldable pub dot : ℕ → List T → List T → T
  dot n a b = dot_loop n 0 a b f.zero_value

  -- `length` of a vector.
  unfoldable pub vector_length : ℕ → List T → T
  vector_length n p = f.sqrt (dot n p p)

  -- The scalar overload.
  unfoldable pub normalize : T → T
  normalize p = if f.lt p f.zero_value then f.minus_one else f.one_value

  unfoldable pub normalize_vec : ℕ → List T → List T
  normalize_vec n a =
      let len_a = vector_length n a in
      if f.equal len_a f.zero_value
      then blank f.zero_value n
      else run_loop (λ i. f.div (get_element f.zero_value a i) len_a) n 0 (blank f.zero_value n)

  -- The components that the loop of `cross_t` copies, of which there are four.
  unfoldable pub cross_components : List T → List T → List T
  cross_components av bv =
      let a = get_element f.zero_value av in
      let b = get_element f.zero_value bv in
      f.sub (f.mul (a 1) (b 2)) (f.mul (a 2) (b 1))
      ∷ f.sub (f.mul (a 2) (b 0)) (f.mul (a 0) (b 2))
      ∷ f.sub (f.mul (a 0) (b 1)) (f.mul (a 1) (b 0))
      ∷ f.zero_value
      ∷ []

  unfoldable pub cross_t : ℕ → List T → List T → List T
  cross_t n a b =
      run_loop (get_element f.zero_value (cross_components a b)) n 0 (blank f.zero_value n)

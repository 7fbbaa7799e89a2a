-- ===== src/Reference/Relational.antt =====
-- The relational functions of util/math_reference.h, and the dispatchers of util/math_helper.h that
-- apply them to scalars, vectors and marrays.
use sycl_cts.Reference.Elementwise.Laws.{run_func_on_vector_elements}
use sycl_cts.Prelude.{
  Bool, List, Option, arith, false, if◌then◌else◌, length, negsuc, none, not, pos, some, true, ℕ, ℤ,
  ◌&&◌, ◌<◌, ◌||◌, ◌≡◌,
}
use sycl_cts.Reference.Elementwise.{blank, get_element, run_func_on_vector, run_loop}

-- The operators and the classification of a floating-point type.
pub record FloatTests {ℓ} (T : Type ℓ) : Type ℓ where
  pub equal_to : T → T → Bool
  pub not_equal_to : T → T → Bool
  pub greater : T → T → Bool
  pub greater_equal : T → T → Bool
  pub less : T → T → Bool
  pub less_equal : T → T → Bool
  pub std_isfinite : T → Bool
  pub std_isinf : T → Bool
  pub std_isnan : T → Bool
  pub std_isnormal : T → Bool
  pub std_signbit : T → Bool

-- What IEEE 754 says of them: a NaN compares with nothing, and of two other values exactly one is
-- less, or they are equal.
pub record IsIeee {ℓ} {T : Type ℓ} (f : FloatTests T) : Type ℓ where
  pub equal_self : (x : T) → f.equal_to x x ≡ not (f.std_isnan x)
  pub less_ordered :
      (x y : T) → f.less x y ≡ true → (f.std_isnan x ≡ false) × (f.std_isnan y ≡ false)
  pub greater_less : (x y : T) → f.greater x y ≡ f.less y x
  pub less_not_equal : (x y : T) → f.less x y ≡ true → f.equal_to x y ≡ false
  pub equal_sym : (x y : T) → f.equal_to x y ≡ f.equal_to y x
  pub total :
      (x y : T)
      → f.std_isnan x ≡ false
      → f.std_isnan y ≡ false
      → f.equal_to x y ≡ false
      → f.less x y ≡ false
      → f.less y x ≡ true

pub data Operand {ℓ} (T : Type ℓ) : Type ℓ where
  scalar : T → Operand T
  vec : List T → Operand T
  marray : List T → Operand T

-- What a relational function returns for each of them.
pub data Relation : Type 0 where
  truth : Bool → Relation
  lanes : List ℤ → Relation
  flags : List Bool → Relation

-- `n` results of `fun`, -1 for true.
pub run_rel_func_on_vector : ℕ → (ℕ → Bool) → List ℤ
run_rel_func_on_vector n fun =
    run_loop (λ i. if fun i then negsuc 0 else pos 0) n 0 (blank (pos 0) n)

pub run_rel_func_on_marray : ℕ → (ℕ → Bool) → List Bool
run_rel_func_on_marray n fun = run_loop fun n 0 (blank false n)

module _ {ℓ} {T : Type ℓ} (start : T) where
  pub rel_func_dispatcher_1 : (T → Bool) → Operand T → Relation
  rel_func_dispatcher_1 fun (scalar a) = truth (fun a)
  rel_func_dispatcher_1 fun (vec a) =
      lanes (run_rel_func_on_vector (length a) (λ i. fun (get_element start a i)))
  rel_func_dispatcher_1 fun (marray a) =
      flags (run_rel_func_on_marray (length a) (λ i. fun (get_element start a i)))

  -- There is no overload for operands of different shapes.
  pub rel_func_dispatcher_2 : (T → T → Bool) → Operand T → Operand T → Option Relation
  rel_func_dispatcher_2 fun (scalar a) (scalar b) = some (truth (fun a b))
  rel_func_dispatcher_2 fun (vec a) (vec b) = some (
      lanes (
        run_rel_func_on_vector (length a)
          (λ i. fun (get_element start a i) (get_element start b i))))
  rel_func_dispatcher_2 fun (marray a) (marray b) = some (
      flags (
        run_rel_func_on_marray (length a)
          (λ i. fun (get_element start a i) (get_element start b i))))
  rel_func_dispatcher_2 fun a b = none

module _ {ℓ} {T : Type ℓ} (f : FloatTests T) where
  pub islessgreater_func : T → T → Bool
  islessgreater_func x y = f.less x y || f.greater x y

  pub isordered_func : T → T → Bool
  isordered_func x y = f.equal_to x x && f.equal_to y y

  pub isunordered_func : T → T → Bool
  isunordered_func x y = not (f.equal_to x x && f.equal_to y y)

-- The functions themselves: the operator or the classification, through the dispatcher.
module _ {ℓ} {T : Type ℓ} (f : FloatTests T) (start : T) where
  abbrev pub isequal : Operand T → Operand T → Option Relation
  isequal = rel_func_dispatcher_2 start f.equal_to

  abbrev pub isnotequal : Operand T → Operand T → Option Relation
  isnotequal = rel_func_dispatcher_2 start f.not_equal_to

  abbrev pub isgreater : Operand T → Operand T → Option Relation
  isgreater = rel_func_dispatcher_2 start f.greater

  abbrev pub isgreaterequal : Operand T → Operand T → Option Relation
  isgreaterequal = rel_func_dispatcher_2 start f.greater_equal

  abbrev pub isless : Operand T → Operand T → Option Relation
  isless = rel_func_dispatcher_2 start f.less

  abbrev pub islessequal : Operand T → Operand T → Option Relation
  islessequal = rel_func_dispatcher_2 start f.less_equal

  abbrev pub islessgreater : Operand T → Operand T → Option Relation
  islessgreater = rel_func_dispatcher_2 start (islessgreater_func f)

  abbrev pub isordered : Operand T → Operand T → Option Relation
  isordered = rel_func_dispatcher_2 start (isordered_func f)

  abbrev pub isunordered : Operand T → Operand T → Option Relation
  isunordered = rel_func_dispatcher_2 start (isunordered_func f)

  abbrev pub isfinite : Operand T → Relation
  isfinite = rel_func_dispatcher_1 start f.std_isfinite

  abbrev pub isinf : Operand T → Relation
  isinf = rel_func_dispatcher_1 start f.std_isinf

  abbrev pub isnan : Operand T → Relation
  isnan = rel_func_dispatcher_1 start f.std_isnan

  abbrev pub isnormal : Operand T → Relation
  isnormal = rel_func_dispatcher_1 start f.std_isnormal

  abbrev pub signbit : Operand T → Relation
  signbit = rel_func_dispatcher_1 start f.std_signbit

module _ {ℓ} {T : Type ℓ} (f : FloatTests T) (ieee : IsIeee f) where
  -- By IEEE 754, two values are unordered exactly if one of them is a NaN, ordered otherwise, and
  -- one is less or greater exactly if they are ordered and not equal.
  ordered_functions :
      (x y : T)
      → (isunordered_func f x y ≡ (f.std_isnan x || f.std_isnan y))
        × (isordered_func f x y ≡ not (isunordered_func f x y))
        × (islessgreater_func f x y ≡ (isordered_func f x y && not (f.equal_to x y)))
  unfolding isunordered_func isordered_func islessgreater_func
  ordered_functions x y = (
    ground (arith, ieee.equal_self x, ieee.equal_self y),
    ground arith,
    ground (
      arith,
      ieee.equal_self x,
      ieee.equal_self y,
      ieee.greater_less x y,
      ieee.equal_sym x y,
      ieee.less_ordered x y,
      ieee.less_ordered y x,
      ieee.less_not_equal x y,
      ieee.less_not_equal y x,
      ieee.total x y,
    ),
  )

-- A relational function on vectors answers -1 in the lanes where it holds and 0 in the others; on
-- marrays it answers the truth of each element.
rel_func_lanes :
    (n : ℕ) (fun : ℕ → Bool) (j : ℕ)
    → j < n
    → (get_element (pos 0) (run_rel_func_on_vector n fun) j ≡ (if fun j then negsuc 0 else pos 0))
      × (get_element false (run_rel_func_on_marray n fun) j ≡ fun j)
unfolding run_rel_func_on_vector run_rel_func_on_marray run_func_on_vector
rel_func_lanes n fun j h = (
  (run_func_on_vector_elements (pos 0) n (λ i. if fun i then negsuc 0 else pos 0)).1 j h,
  (run_func_on_vector_elements false n fun).1 j h,
)

-- ===== src/Semantics/ByReference.antt =====
-- tests/common/semantics_reference.h: the checks of a class with reference semantics. What the class
-- does is an argument. A failed CHECK is reported, by the text in front of it, and the next one runs.
pub mod Failing
pub mod Verdict
use sycl_cts.Devices.Text.{Text, text}
use sycl_cts.Prelude.{Bool, List, [], false, if◌then◌else◌, not, ℕ, ◌&&◌, ◌++◌, ◌+◌, ◌==◌, ◌∷◌}

-- The class: its traits and operations, with the storage that a test supplies. A construction by
-- moving gives the new object and what the old one has become.
pub record Class {ℓ} (A S : Type ℓ) : Type ℓ where
  pub is_copy_constructible : Bool
  pub is_copy_assignable : Bool
  pub is_destructible : Bool
  pub is_move_constructible : Bool
  pub is_move_assignable : Bool
  pub copy_construct : A → A
  pub copy_assign : A → A → A
  pub move_construct : A → A × A
  pub move_assign : A → A → A × A
  pub equal : A → A → Bool
  pub not_equal : A → A → Bool
  pub hash : A → ℕ
  pub store : A → S
  pub check : S → A → Bool

-- `vec[i++] = …` for each of the values.
pub write_from : ℕ → List Bool → (ℕ → Bool) → ℕ → Bool
write_from i [] vec = vec
write_from i (x ∷ values) vec = write_from (i + 1) values (λ k. if i == k then x else vec k)

-- `CHECK(vec[i++])` for each of the texts.
pub check_from : ℕ → List Text → (ℕ → Bool) → List Text
check_from i [] vec = []
check_from i (name ∷ names) vec =
    let rest = check_from (i + 1) names vec in if vec i then rest else name ∷ rest

module _ {ℓ} {A S : Type ℓ} (c : Class A S) where
  pub run_traits : List Bool
  run_traits =
      c.is_copy_constructible ∷ c.is_copy_assignable ∷ c.is_destructible ∷ c.is_move_constructible
      ∷ c.is_move_assignable ∷ []

  -- `T s1 = t` constructs, as `T s0(t)` does.
  pub run_copy : A → List Bool
  run_copy t =
      let storage = c.store t in
      c.check storage (c.copy_construct t) ∷ c.check storage (c.copy_construct t) ∷ []

  -- With what has become of `t`.
  pub run_move : A → List Bool × A
  run_move t =
      let storage = c.store t in
      let s0 = c.move_construct t in
      let s1 = c.move_construct s0.0 in (c.check storage s0.0 ∷ c.check storage s1.0 ∷ [], s0.1)

  pub both_ways : A → A → Bool
  both_ways t s = c.equal t s && c.equal s t

  pub run_equality : A → List Bool
  unfolding both_ways
  run_equality t =
      let s = c.copy_construct t in
      let u = c.copy_construct s in
      both_ways t s ∷ both_ways t s ∷ c.equal t t ∷ both_ways t u ∷ both_ways t u ∷ []

  pub hash_equality_helper : A → A → Bool
  hash_equality_helper t0 t1 = c.hash t0 == c.hash t1

  pub run_equality_hash : A → List Bool
  unfolding hash_equality_helper
  run_equality_hash t =
      let s = c.copy_construct t in
      let u = c.copy_construct s in
      hash_equality_helper t s
      ∷ hash_equality_helper t s
      ∷ hash_equality_helper t t
      ∷ hash_equality_helper t u
      ∷ hash_equality_helper t u
      ∷ []

  pub run_inequality : A → A → List Bool
  run_inequality t0 t1 = (c.not_equal t0 t1 && c.not_equal t1 t0) ∷ []

  pub hash_inequality_helper : A → A → Bool
  hash_inequality_helper t0 t1 = not (c.hash t0 == c.hash t1)

  pub run_inequality_hash : A → A → List Bool
  unfolding hash_inequality_helper
  run_inequality_hash t0 t1 = hash_inequality_helper t0 t1 ∷ []

abbrev pub traits_names : List Text
traits_names =
    text "is_copy_constructible_v"
    ∷ text "is_copy_assignable_v"
    ∷ text "is_destructible_v"
    ∷ text "is_move_constructible_v"
    ∷ text "is_move_assignable_v"
    ∷ []

-- `evaluate` of test_copy and of test_move.
abbrev pub copy_names : List Text
copy_names = text "constructible" ∷ text "assignable" ∷ []

-- `evaluate` of test_equality and of test_equality_hash.
abbrev pub equality_names : List Text
equality_names =
    text "symmetry: copy constructor"
    ∷ text "symmetry: copy assignment"
    ∷ text "reflexivity"
    ∷ text "transitivity: copy constructor"
    ∷ text "transitivity: copy assignment"
    ∷ []

-- `evaluate` of test_inequality and of test_inequality_hash.
abbrev pub inequality_names : List Text
inequality_names = text "symmetry" ∷ []

-- `std::vector<int> results(result_count, false)`
abbrev pub no_results : ℕ → Bool
no_results k = false

module _ {ℓ} {A S : Type ℓ} (c : Class A S) where
  pub check_host_impl : A → List Text
  unfolding write_from check_from run_traits run_equality run_equality_hash run_copy
  check_host_impl t =
      let results = write_from 15 (run_copy c t) (
        write_from 10 (run_equality_hash c t)
          (write_from 5 (run_equality c t) (write_from 0 (run_traits c) no_results))) in
      check_from 0 traits_names results
      ++ check_from 5 equality_names results
      ++ check_from 10 equality_names results
      ++ check_from 15 copy_names results

  pub check_host_impl_inequality : A → A → List Text
  unfolding write_from check_from run_inequality run_inequality_hash
  check_host_impl_inequality t0 t1 =
      let results =
        write_from 1 (run_inequality_hash c t0 t1)
          (write_from 0 (run_inequality c t0 t1) no_results) in
      check_from 0 inequality_names results ++ check_from 1 inequality_names results

  -- With what has become of `t`.
  pub check_host_impl_move : A → List Text × A
  unfolding write_from check_from run_move
  check_host_impl_move t =
      let moved = run_move c t in
      (check_from 0 copy_names (write_from 0 moved.0 no_results), moved.1)

  -- The three overloads: a const instance, a non-const one, and one beside an unequal instance.
  pub check_host_const : A → List Text
  unfolding check_host_impl
  check_host_const t = check_host_impl t

  pub check_host : A → List Text × A
  unfolding check_host_impl check_host_impl_move
  check_host t = let moved = check_host_impl_move t in (check_host_impl t ++ moved.0, moved.1)

  pub check_host_unequal : A → A → List Text × A
  unfolding check_host_impl check_host_impl_inequality check_host_impl_move
  check_host_unequal t0 t1 =
      let moved = check_host_impl_move t0 in
      (check_host_impl t0 ++ check_host_impl_inequality t0 t1 ++ moved.0, moved.1)

-- `warned`: a requirement that the device has not is named, and nothing is checked.
pub data Outcome {κ} (R : Type κ) : Type κ where
  warned : R → Outcome R
  checked : List Text → Outcome R

module _ {ℓ} {A S : Type ℓ} (c : Class A S) where
  kernel_report : A → List Text
  unfolding write_from check_from run_traits run_copy run_move
  kernel_report t =
      let results =
        write_from 7 (run_move c t).0
          (write_from 5 (run_copy c t) (write_from 0 (run_traits c) no_results)) in
      check_from 0 traits_names results
      ++ check_from 5 copy_names results
      ++ check_from 7 copy_names results

  -- `t` is what `init_func` returns.
  pub check_kernel {κ} : {R : Type κ} → (R → Bool) → List R → A → Outcome R
  unfolding kernel_report
  check_kernel has [] t = checked (kernel_report t)
  check_kernel has (req ∷ requirements) t =
      let rest = check_kernel has requirements t in if not (has req) then warned req else rest

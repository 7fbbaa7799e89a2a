-- ===== src/Harness/TypeCoverage.antt =====
-- tests/common/type_coverage.h: how a test's action is run for each type of its packs.
-- A run of an action is recorded as the types that it is instantiated with and the run-time
-- arguments that it gets, the names of types among them; a helper is the list of its runs.
pub mod Laws
use sycl_cts.Prelude.{Bool, List, [], if◌then◌else◌, map, ℕ, ◌++◌, ◌∷◌}

-- `T`, `sycl::vec<T, n>` and `sycl::marray<T, n>`, over the scalar types that a test names.
pub data CtsType {ℓ} (A : Type ℓ) : Type ℓ where
  scalar : A → CtsType A
  vec : A → ℕ → CtsType A
  marray : A → ℕ → CtsType A

pub data Pack {ℓ ℓ'} (A : Type ℓ) (S : Type ℓ') : Type (ℓ ⊔ ℓ') where
  named_type_pack : List (A × S) → Pack A S
  unnamed_type_pack : List A → Pack A S

-- One run: the types given to the action, and its arguments in order.
pub record Run {ℓ ℓ'} (A : Type ℓ) (S : Type ℓ') : Type (ℓ ⊔ ℓ') where
  pub types : List A
  pub args : List S

abbrev pub run {ℓ ℓ'} : {A : Type ℓ} {S : Type ℓ'} → List A → List S → Run A S
run given called = record { types = given; args = called }

unfoldable pub concat_map {ℓ ℓ'} : {A : Type ℓ} {B : Type ℓ'} → (A → List B) → List A → List B
concat_map f [] = []
concat_map f (x ∷ xs) = f x ++ concat_map f xs

module _ {ℓ ℓ'} {A : Type ℓ} {S : Type ℓ'} where
  -- `for_all_combinations<Action, types...>(packs..., args...)`: each level takes the first pack
  -- off, adds one of its types to the types, and the type's name to the end of the arguments.
  pub for_all_combinations : List (Pack A S) → List A → List S → List (Run A S)
  unfolding concat_map
  for_all_combinations [] types args = run types args ∷ []
  for_all_combinations (named_type_pack named ∷ packs) types args =
      concat_map
        (λ (type : A × S). for_all_combinations packs (types ++ type.0 ∷ []) (args ++ type.1 ∷ []))
        named
  for_all_combinations (unnamed_type_pack unnamed ∷ packs) types args =
      concat_map (λ (type : A). for_all_combinations packs (types ++ type ∷ []) args) unnamed

  -- `for_all_types<action, actionArgs...>(typeList, args...)`: the type stands before the action's
  -- own types, its name after the arguments.
  pub for_all_types : List A → Pack A S → List S → List (Run A S)
  for_all_types action_args (named_type_pack named) args =
      map (λ (type : A × S). run (type.0 ∷ action_args) (args ++ type.1 ∷ [])) named
  for_all_types action_args (unnamed_type_pack unnamed) args =
      map (λ (type : A). run (type ∷ action_args) args) unnamed

  -- The overloads whose name is `for_all_types_and_...`: `each` is the helper for one type.
  pub for_all_types_and :
      (A → List S → List (Run (CtsType A) S)) → List (A × S) → List S → List (Run (CtsType A) S)
  unfolding concat_map
  for_all_types_and each named args =
      concat_map (λ (type : A × S). each type.0 (args ++ type.1 ∷ [])) named

module _ {ℓ ℓ'} {A : Type ℓ} {S : Type ℓ'} (action_args : List (CtsType A)) where
  pub for_type_and_vectors : A → List S → List (Run (CtsType A) S)
  unfolding for_all_types
  for_type_and_vectors t args =
      for_all_types action_args
        (unnamed_type_pack
          (scalar t ∷ vec t 1 ∷ vec t 2 ∷ vec t 3 ∷ vec t 4 ∷ vec t 8 ∷ vec t 16 ∷ []))
        args

  -- `is_bool` answers `std::is_same<T, bool>`: there are no vectors of bool.
  pub for_type_vectors_marray : (A → Bool) → A → List S → List (Run (CtsType A) S)
  unfolding for_all_types
  for_type_vectors_marray is_bool t args =
      if is_bool t
      then for_all_types action_args
          (unnamed_type_pack (scalar t ∷ marray t 2 ∷ marray t 5 ∷ marray t 10 ∷ [])) args
      else for_all_types action_args
          (unnamed_type_pack (
            scalar t
            ∷ vec t 1
            ∷ vec t 2
            ∷ vec t 3
            ∷ vec t 4
            ∷ vec t 8
            ∷ vec t 16
            ∷ marray t 2
            ∷ marray t 5
            ∷ marray t 10
            ∷ []))
          args

  -- `full` is SYCL_CTS_ENABLE_FULL_CONFORMANCE.
  pub for_type_vectors_marray_reduced : Bool → (A → Bool) → A → List S → List (Run (CtsType A) S)
  unfolding for_all_types
  for_type_vectors_marray_reduced full is_bool t args =
      if is_bool t
      then for_all_types action_args
          (unnamed_type_pack (scalar t ∷ marray t 2 ∷ marray t 5 ∷ marray t 10 ∷ [])) args
      else for_all_types action_args
          (unnamed_type_pack (
            if full
            then scalar t
              ∷ vec t 1
              ∷ vec t 2
              ∷ vec t 3
              ∷ vec t 4
              ∷ vec t 8
              ∷ vec t 16
              ∷ marray t 2
              ∷ marray t 5
              ∷ marray t 10
              ∷ []
            else scalar t ∷ vec t 3 ∷ vec t 4 ∷ marray t 10 ∷ []))
          args

  pub for_type_and_marrays : A → List S → List (Run (CtsType A) S)
  unfolding for_all_types
  for_type_and_marrays t args =
      for_all_types action_args
        (unnamed_type_pack (scalar t ∷ marray t 2 ∷ marray t 5 ∷ marray t 10 ∷ [])) args

  pub for_marrays_of_type : A → List S → List (Run (CtsType A) S)
  unfolding for_all_types
  for_marrays_of_type t args =
      for_all_types action_args (unnamed_type_pack (marray t 2 ∷ marray t 5 ∷ marray t 10 ∷ []))
        args

  pub for_all_types_and_vectors : List (A × S) → List S → List (Run (CtsType A) S)
  unfolding for_all_types_and for_type_and_vectors
  for_all_types_and_vectors = for_all_types_and for_type_and_vectors

  pub for_all_types_vectors_marray : (A → Bool) → List (A × S) → List S → List (Run (CtsType A) S)
  unfolding for_all_types_and for_type_vectors_marray
  for_all_types_vectors_marray is_bool = for_all_types_and (for_type_vectors_marray is_bool)

  pub for_all_types_and_marrays : List (A × S) → List S → List (Run (CtsType A) S)
  unfolding for_all_types_and for_type_and_marrays
  for_all_types_and_marrays = for_all_types_and for_type_and_marrays

  pub for_marrays_of_all_types : List (A × S) → List S → List (Run (CtsType A) S)
  unfolding for_all_types_and for_marrays_of_type
  for_marrays_of_all_types = for_all_types_and for_marrays_of_type

-- ===== src/Harness/TypeCoverage/Laws.antt =====
-- What is proved of the helpers of tests/common/type_coverage.h: that no combination is missed.
use sycl_cts.Prelude.{
  Bool, Bool-cases, List, [], ap, ap₂, arith, false, inl, inr, length, length-append, map, refl,
  sym, true, ℕ, ◌*◌, ◌++◌, ◌∙◌, ◌∷◌, ◌≡◌,
}
use sycl_cts.Harness.TypeCoverage.{
  CtsType, Pack, Run, concat_map, for_all_combinations, for_all_types, for_type_and_marrays,
  for_type_vectors_marray, for_type_vectors_marray_reduced, named_type_pack, run, unnamed_type_pack,
}

module _ {ℓ ℓ'} {A : Type ℓ} {B : Type ℓ'} where
  concat_map-length :
      (f : A → List B) (n : ℕ) (xs : List A)
      → ((x : A) → length (f x) ≡ n)
      → length (concat_map f xs) ≡ length xs * n
  unfolding concat_map
  concat_map-length f n [] h = omega arith
  concat_map-length f n (x ∷ xs) h =
      rw (length-append (f x) (concat_map f xs), h x, concat_map-length f n xs h) (omega arith)

module _ {ℓ} {B : Type ℓ} where
  append-nil : (xs : List B) → xs ++ [] ≡ xs
  append-nil [] = refl
  append-nil (x ∷ xs) = ap (◌∷◌ x) (append-nil xs)

module _ {ℓ κ} {B : Type ℓ} {C : Type κ} where
  map-append : (f : B → C) (xs ys : List B) → map f (xs ++ ys) ≡ map f xs ++ map f ys
  map-append f [] ys = refl
  map-append f (x ∷ xs) ys = ap (◌∷◌ (f x)) (map-append f xs ys)

module _ {ℓ ℓ' κ} {A : Type ℓ} {B : Type ℓ'} {C : Type κ} where
  map-map :
      (g : B → C) (f : A → B) (h : A → C) (xs : List A)
      → ((x : A) → h x ≡ g (f x))
      → map h xs ≡ map g (map f xs)
  map-map g f h [] e = refl
  map-map g f h (x ∷ xs) e = ap₂ ◌∷◌ (e x) (map-map g f h xs e)

module _ {ℓ ℓ' κ κ'} {D : Type ℓ} {A : Type ℓ'} {B : Type κ} {C : Type κ'} where
  map-concat_map :
      (g : B → C) (f : A → List B) (entry_of : D → A) (h : D → List C) (xs : List D)
      → ((x : D) → h x ≡ map g (f (entry_of x)))
      → concat_map h xs ≡ map g (concat_map f (map entry_of xs))
  unfolding concat_map
  map-concat_map g f entry_of h [] e = refl
  map-concat_map g f entry_of h (x ∷ xs) e =
      rw
        (
          e x,
          map-concat_map g f entry_of h xs e,
          map-append g (f (entry_of x)) (concat_map f (map entry_of xs)),
        )
        refl

module _ {ℓ ℓ'} {A : Type ℓ} {S : Type ℓ'} where
  -- The number of types of a pack, and the number of the combinations of some packs.
  abbrev pub pack_size : Pack A S → ℕ
  pack_size (named_type_pack named) = length named
  pack_size (unnamed_type_pack unnamed) = length unnamed

  abbrev pub num_combinations : List (Pack A S) → ℕ
  num_combinations [] = 1
  num_combinations (pack ∷ packs) = pack_size pack * num_combinations packs

  -- A pack's entries: each type with the names, one or none, that go with it.
  abbrev pub entries : Pack A S → List (A × List S)
  entries (named_type_pack named) = map (λ (type : A × S). (type.0, type.1 ∷ [])) named
  entries (unnamed_type_pack unnamed) = map (λ (type : A). (type, [])) unnamed

  -- The combinations: an entry of each pack, the last pack's changing first.
  unfoldable pub choices : List (Pack A S) → List (List (A × List S))
  unfolding concat_map
  choices [] = [] ∷ []
  choices (pack ∷ packs) =
      concat_map (λ (entry : A × List S). map (◌∷◌ entry) (choices packs)) (entries pack)

  -- The run for a combination: the types in the order of the packs, and the names likewise.
  abbrev pub run_of : List A → List S → List (A × List S) → Run A S
  run_of given called [] = run given called
  run_of given called (entry ∷ choice) = run_of (given ++ entry.0 ∷ []) (called ++ entry.1) choice

  -- The action runs as many times as the sizes of the packs multiply to.
  pub length-for_all_combinations :
      (packs : List (Pack A S)) (given : List A) (called : List S)
      → length (for_all_combinations packs given called) ≡ num_combinations packs
  unfolding for_all_combinations
  length-for_all_combinations [] given called = refl
  length-for_all_combinations (named_type_pack named ∷ packs) given called =
      concat_map-length _ (num_combinations packs) named
        (λ type. length-for_all_combinations packs (given ++ type.0 ∷ []) (called ++ type.1 ∷ []))
  length-for_all_combinations (unnamed_type_pack unnamed ∷ packs) given called =
      concat_map-length _ (num_combinations packs) unnamed
        (λ type. length-for_all_combinations packs (given ++ type ∷ []) called)

  -- The action runs once for each combination of the packs' types, in their lexicographic order:
  -- its types are the packs' in order, and the names follow the given arguments in that order.
  pub for_all_combinations-choices :
      (packs : List (Pack A S)) (given : List A) (called : List S)
      → for_all_combinations packs given called ≡ map (run_of given called) (choices packs)
  unfolding for_all_combinations choices
  for_all_combinations-choices [] given called = refl
  for_all_combinations-choices (named_type_pack named ∷ packs) given called =
      map-concat_map _ _ _ _ named (λ type.
        for_all_combinations-choices packs (given ++ type.0 ∷ []) (called ++ type.1 ∷ [])
        ∙ map-map (run_of given called) (◌∷◌ (type.0, type.1 ∷ [])) _ (choices packs) (λ c. refl))
  for_all_combinations-choices (unnamed_type_pack unnamed ∷ packs) given called =
      map-concat_map _ _ _ _ unnamed (λ type.
        for_all_combinations-choices packs (given ++ type ∷ []) called
        ∙ map-map (run_of given called) (◌∷◌ (type, [])) _ (choices packs) (λ c.
          ap (λ (names : List S). run_of (given ++ type ∷ []) names c) (sym (append-nil called))))

-- The runs of one list among those of another, in the same order.
pub data Sublist {ℓ} {A : Type ℓ} : List A → List A → Type ℓ where
  done : Sublist [] []
  keep : (x : A) {xs ys : List A} → Sublist xs ys → Sublist (x ∷ xs) (x ∷ ys)
  skip : (x : A) {xs ys : List A} → Sublist xs ys → Sublist xs (x ∷ ys)

all_kept {ℓ} : {A : Type ℓ} (xs : List A) → Sublist xs xs
all_kept [] = done
all_kept (x ∷ xs) = keep x (all_kept xs)

module _ {ℓ ℓ'} {A : Type ℓ} {S : Type ℓ'} (action_args : List (CtsType A)) where
  -- Whether full conformance is on or not, the runs for the reduced types of one scalar type are
  -- among the runs for all of its types, in the same order.
  for_type_vectors_marray_reduced-Sublist :
      (full : Bool) (is_bool : A → Bool) (t : A) (args : List S)
      → Sublist
          (for_type_vectors_marray_reduced action_args full is_bool t args)
          (for_type_vectors_marray action_args is_bool t args)
  unfolding for_type_vectors_marray for_type_vectors_marray_reduced for_all_types
  for_type_vectors_marray_reduced-Sublist true is_bool t args = all_kept _
  for_type_vectors_marray_reduced-Sublist false is_bool t args = elim (Bool-cases (is_bool t)) [
    | inl e ↦ rw e (all_kept _)
    | inr e ↦ rw e (
        keep _
          (skip _ (skip _ (keep _ (keep _ (skip _ (skip _ (skip _ (skip _ (keep _ done))))))))))
  ]

  -- No vector of a type that `is_bool` answers for is among the types that the action runs for.
  pub for_type_vectors_marray-bool :
      (is_bool : A → Bool) (t : A) (args : List S)
      → is_bool t ≡ true
      → for_type_vectors_marray action_args is_bool t args ≡ for_type_and_marrays action_args t args
  unfolding for_type_vectors_marray for_type_and_marrays for_all_types
  for_type_vectors_marray-bool is_bool t args e = rw e refl

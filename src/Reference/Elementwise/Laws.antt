-- ===== src/Reference/Elementwise/Laws.antt =====
-- What the loops over the elements compute, element by element.
use sycl_cts.Reference.ResultRef.{
  ResultRef, assign_key, is_empty, lookup_key, lookup_key-assign_key,
}
use sycl_cts.Prelude.{
  Bool, Bool-cases, List, [], ap, arith, false, if◌then◌else◌, inl, inr, leb, length, ltb, none,
  not, refl, some, suc, true, zero, ℕ, ◌&&◌, ◌+◌, ◌<◌, ◌==◌, ◌∙◌, ◌∷◌, ◌≡◌, ◌≤◌,
}
use sycl_cts.Reference.Elementwise.{
  blank, get_element, marray_ref_loop, run_func_on_marray_result_ref, run_func_on_vector,
  run_func_on_vector_result_ref, run_loop, set_element, vector_ref_loop, version_1, version_2,
  version_3, version_with_scalar,
}

module _ {ℓ} {A : Type ℓ} where
  pub length-set_element : (xs : List A) (i : ℕ) (v : A) → length (set_element xs i v) ≡ length xs
  unfolding set_element
  length-set_element [] i v = refl
  length-set_element (x ∷ xs) zero v = refl
  length-set_element (x ∷ xs) (suc i) v = ap suc (length-set_element xs i v)

  pub get_element-set_element :
      (start : A) (xs : List A) (i j : ℕ) (v : A)
      → i < length xs
      → get_element start (set_element xs i v) j ≡ (if j == i then v else get_element start xs j)
  unfolding set_element get_element
  get_element-set_element start [] i j v h = absurd (omega arith)
  get_element-set_element start (x ∷ xs) zero zero v h = refl
  get_element-set_element start (x ∷ xs) zero (suc j) v h = ground arith
  get_element-set_element start (x ∷ xs) (suc i) zero v h = ground arith
  get_element-set_element start (x ∷ xs) (suc i) (suc j) v h =
      ground (arith, get_element-set_element start xs i j v)

  pub length-blank : (start : A) (n : ℕ) → length (blank start n) ≡ n
  unfolding blank
  length-blank start zero = refl
  length-blank start (suc n) = ap suc (length-blank start n)

  pub get_element-blank : (start : A) (n i : ℕ) → get_element start (blank start n) i ≡ start
  unfolding blank get_element
  get_element-blank start zero i = refl
  get_element-blank start (suc n) zero = refl
  get_element-blank start (suc n) (suc i) = get_element-blank start n i

  length-run_loop :
      (elem : ℕ → A) (rounds i : ℕ) (res : List A)
      → length (run_loop elem rounds i res) ≡ length res
  unfolding run_loop
  length-run_loop elem zero i res = refl
  length-run_loop elem (suc rounds) i res =
      length-run_loop elem rounds (i + 1) (set_element res i (elem i))
      ∙ length-set_element res i (elem i)

  get_element-run_loop :
      (start : A) (elem : ℕ → A) (rounds i j : ℕ) (res : List A)
      → i + rounds ≤ length res
      → get_element start (run_loop elem rounds i res) j
        ≡ (if leb i j && ltb j (i + rounds) then elem j else get_element start res j)
  unfolding run_loop
  get_element-run_loop start elem zero i j res h = ground arith
  get_element-run_loop start elem (suc rounds) i j res h = ground (
    arith,
    get_element-run_loop start elem rounds (i + 1) j (set_element res i (elem i)),
    get_element-set_element start res i j (elem i),
    length-set_element res i (elem i),
  )

  pub run_loop_elements :
      (start : A) (n j : ℕ) (elem : ℕ → A)
      → j < n
      → get_element start (run_loop elem n 0 (blank start n)) j ≡ elem j
  run_loop_elements start n j elem h =
      ground (arith, get_element-run_loop start elem n 0 j (blank start n), length-blank start n)

  -- The vector that `run_func_on_vector` returns has `n` elements, and each is the value of the
  -- function there.
  pub run_func_on_vector_elements :
      (start : A) (n : ℕ) (elem : ℕ → A)
      → (length (run_func_on_vector start n elem) ≡ n)
        × ((j : ℕ) → j < n → get_element start (run_func_on_vector start n elem) j ≡ elem j)
  unfolding run_func_on_vector
  run_func_on_vector_elements start n elem = (
    length-run_loop elem n 0 (blank start n) ∙ length-blank start n,
    λ j h. run_loop_elements start n j elem h,
  )

  -- The store of one round into `res`, and the entries of one round in the map.
  abbrev stored : ResultRef A → ℕ → List A → List A
  stored element i res = if is_empty element.undefined then set_element res i element.res else res

  length-stored :
      (element : ResultRef A) (i : ℕ) (res : List A) → length (stored element i res) ≡ length res
  length-stored element i res = elim (Bool-cases (is_empty element.undefined)) [
    | inl e ↦ rw e (length-set_element res i element.res)
    | inr e ↦ rw e
  ]

  get_element-stored :
      (start : A) (element : ResultRef A) (i j : ℕ) (res : List A)
      → i < length res
      → get_element start (stored element i res) j
        ≡ (if j == i && is_empty element.undefined then element.res else get_element start res j)
  get_element-stored start element i j res h =
      ground (arith, get_element-set_element start res i j element.res)

  abbrev vector_entries : ResultRef A → ℕ → List (ℕ × Bool) → List (ℕ × Bool)
  vector_entries element i undefined =
      if is_empty element.undefined
      then assign_key i false undefined
      else assign_key i true (assign_key i false undefined)

  lookup_key-vector_entries :
      (element : ResultRef A) (i j : ℕ) (undefined : List (ℕ × Bool))
      → lookup_key j (vector_entries element i undefined)
        ≡ (if j == i then some (not (is_empty element.undefined)) else lookup_key j undefined)
  lookup_key-vector_entries element i j undefined = ground (
    arith,
    lookup_key-assign_key i j false undefined,
    lookup_key-assign_key i j true (assign_key i false undefined),
  )

  vector_ref_loop-lookup_key :
      (elem : ℕ → ResultRef A) (rounds i j : ℕ) (res : List A) (undefined : List (ℕ × Bool))
      → lookup_key j (vector_ref_loop elem rounds i res undefined).undefined ≡ (
          if leb i j && ltb j (i + rounds)
          then some (not (is_empty (elem j).undefined))
          else lookup_key j undefined)
  unfolding vector_ref_loop
  vector_ref_loop-lookup_key elem zero i j res undefined = ground arith
  vector_ref_loop-lookup_key elem (suc rounds) i j res undefined = ground (
    arith,
    vector_ref_loop-lookup_key elem rounds (i + 1) j (stored (elem i) i res)
        (vector_entries (elem i) i undefined),
    lookup_key-vector_entries (elem i) i j undefined,
  )

  -- Every index of a vector is a key of its map, also where the element is defined.
  pub vector_result_ref-lookup_key :
      (start : A) (n : ℕ) (elem : ℕ → ResultRef A) (j : ℕ)
      → j < n
      → lookup_key j (run_func_on_vector_result_ref start n elem).undefined
        ≡ some (not (is_empty (elem j).undefined))
  unfolding run_func_on_vector_result_ref lookup_key
  vector_result_ref-lookup_key start n elem j h =
      ground (arith, vector_ref_loop-lookup_key elem n 0 j (blank start n) [])

  marray_ref_loop-lookup_key :
      (elem : ℕ → ResultRef A) (rounds i j : ℕ) (res : List A) (undefined : List (ℕ × Bool))
      → lookup_key j (marray_ref_loop elem rounds i res undefined).undefined ≡ (
          if leb i j && ltb j (i + rounds) && not (is_empty (elem j).undefined)
          then some true
          else lookup_key j undefined)
  unfolding marray_ref_loop
  marray_ref_loop-lookup_key elem zero i j res undefined = ground arith
  marray_ref_loop-lookup_key elem (suc rounds) i j res undefined = ground (
    arith,
    marray_ref_loop-lookup_key elem rounds (i + 1) j (stored (elem i) i res)
        (if is_empty (elem i).undefined then undefined else assign_key i true undefined),
    lookup_key-assign_key i j true undefined,
  )

  marray_ref_loop-get_element :
      (start : A) (elem : ℕ → ResultRef A) (rounds i j : ℕ) (res : List A)
      (undefined : List (ℕ × Bool))
      → i + rounds ≤ length res
      → get_element start (marray_ref_loop elem rounds i res undefined).res j ≡ (
          if leb i j && ltb j (i + rounds) && is_empty (elem j).undefined
          then (elem j).res
          else get_element start res j)
  unfolding marray_ref_loop
  marray_ref_loop-get_element start elem zero i j res undefined h = ground arith
  marray_ref_loop-get_element start elem (suc rounds) i j res undefined h = ground (
    arith,
    marray_ref_loop-get_element start elem rounds (i + 1) j (stored (elem i) i res)
        (if is_empty (elem i).undefined then undefined else assign_key i true undefined),
    length-stored (elem i) i res,
    get_element-stored start (elem i) i j res,
  )

  -- An index of an `marray` is a key of its map exactly where the element is undefined, and the
  -- result holds the value of every other element.
  pub marray_result_ref_elements :
      (start : A) (n : ℕ) (elem : ℕ → ResultRef A) (j : ℕ)
      → j < n
      → (lookup_key j (run_func_on_marray_result_ref start n elem).undefined
          ≡ (if is_empty (elem j).undefined then none else some true))
        × (get_element start (run_func_on_marray_result_ref start n elem).res j
            ≡ (if is_empty (elem j).undefined then (elem j).res else start))
  unfolding run_func_on_marray_result_ref lookup_key
  marray_result_ref_elements start n elem j h = (
    ground (arith, marray_ref_loop-lookup_key elem n 0 j (blank start n) []),
    ground (
      arith,
      marray_ref_loop-get_element start elem n 0 j (blank start n) [],
      length-blank start n,
      get_element-blank start n j,
    ),
  )

-- Each version that the macros make of a scalar function has `n` elements, and its element `j` is
-- the scalar function's value at the operands' elements `j`.
versions_elements {ℓ} :
    {A : Type ℓ} (start : A) (n j : ℕ) (f : A → A) (g : A → A → A) (h : A → A → A → A)
    (a b c : List A) (s : A)
    → j < n
    → (get_element start (version_1 start n f a) j ≡ f (get_element start a j))
      × (get_element start (version_2 start n g a b) j
          ≡ g (get_element start a j) (get_element start b j))
      × (get_element start (version_3 start n h a b c) j
          ≡ h (get_element start a j) (get_element start b j) (get_element start c j))
      × (get_element start (version_with_scalar start n g a s) j ≡ g (get_element start a j) s)
unfolding version_1 version_2 version_3 version_with_scalar
versions_elements start n j f g h a b c s p = (
  (run_func_on_vector_elements start n (λ i. f (get_element start a i))).1 j p,
  (run_func_on_vector_elements start n (λ i. g (get_element start a i) (get_element start b i))).1 j
      p,
  (run_func_on_vector_elements start n
        (λ i. h (get_element start a i) (get_element start b i) (get_element start c i))).1
      j p,
  (run_func_on_vector_elements start n (λ i. g (get_element start a i) s)).1 j p,
)

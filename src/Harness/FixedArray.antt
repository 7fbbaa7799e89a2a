-- ===== src/Harness/FixedArray.antt =====
-- `sycl_cts::util::array` of util/array.h. A pointer into the array is its index.
use sycl_cts.Prelude.{
  List, Option, [], ap, arith, false, get_elem?, if◌then◌else◌, length, length-append, none, refl,
  some, suc, zero, ℕ, ◌++◌, ◌+◌, ◌-◌, ◌<◌, ◌==◌, ◌∙◌, ◌∷◌, ◌≡◌,
}

-- `values[N]`
pub record FixedArray {ℓ} (A : Type ℓ) : Type ℓ where
  pub values : List A

module _ {ℓ} {A : Type ℓ} where
  pub size : FixedArray A → ℕ
  size a = length a.values

  -- `values[pos]`; out of range is `none`.
  unfoldable pub at : FixedArray A → ℕ → Option A
  at a i = get_elem? a.values i

  -- `&front()` and `&back()`.
  pub begin : FixedArray A → ℕ
  begin a = 0

  pub end_of : FixedArray A → ℕ
  unfolding size
  end_of a = size a - 1

  -- The elements from one pointer to another, `rounds` of them at most: what a ranged `for` visits.
  pub visit : FixedArray A → ℕ → ℕ → ℕ → List A
  visit a zero i stop = []
  visit a (suc rounds) i stop =
      let rest = visit a rounds (i + 1) stop in
      if i == stop then [] else elim (get_elem? a.values i) [ none ↦ rest | some x ↦ x ∷ rest ]

  pub for_each : FixedArray A → List A
  for_each a = visit a (size a) (begin a) (end_of a)

  visit-between :
      (a : FixedArray A) (xs : List A) (rounds i : ℕ)
      → length xs < rounds
      → ((j : ℕ) → j < length xs → get_elem? a.values (i + j) ≡ get_elem? xs j)
      → visit a rounds i (i + length xs) ≡ xs
  unfolding visit
  visit-between a xs zero i h same = absurd (omega arith)
  visit-between a [] (suc rounds) i h same = ground arith
  visit-between a (x ∷ xs) (suc rounds) i h same =
      rw (not_there, here)
        (ap (◌∷◌ x) (
          ap (visit a rounds (i + 1)) (omega arith)
          ∙ visit-between a xs rounds (i + 1) (omega arith)
              λ j q. ap (get_elem? a.values) (omega arith) ∙ same (suc j) (omega arith)))
    where
      not_there : (i == i + suc (length xs)) ≡ false
      not_there = ground arith

      here : get_elem? a.values i ≡ some x
      here = ap (get_elem? a.values) (omega arith) ∙ same 0 (omega arith)

  get_elem?-append :
      (xs ys : List A) (j : ℕ) → j < length xs → get_elem? (xs ++ ys) j ≡ get_elem? xs j
  get_elem?-append [] ys j h = absurd (omega arith)
  get_elem?-append (x ∷ xs) ys zero h = refl
  get_elem?-append (x ∷ xs) ys (suc j) h = get_elem?-append xs ys j (omega arith)

  -- A ranged `for` over an array visits every element but the last.
  for_each-init : (xs : List A) (x : A) → for_each (record { values = xs ++ x ∷ [] }) ≡ xs
  unfolding for_each begin end_of size
  for_each-init xs x =
      ap (visit a (length a.values) 0) stop
      ∙ visit-between a xs (length a.values) 0 (omega (arith, length-append xs (x ∷ [])))
          λ j q. ap (get_elem? a.values) (omega arith) ∙ get_elem?-append xs (x ∷ []) j q
    where
      a : FixedArray A
      a = record { values = xs ++ x ∷ [] }

      stop : length a.values - 1 ≡ 0 + length xs
      stop = omega (arith, length-append xs (x ∷ []))

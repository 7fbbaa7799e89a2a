-- ===== src/Reference/ResultRef.antt =====
-- `sycl_cts::resultRef` of util/math_helper.h: a reference value and the elements at which the
-- result is undefined. The `std::map<int, bool>` is an association list in the order of its keys.
use sycl_cts.Prelude.{
  Bool, List, Option, [], arith, false, if◌then◌else◌, ltb, none, refl, some, true, ℕ, ◌==◌, ◌∷◌,
  ◌≡◌,
}

pub record ResultRef {ℓ} (A : Type ℓ) : Type ℓ where
  pub res : A
  pub undefined : List (ℕ × Bool)

module _ {ℓ} {A : Type ℓ} where
  -- `resultRef(res)`
  abbrev pub defined : A → ResultRef A
  defined a = record { res = a; undefined = [] }

  -- `resultRef(res, flag)`
  abbrev pub flagged : A → Bool → ResultRef A
  flagged a flag = record { res = a; undefined = (0, flag) ∷ [] }

-- `undefined[i] = flag`
pub assign_key : ℕ → Bool → List (ℕ × Bool) → List (ℕ × Bool)
assign_key i flag [] = (i, flag) ∷ []
assign_key i flag ((j, b) ∷ m) =
    if i == j
    then (i, flag) ∷ m
    else if ltb i j
    then (i, flag) ∷ (j, b) ∷ m
    else (j, b) ∷ assign_key i flag m

unfoldable pub lookup_key : ℕ → List (ℕ × Bool) → Option Bool
lookup_key i [] = none
lookup_key i ((j, b) ∷ m) = if i == j then some b else lookup_key i m

-- `undefined.empty()`
abbrev pub is_empty {ℓ} : {A : Type ℓ} → List A → Bool
is_empty [] = true
is_empty (x ∷ xs) = false

pub lookup_key-assign_key :
    (i j : ℕ) (flag : Bool) (m : List (ℕ × Bool))
    → lookup_key j (assign_key i flag m) ≡ (if j == i then some flag else lookup_key j m)
unfolding lookup_key assign_key
lookup_key-assign_key i j flag [] = refl
lookup_key-assign_key i j flag ((k, b) ∷ m) = ground (arith, lookup_key-assign_key i j flag m)

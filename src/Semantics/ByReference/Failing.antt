-- ===== src/Semantics/ByReference/Failing.antt =====
-- The results that the checks of reference semantics write and read by an index.
use sycl_cts.Semantics.ByReference.{check_from, write_from}
use sycl_cts.Devices.Text.{Text}
use sycl_cts.Prelude.{
  Bool, List, [], ap, arith, false, if◌then◌else◌, length, refl, true, ℕ, ◌++◌, ◌+◌, ◌<◌, ◌==◌, ◌↔◌,
  ◌∙◌, ◌∷◌, ◌≡◌, ◌≤◌,
}

-- The texts of the checks that fail.
abbrev pub failing : List Text → List Bool → List Text
failing [] values = []
failing (name ∷ names) [] = []
failing (name ∷ names) (x ∷ values) =
    let rest = failing names values in if x then rest else name ∷ rest

abbrev pub AllTrue : List Bool → Type 0
AllTrue [] = Unit
AllTrue (x ∷ values) = (x ≡ true) × AllTrue values

pub failing-nil :
    (names : List Text) (values : List Bool)
    → length names ≡ length values
    → (failing names values ≡ []) ↔ AllTrue values
failing-nil [] [] e = (λ h. tt, λ h. refl)
failing-nil [] (x ∷ values) e = absurd (omega arith)
failing-nil (name ∷ names) [] e = absurd (omega arith)
failing-nil (name ∷ names) (true ∷ values) e =
    let ih = failing-nil names values (omega arith) in (λ h. (refl, ih.0 h), λ h. ih.1 h.1)
failing-nil (name ∷ names) (false ∷ values) e = (λ h. cc, λ h. cc)

pub failing-append :
    (names : List Text) (values : List Bool) (names' : List Text) (values' : List Bool)
    → length names ≡ length values
    → failing (names ++ names') (values ++ values') ≡ failing names values ++ failing names' values'
failing-append [] [] names' values' e = refl
failing-append [] (x ∷ values) names' values' e = absurd (omega arith)
failing-append (name ∷ names) [] names' values' e = absurd (omega arith)
failing-append (name ∷ names) (true ∷ values) names' values' e =
    failing-append names values names' values' (omega arith)
failing-append (name ∷ names) (false ∷ values) names' values' e =
    ap (◌∷◌ name) (failing-append names values names' values' (omega arith))

-- Writes behind an index leave it.
write_from-below :
    (j : ℕ) (values : List Bool) (vec : ℕ → Bool) (k : ℕ)
    → k < j
    → write_from j values vec k ≡ vec k
unfolding write_from
write_from-below j [] vec k h = refl
write_from-below j (x ∷ values) vec k h =
    let other : (j == k) ≡ false = ground arith in
    write_from-below (j + 1) values (λ k. if j == k then x else vec k) k (omega arith) ∙ rw other

pub check_from-below :
    (i j : ℕ) (names : List Text) (values : List Bool) (vec : ℕ → Bool)
    → i + length names ≤ j
    → check_from i names (write_from j values vec) ≡ check_from i names vec
unfolding check_from
check_from-below i j [] values vec h = refl
check_from-below i j (name ∷ names) values vec h = rw (
  write_from-below j values vec i (omega arith),
  check_from-below (i + 1) j names values vec (omega arith),
)

pub check_from-written :
    (i : ℕ) (names : List Text) (values : List Bool) (vec : ℕ → Bool)
    → length names ≡ length values
    → check_from i names (write_from i values vec) ≡ failing names values
unfolding check_from write_from
check_from-written i [] [] vec e = refl
check_from-written i [] (x ∷ values) vec e = absurd (omega arith)
check_from-written i (name ∷ names) [] vec e = absurd (omega arith)
check_from-written i (name ∷ names) (x ∷ values) vec e =
    let here : (i == i) ≡ true = ground arith in
    rw (
      write_from-below (i + 1) values (λ k. if i == k then x else vec k) i (omega arith),
      here,
      check_from-written (i + 1) names values (λ k. if i == k then x else vec k) (omega arith),
    )

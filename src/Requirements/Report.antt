-- ===== src/Requirements/Report.antt =====
-- What a verification reports, as a function of its checks.
pub mod Chain
use mathlib.Core.Bool.{false≢true}
use sycl_cts.Requirements.Checks.{Check, Verdict, add_unsatisfied, conclude, run_checks}
use sycl_cts.Requirements.ErrorCodes.{
  ErrorCodesContainer, add_error, add_errors, error_codes_container, filled, is_zero,
}
use sycl_cts.Prelude.{
  Bool, List, [], ap, ap₂, arith, false, if◌then◌else◌, length, negsuc, not, pos, refl, suc, true,
  zero, ℕ, ℤ, ◌&&◌, ◌++◌, ◌+◌, ◌-◌, ◌<◌, ◌==◌, ◌∙◌, ◌∷◌, ◌≡◌, ◌≤◌,
}
use sycl_cts.Requirements.ErrorCodes.Laws.{add_each, add_each-recorded, recorded, recorded_room}

-- The codes of the conditions that hold.
unfoldable pub failed : List Check → List ℤ
failed [] = []
failed ((condition, code) ∷ rest) = if condition then code ∷ failed rest else failed rest

unfoldable pub codes_of : List Check → List ℤ
codes_of [] = []
codes_of ((condition, code) ∷ rest) = code ∷ codes_of rest

unfoldable pub all_codes : (ℤ → Bool) → List ℤ → Bool
all_codes test [] = true
all_codes test (code ∷ rest) = test code && all_codes test rest

abbrev pub nonzero : ℤ → Bool
nonzero code = not (is_zero code)

-- Satisfied if no code is reported, and the codes.
abbrev pub reported : ℕ → List ℤ → Verdict
reported size codes = (length codes == 0, recorded size codes)

pub and_split : (a b : Bool) → (a && b) ≡ true → (a ≡ true) × (b ≡ true)
and_split true b h = (refl, h)
and_split false b h = absurd (false≢true h)

and_join : {a b : Bool} → a ≡ true → b ≡ true → (a && b) ≡ true
and_join h g = rw (h, g) refl

pub run_checks-failed :
    (checks : List Check) (c : ErrorCodesContainer)
    → run_checks checks c ≡ add_each (failed checks) c
unfolding run_checks failed add_each
run_checks-failed [] c = refl
run_checks-failed ((true, code) ∷ rest) c = run_checks-failed rest (add_error code c)
run_checks-failed ((false, code) ∷ rest) c = run_checks-failed rest c

pub add_each-append :
    (xs ys : List ℤ) (c : ErrorCodesContainer) → add_each ys (add_each xs c) ≡ add_each (xs ++ ys) c
unfolding add_each
add_each-append [] ys c = refl
add_each-append (x ∷ xs) ys c = add_each-append xs ys (add_error x c)

pub all_codes-append :
    (test : ℤ → Bool) (xs ys : List ℤ)
    → all_codes test xs ≡ true
    → all_codes test ys ≡ true
    → all_codes test (xs ++ ys) ≡ true
unfolding all_codes
all_codes-append test [] ys h g = g
all_codes-append test (x ∷ xs) ys h g =
    and_join (and_split (test x) (all_codes test xs) h).0
      (all_codes-append test xs ys (and_split (test x) (all_codes test xs) h).1 g)

pub all_codes-failed :
    (test : ℤ → Bool) (checks : List Check)
    → all_codes test (codes_of checks) ≡ true
    → all_codes test (failed checks) ≡ true
unfolding all_codes codes_of failed
all_codes-failed test [] h = refl
all_codes-failed test ((true, code) ∷ rest) h =
    and_join (and_split (test code) (all_codes test (codes_of rest)) h).0
      (all_codes-failed test rest (and_split (test code) (all_codes test (codes_of rest)) h).1)
all_codes-failed test ((false, code) ∷ rest) h =
    all_codes-failed test rest (and_split (test code) (all_codes test (codes_of rest)) h).1

pub weight : Bool → ℕ
weight true = 1
weight false = 0

-- How many conditions hold.
unfoldable pub count : List Check → ℕ
count [] = 0
count ((condition, code) ∷ rest) = weight condition + count rest

pub length-failed-count : (checks : List Check) → length (failed checks) ≡ count checks
unfolding failed count weight
length-failed-count [] = refl
length-failed-count ((true, code) ∷ rest) = omega (arith, length-failed-count rest)
length-failed-count ((false, code) ∷ rest) = omega (arith, length-failed-count rest)

pub weight_le : (b : Bool) → weight b ≤ 1
unfolding weight
weight_le true = omega arith
weight_le false = omega arith

pub weight-not : (b : Bool) → weight (not b) + weight b ≡ 1
unfolding weight
weight-not true = omega arith
weight-not false = omega arith

pub weight-and : (a b : Bool) → (weight (a && b) ≤ weight a) × (weight (a && b) ≤ weight b)
unfolding weight
weight-and true true = (omega arith, omega arith)
weight-and true false = (omega arith, omega arith)
weight-and false true = (omega arith, omega arith)
weight-and false false = (omega arith, omega arith)

pub length-failed : (checks : List Check) → length (failed checks) ≤ length checks
unfolding failed
length-failed [] = omega arith
length-failed ((true, code) ∷ rest) = omega (arith, length-failed rest)
length-failed ((false, code) ∷ rest) = omega (arith, length-failed rest)

add_errors-filled : (n : ℕ) (c : ErrorCodesContainer) → add_errors (filled n) c ≡ c
unfolding add_errors filled
add_errors-filled zero c = refl
add_errors-filled (suc n) c = add_errors-filled n c

add_errors-nonzero :
    (codes rest : List ℤ) (c : ErrorCodesContainer)
    → all_codes nonzero codes ≡ true
    → add_errors (codes ++ rest) c ≡ add_errors rest (add_each codes c)
unfolding add_errors all_codes add_each
add_errors-nonzero [] rest c h = refl
add_errors-nonzero (pos zero ∷ codes) rest c h = absurd (false≢true h)
add_errors-nonzero (pos (suc n) ∷ codes) rest c h =
    add_errors-nonzero codes rest (add_error (pos (suc n)) c) h
add_errors-nonzero (negsuc n ∷ codes) rest c h =
    add_errors-nonzero codes rest (add_error (negsuc n) c) h

not-not : (b : Bool) → not (not b) ≡ b
not-not true = refl
not-not false = refl

-- A verification's verdict.
pub conclude-reported :
    (size : ℕ) (codes : List ℤ)
    → 0 < size
    → conclude (add_each codes (error_codes_container size)) ≡ reported size codes
conclude-reported size codes positive =
    ap₂ (λ satisfied codes. (satisfied, codes))
      (ap not (add_each-recorded size codes positive).1 ∙ not-not (length codes == 0))
      (add_each-recorded size codes positive).0

suc_nonzero : (n : ℕ) → (suc n == 0) ≡ false
suc_nonzero n = ground arith

-- The report of a verification with room for all its codes brings each of them.
pub add_unsatisfied-reported :
    (size : ℕ) (codes : List ℤ) (c : ErrorCodesContainer)
    → length codes ≤ size
    → all_codes nonzero codes ≡ true
    → add_unsatisfied (reported size codes) c ≡ add_each codes c
unfolding add_unsatisfied add_each
add_unsatisfied-reported size [] c room h = refl
add_unsatisfied-reported size (code ∷ codes) c room h =
    ap (λ empty. add_unsatisfied (empty, recorded size (code ∷ codes)) c)
      (suc_nonzero (length codes))
    ∙ ap (λ array. add_errors array c) (recorded_room size (code ∷ codes) room)
    ∙ add_errors-nonzero (code ∷ codes) (filled (size - length (code ∷ codes))) c h
    ∙ add_errors-filled (size - length (code ∷ codes)) (add_each (code ∷ codes) c)

-- A verification that adds another's report before its own checks.
pub report_after :
    (size : ℕ) (before : List ℤ) (checks : List Check)
    → 0 < size
    → conclude (run_checks checks (add_each before (error_codes_container size)))
      ≡ reported size (before ++ failed checks)
report_after size before checks positive =
    ap conclude (
      run_checks-failed checks (add_each before (error_codes_container size))
      ∙ add_each-append before (failed checks) (error_codes_container size))
    ∙ conclude-reported size (before ++ failed checks) positive

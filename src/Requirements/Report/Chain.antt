-- ===== src/Requirements/Report/Chain.antt =====
-- How the report of one verification enters that of another.
use sycl_cts.Requirements.ErrorCodes.{ErrorCodesContainer, error_codes_container}
use sycl_cts.Requirements.ErrorCodes.Laws.{add_each}
use sycl_cts.Requirements.Checks.{Check, Verdict, add_unsatisfied, conclude, run_checks}
use sycl_cts.Requirements.Report.{
  add_unsatisfied-reported, all_codes, all_codes-append, all_codes-failed, codes_of, failed,
  length-failed, nonzero, report_after, reported,
}
use sycl_cts.Prelude.{
  List, [], ap, arith, length, length-append, true, ℕ, ℤ, ◌++◌, ◌+◌, ◌<◌, ◌∙◌, ◌≡◌, ◌≤◌,
}

-- A verdict that reports the codes, all of them, each an error.
abbrev pub Reports : ℕ → List ℤ → Verdict → Type 0
Reports size codes verdict =
    (verdict ≡ reported size codes) × ((length codes ≤ size) × (all_codes nonzero codes ≡ true))

pub conclude-Reports :
    (size : ℕ) (checks : List Check)
    → 0 < size
    → length checks ≤ size
    → all_codes nonzero (codes_of checks) ≡ true
    → Reports size (failed checks) (conclude (run_checks checks (error_codes_container size)))
unfolding add_each
conclude-Reports size checks positive room h = (
  report_after size [] checks positive,
  (omega (arith, room, length-failed checks), all_codes-failed nonzero checks h),
)

-- The codes of the reports that a verification adds before its own checks.
pub conclude_more-Reports :
    (size : ℕ) (before : List ℤ) (c : ErrorCodesContainer) (checks : List Check)
    → 0 < size
    → c ≡ add_each before (error_codes_container size)
    → length before + length (failed checks) ≤ size
    → all_codes nonzero before ≡ true
    → all_codes nonzero (codes_of checks) ≡ true
    → Reports size (before ++ failed checks) (conclude (run_checks checks c))
conclude_more-Reports size before c checks positive e room h g = (
  ap (λ c. conclude (run_checks checks c)) e ∙ report_after size before checks positive,
  (
    omega (arith, room, length-append before (failed checks)),
    all_codes-append nonzero before (failed checks) h (all_codes-failed nonzero checks g),
  ),
)

pub Reports-add_unsatisfied :
    (size : ℕ) (codes : List ℤ) (verdict : Verdict) (c : ErrorCodesContainer)
    → Reports size codes verdict
    → add_unsatisfied verdict c ≡ add_each codes c
Reports-add_unsatisfied size codes verdict c h =
    ap (λ v. add_unsatisfied v c) h.0 ∙ add_unsatisfied-reported size codes c h.1.0 h.1.1

-- A verification that adds one other report.
pub add_unsatisfied-Reports :
    (n size : ℕ) (codes : List ℤ) (verdict : Verdict) (checks : List Check)
    → Reports n codes verdict
    → 0 < size
    → n + length checks ≤ size
    → all_codes nonzero (codes_of checks) ≡ true
    → Reports size
        (codes ++ failed checks)
        (conclude (run_checks checks (add_unsatisfied verdict (error_codes_container size))))
add_unsatisfied-Reports n size codes verdict checks h positive room g =
    conclude_more-Reports size codes (add_unsatisfied verdict (error_codes_container size)) checks
      positive (Reports-add_unsatisfied n codes verdict (error_codes_container size) h)
      (omega (arith, room, h.1.0, length-failed checks)) h.1.1 g

-- ===== src/Harness/CtsRange.antt =====
-- The ranges and ids of tests/common/get_cts_object.h. The template argument is `Dims`; a division
-- by 0 and an assertion that fails are `none`.
use mathlib.Core.Option.{none-ne-some, some-injective}
use native.Mathlib.Nat.{
  div-div-eq-div-mul, mod-add-div, mod-eq_of_lt, mul-div_cancel_left, mul-mod_right,
}
use sycl_cts.Prelude.{
  ==_iff, Bool, Option, ap, ap₂, arith, false, if◌then◌else◌, none, not, refl, some, suc, sym, true,
  zero, ℕ, ◌%◌, ◌&&◌, ◌*◌, ◌/◌, ◌<◌, ◌==◌, ◌↔◌, ◌∙◌, ◌≡◌, ◌≤◌,
}
use sycl_cts.Machine.{modulus, w64}

pub data Dims : Type 0 where
  one two three : Dims

-- `sycl::range<dims>` and `sycl::id<dims>`, by their components.
abbrev pub Components : Dims → Type 0
Components one = ℕ
Components two = ℕ × ℕ
Components three = ℕ × ℕ × ℕ

-- `total % n == 0`
divides : ℕ → ℕ → Bool
divides zero total = false
divides (suc n) total = total % suc n == 0

-- `get_fixed_size` of a total size, the template argument, and the first components; the product
-- of these is one of size_t. The first argument says whether assertions are on: a build with NDEBUG
-- goes on to the division without the test.
pub get_fixed_size : Bool → (d : Dims) → ℕ → ℕ → ℕ → Option (Components d)
unfolding divides
get_fixed_size asserts one total r0 r1 = some total
get_fixed_size asserts two total r0 r1 =
    if (if asserts then divides r0 total else not (r0 == 0)) then some (r0, total / r0) else none
get_fixed_size asserts three total r0 r1 =
    if (if asserts then divides (r0 * r1 % modulus w64) total else not (r0 == 0) && not (r1 == 0))
    then some (r0, r1, total / r0 / r1)
    else none

-- A range of `total` items with the given components.
abbrev pub Splits : (d : Dims) → ℕ → ℕ → ℕ → Components d → Type 0
Splits one total r0 r1 range = range ≡ total
Splits two total r0 r1 range = (1 ≤ r0) × (range.0 ≡ r0) × (range.0 * range.1 ≡ total)
Splits three total r0 r1 range =
    (1 ≤ r0 * r1) × (range.0 ≡ r0) × (range.1 ≡ r1) × (range.0 * range.1 * range.2 ≡ total)

divides-true : (n total : ℕ) → divides n total ≡ true → (1 ≤ n) × (n * (total / n) ≡ total)
unfolding divides
divides-true zero total e = absurd (ground arith)
divides-true (suc n) total e =
    (omega arith, omega (arith, mod-add-div total (suc n), (==_iff (total % suc n) 0).0 e))

divides-quotient :
    (n total q : ℕ) → 1 ≤ n → n * q ≡ total → (divides n total ≡ true) × (total / n ≡ q)
unfolding divides
divides-quotient zero total q h e = absurd (omega arith)
divides-quotient (suc n) total q h e = (
  (==_iff (total % suc n) 0).1 (ap (λ (t : ℕ). t % suc n) (sym e) ∙ mul-mod_right (suc n) q),
  ap (λ (t : ℕ). t / suc n) (sym e) ∙ mul-div_cancel_left q h,
)

-- An assertion before a result.
asserted :
    {A : Type 0} (b : Bool) (x y : A)
    → ((if b then some x else none) ≡ some y) ↔ ((b ≡ true) × (x ≡ y))
asserted true x y = (λ e. (refl, some-injective x y e), λ h. ap some h.1)
asserted false x y = (λ e. absurd (none-ne-some y e), λ h. absurd (ground (arith, h.0)))

asserted_size_iff :
    (d : Dims) (total r0 r1 : ℕ) (range : Components d)
    → r0 * r1 < modulus w64
    → (get_fixed_size true d total r0 r1 ≡ some range) ↔ Splits d total r0 r1 range
unfolding get_fixed_size
asserted_size_iff one total r0 r1 range h =
    (λ e. sym (some-injective total range e), λ e. ap some (sym e))
asserted_size_iff two total r0 r1 (s0, s1) h =
    let iff = asserted (divides r0 total) (r0, total / r0) (s0, s1) in
    (
      λ e.
          let found = iff.0 e in
          let whole = divides-true r0 total found.0 in
          (
            whole.0,
            sym (ap (λ t. t.0) found.1),
            ap (λ (t : ℕ × ℕ). t.0 * t.1) (sym found.1) ∙ whole.1,
          ),
      λ (p, e, f).
          let parts = divides-quotient r0 total s1 p (ap (λ (t : ℕ). t * s1) (sym e) ∙ f) in
          iff.1 (parts.0, ap₂ (λ (a b : ℕ). (a, b)) (sym e) parts.1),
    )
asserted_size_iff three total r0 r1 (s0, s1, s2) h =
    let iff =
      asserted (divides (r0 * r1 % modulus w64) total) (r0, r1, total / r0 / r1) (s0, s1, s2) in
    let exact : r0 * r1 % modulus w64 ≡ r0 * r1 = mod-eq_of_lt h in
    (
      λ e.
          let found = iff.0 e in
          let whole =
            divides-true (r0 * r1) total (ap (λ (t : ℕ). divides t total) (sym exact) ∙ found.0) in
          (
            whole.0,
            sym (ap (λ t. t.0) found.1),
            sym (ap (λ t. t.1) found.1),
            ap (λ (t : ℕ × ℕ × ℕ). t.0 * t.1 * t.2) (sym found.1)
                ∙ ap (λ (t : ℕ). r0 * r1 * t) (div-div-eq-div-mul total r0 r1)
                ∙ whole.1,
          ),
      λ (p, e, f, g).
          let parts =
            divides-quotient (r0 * r1) total s2 p
              (ap₂ (λ (a b : ℕ). a * b * s2) (sym e) (sym f) ∙ g) in
          iff.1 (
            ap (λ (t : ℕ). divides t total) exact ∙ parts.0,
            ap₂ (λ (t : ℕ × ℕ) (c : ℕ). (t.0, t.1, c)) (ap₂ (λ (a b : ℕ). (a, b)) (sym e) (sym f))
                (div-div-eq-div-mul total r0 r1 ∙ parts.1),
          ),
    )

both_divide : (a b : ℕ) → 1 ≤ a * b → (not (a == 0) && not (b == 0)) ≡ true
both_divide zero b h = absurd (omega arith)
both_divide (suc a) zero h = absurd (omega (arith, h))
both_divide (suc a) (suc b) h = ground arith

-- A build without assertions returns the same range.
unasserted_size :
    (d : Dims) (total r0 r1 : ℕ) (range : Components d)
    → r0 * r1 < modulus w64
    → get_fixed_size true d total r0 r1 ≡ some range
    → get_fixed_size false d total r0 r1 ≡ some range
unfolding get_fixed_size
unasserted_size one total r0 r1 range h e = e
unasserted_size two total r0 r1 range h e =
    let found = (asserted (divides r0 total) (r0, total / r0) range).0 e in
    let positive = (divides-true r0 total found.0).0 in
    let guard : not (r0 == 0) ≡ true = ground (arith, positive) in rw guard (ap some found.1)
unasserted_size three total r0 r1 range h e =
    let found =
      (asserted (divides (r0 * r1 % modulus w64) total) (r0, r1, total / r0 / r1) range).0 e in
    let product =
      divides-true (r0 * r1) total
        (ap (λ (t : ℕ). divides t total) (sym (mod-eq_of_lt h)) ∙ found.0) in
    rw (both_divide r0 r1 product.0) (ap some found.1)

-- Where the product of the given components is one of size_t, `get_fixed_size` with assertions
-- returns exactly the range that has the components it uses, none of them 0, in the first places and
-- as many items as the template argument says, and without assertions it returns that range too.
pub get_fixed_size_iff :
    (d : Dims) (total r0 r1 : ℕ) (range : Components d)
    → r0 * r1 < modulus w64
    → ((get_fixed_size true d total r0 r1 ≡ some range) ↔ Splits d total r0 r1 range)
      × (Splits d total r0 r1 range → get_fixed_size false d total r0 r1 ≡ some range)
get_fixed_size_iff d total r0 r1 range h =
    let iff = asserted_size_iff d total r0 r1 range h in
    (iff, λ parts. unasserted_size d total r0 r1 range h (iff.1 parts))

-- ===== src/Reference/Count.antt =====
-- `clz`, `ctz` and `popcount` of util/math_reference.h. `x` is the operand converted to
-- `unsigned long long`, which is what the test `x & (1ull << i)` reads.
use sycl_cts.Prelude.{
  Bool, and-pow, ap, arith, bit, bit-lt, bit_and, if◌then◌else◌, inl, inr, not, suc, zero, ℕ, ◌%◌,
  ◌+◌, ◌-◌, ◌/◌, ◌<◌, ◌==◌, ◌^◌, ◌∙◌, ◌≡◌, ◌≤◌, ◌⊎◌,
}
use sycl_cts.Machine.{Width, num_bits}
use native.Mathlib.Nat.{pow-suc, add-zero}
use native.Mathlib.Numerals.{add-one}
use mathlib.Core.Path.{subst}

-- `x & (1ull << i)` as a condition.
pub is_bit_set : ℕ → ℕ → Bool
is_bit_set x i = not (bit_and x (2 ^ i) == 0)

-- The loop at index `i` with `rounds` of it left.
pub clz_loop : ℕ → ℕ → ℕ → ℕ → ℕ
clz_loop x zero i lz = lz
clz_loop x (suc rounds) i lz = clz_loop x rounds (i + 1) (if is_bit_set x i then 0 else lz + 1)

pub clz : Width → ℕ → ℕ
clz w x = clz_loop x (num_bits w) 0 0

pub ctz_loop : ℕ → ℕ → ℕ → ℕ → ℕ → ℕ
ctz_loop bit_size x zero i tz = tz
ctz_loop bit_size x (suc rounds) i tz =
    ctz_loop bit_size x rounds (i + 1) (if is_bit_set x (bit_size - i - 1) then 0 else tz + 1)

pub ctz : Width → ℕ → ℕ
ctz w x = ctz_loop (num_bits w) x (num_bits w) 0 0

pub popcount_loop : ℕ → ℕ → ℕ → ℕ → ℕ
popcount_loop x zero i lz = lz
popcount_loop x (suc rounds) i lz =
    popcount_loop x rounds (i + 1) (if is_bit_set x i then lz + 1 else lz)

pub popcount : Width → ℕ → ℕ
popcount w x = popcount_loop x (num_bits w) 0 0

one-le-pow2 : (i : ℕ) → 1 ≤ 2 ^ i
one-le-pow2 zero = omega arith
one-le-pow2 (suc i) = omega (arith, pow-suc 2 i, one-le-pow2 i)

digit-cases : (n : ℕ) → n < 2 → (n ≡ 0) ⊎ (n ≡ 1)
digit-cases n h = omega arith

is_bit_set-bit : (x i : ℕ) → is_bit_set x i ≡ (bit x i == 1)
unfolding is_bit_set
is_bit_set-bit x i = elim (digit-cases (bit x i) (bit-lt x i)) [
  | inl e ↦ rw (and-pow i x, e) (ground (arith, one-le-pow2 i))
  | inr e ↦ rw (and-pow i x, e) (ground (arith, one-le-pow2 i))
]

-- `r` leading zeros among the digits below `n`: they are 0, and the next one below is 1.
pub record IsLeading (x n r : ℕ) : Type 0 where
  pub within : r ≤ n
  pub zeros : (j : ℕ) → j < n → n ≤ j + r → bit x j ≡ 0
  pub one : r < n → bit x (n - r - 1) ≡ 1

-- `r` trailing zeros among the digits from `lo` on, below `n`.
pub record IsTrailing (x lo n r : ℕ) : Type 0 where
  pub within : lo + r ≤ n
  pub zeros : (j : ℕ) → lo ≤ j → j < lo + r → bit x j ≡ 0
  pub one : lo + r < n → bit x (lo + r) ≡ 1

same_bit : (x i j : ℕ) → j ≡ i → bit x j ≡ bit x i
same_bit x i j e = ap (bit x) e

clz_step :
    (x i lz : ℕ) → IsLeading x i lz → IsLeading x (i + 1) (if is_bit_set x i then 0 else lz + 1)
clz_step x i lz h = rw (is_bit_set-bit x i) (elim (digit-cases (bit x i) (bit-lt x i)) [
  | inl e ↦ rw e (record {
    within = omega (arith, h.within);
    zeros = λ j p q. ground (arith, h.zeros j, same_bit x i j, e);
    one = λ p. same_bit x (i - lz - 1) (i + 1 - (lz + 1) - 1) (omega arith) ∙ h.one (omega arith);
  })
  | inr e ↦ rw e (record {
    within = omega arith;
    zeros = λ j p q. absurd (omega arith);
    one = λ p. same_bit x i (i + 1 - 0 - 1) (omega arith) ∙ e;
  })
])

clz_loop-IsLeading :
    (x rounds i lz : ℕ) → IsLeading x i lz → IsLeading x (i + rounds) (clz_loop x rounds i lz)
unfolding clz_loop
clz_loop-IsLeading x zero i lz h = rw add-zero h
clz_loop-IsLeading x (suc rounds) i lz h =
    subst (λ n. IsLeading x n (clz_loop x (suc rounds) i lz)) (omega arith)
      (clz_loop-IsLeading x rounds (i + 1) (if is_bit_set x i then 0 else lz + 1)
        (clz_step x i lz h))

-- `clz` counts the leading zeros among the digits of the type.
clz-IsLeading : (w : Width) (x : ℕ) → IsLeading x (num_bits w) (clz w x)
unfolding clz
clz-IsLeading w x =
    subst (λ n. IsLeading x n (clz w x)) (omega arith)
      (clz_loop-IsLeading x (num_bits w) 0 0 (record {
        within = omega arith;
        zeros = λ j p q. absurd (omega arith);
        one = λ p. absurd (omega arith);
      }))

ctz_step :
    (n x i tz : ℕ)
    → i < n
    → IsTrailing x (n - i) n tz
    → IsTrailing x (n - (i + 1)) n (if is_bit_set x (n - i - 1) then 0 else tz + 1)
ctz_step n x i tz below h =
    rw (is_bit_set-bit x (n - i - 1))
      (elim (digit-cases (bit x (n - i - 1)) (bit-lt x (n - i - 1))) [
        | inl e ↦ rw e (record {
          within = omega (arith, h.within);
          zeros = λ j p q. ground (arith, h.zeros j, same_bit x (n - i - 1) j, e);
          one = λ p.
              same_bit x (n - i + tz) (n - (i + 1) + (tz + 1)) (omega arith) ∙ h.one (omega arith);
        })
        | inr e ↦ rw e (record {
          within = omega arith;
          zeros = λ j p q. absurd (omega arith);
          one = λ p. same_bit x (n - i - 1) (n - (i + 1) + 0) (omega arith) ∙ e;
        })
      ])

ctz_loop-IsTrailing :
    (n x rounds i tz : ℕ)
    → i + rounds ≡ n
    → IsTrailing x (n - i) n tz
    → IsTrailing x 0 n (ctz_loop n x rounds i tz)
unfolding ctz_loop
ctz_loop-IsTrailing n x zero i tz e h = subst (λ m. IsTrailing x m n tz) (omega arith) h
ctz_loop-IsTrailing n x (suc rounds) i tz e h =
    ctz_loop-IsTrailing n x rounds (i + 1) (if is_bit_set x (n - i - 1) then 0 else tz + 1)
      (omega arith) (ctz_step n x i tz (omega arith) h)

-- `ctz` counts the trailing zeros among the digits of the type.
ctz-IsTrailing : (w : Width) (x : ℕ) → IsTrailing x 0 (num_bits w) (ctz w x)
unfolding ctz
ctz-IsTrailing w x = ctz_loop-IsTrailing (num_bits w) x (num_bits w) 0 0 (omega arith) (record {
  within = omega arith;
  zeros = λ j p q. absurd (omega arith);
  one = λ p. absurd (omega arith);
})

-- The ones among the `n` lowest digits.
pub ones : ℕ → ℕ → ℕ
ones zero x = 0
ones (suc n) x = x % 2 + ones n (x / 2)

-- One digit more at the top.
ones-top : (n x : ℕ) → ones (n + 1) x ≡ ones n x + bit x n
unfolding ones
ones-top zero x = omega arith
ones-top (suc n) x = omega (arith, ones_suc, ones-top n (x / 2))
  where
    ones_suc : ones (suc n + 1) x ≡ x % 2 + ones (n + 1) (x / 2)
    ones_suc = rw (add-one, add-one)

popcount_loop-ones : (x rounds i : ℕ) → popcount_loop x rounds i (ones i x) ≡ ones (i + rounds) x
unfolding popcount_loop
popcount_loop-ones x zero i = rw add-zero
popcount_loop-ones x (suc rounds) i =
    ap (popcount_loop x rounds (i + 1)) counted
    ∙ popcount_loop-ones x rounds (i + 1)
    ∙ ap (λ n. ones n x) (omega arith)
  where
    counted : (if is_bit_set x i then ones i x + 1 else ones i x) ≡ ones (i + 1) x
    counted =
        rw (is_bit_set-bit x i) (ground (arith, ones-top i x, digit-cases (bit x i) (bit-lt x i)))

-- `popcount` counts the ones among the digits of the type.
pub popcount-ones : (w : Width) (x : ℕ) → popcount w x ≡ ones (num_bits w) x
unfolding popcount ones
popcount-ones w x = popcount_loop-ones x (num_bits w) 0 ∙ ap (λ n. ones n x) (omega arith)

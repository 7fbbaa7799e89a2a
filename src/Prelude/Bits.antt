-- ===== src/Prelude/Bits.antt =====
-- Bitwise operations digit by digit. `bit x i` is the binary digit of weight 2 ^ i.
use Prim.Native.Nat.{
  ℕ, zero, suc, ◌+◌, ◌-◌, ◌*◌, ◌/◌, ◌%◌, ◌^◌, ◌≤◌, ◌<◌, min, max, bit_and, bit_or, digits,
  bit_and-bitwise, bit_or-bitwise,
}
use mathlib.Core.Path.{◌≡◌, refl, ap, ◌∙◌}
use native.Mathlib.Nat.{
  add-mul-mod_self_left, mod-add-div, mod-eq_of_lt, mod-lt, one-le-pow, pow-suc,
}
use native.Mathlib.Omega.{arith}

-- The recursion behind the native operations does not depend on its fuel, once that suffices.
module _ (z : ℕ → ℕ) (f : ℕ → ℕ → ℕ) where
  digits_enough : (n m a b : ℕ) → a ≤ n → a ≤ m → digits z f n a b ≡ digits z f m a b
  digits_enough zero zero a b p q = refl
  digits_enough zero (suc m) zero b p q = refl
  digits_enough zero (suc m) (suc a) b p q = absurd (omega arith)
  digits_enough (suc n) zero zero b p q = refl
  digits_enough (suc n) zero (suc a) b p q = absurd (omega arith)
  digits_enough (suc n) (suc m) zero b p q = refl
  digits_enough (suc n) (suc m) (suc a) b p q =
      ap (λ (t : ℕ). t * 2 + f (suc a % 2) (b % 2))
        (digits_enough n m (suc a / 2) (b / 2) (omega arith) (omega arith))

pub and-halves : (a b : ℕ) → bit_and a b ≡ bit_and (a / 2) (b / 2) * 2 + min (a % 2) (b % 2)
and-halves zero b = omega (arith, bit_and-bitwise 0 b, bit_and-bitwise 0 (b / 2))
and-halves (suc a) b = omega (
  arith,
  bit_and-bitwise (suc a) b,
  bit_and-bitwise (suc a / 2) (b / 2),
  digits_enough (λ y. 0) min a (suc a / 2) (suc a / 2) (b / 2) (omega arith) (omega arith),
)

pub or-halves : (a b : ℕ) → bit_or a b ≡ bit_or (a / 2) (b / 2) * 2 + max (a % 2) (b % 2)
or-halves zero b = omega (arith, bit_or-bitwise 0 b, bit_or-bitwise 0 (b / 2))
or-halves (suc a) b = omega (
  arith,
  bit_or-bitwise (suc a) b,
  bit_or-bitwise (suc a / 2) (b / 2),
  digits_enough (λ y. y) max a (suc a / 2) (suc a / 2) (b / 2) (omega arith) (omega arith),
)

abbrev pub bit : ℕ → ℕ → ℕ
bit x zero = x % 2
bit x (suc i) = bit (x / 2) i

pub bit-bit_and : (i a b : ℕ) → bit (bit_and a b) i ≡ min (bit a i) (bit b i)
bit-bit_and zero a b = omega (arith, and-halves a b)
bit-bit_and (suc i) a b =
    ap (λ t. bit t i) (omega (arith, and-halves a b)) ∙ bit-bit_and i (a / 2) (b / 2)

pub bit-bit_or : (i a b : ℕ) → bit (bit_or a b) i ≡ max (bit a i) (bit b i)
bit-bit_or zero a b = omega (arith, or-halves a b)
bit-bit_or (suc i) a b =
    ap (λ t. bit t i) (omega (arith, or-halves a b)) ∙ bit-bit_or i (a / 2) (b / 2)

pub bit-lt : (x i : ℕ) → bit x i < 2
bit-lt x zero = omega arith
bit-lt x (suc i) = bit-lt (x / 2) i

and_zero_fuel : (n a : ℕ) → a ≤ n → bit_and a 0 ≡ 0
and_zero_fuel n zero h = refl
and_zero_fuel zero (suc a) h = absurd (omega arith)
and_zero_fuel (suc n) (suc a) h =
    omega (arith, and-halves (suc a) 0, and_zero_fuel n (suc a / 2) (omega arith))

pub and-zero : (a : ℕ) → bit_and a 0 ≡ 0
and-zero a = and_zero_fuel a a (omega arith)

pub and-one : (a : ℕ) → bit_and a 1 ≡ a % 2
and-one a = omega (arith, and-halves a 1, and-zero (a / 2))

-- A test of a single bit, `x & (1 << i)`.
pub and-pow : (i x : ℕ) → bit_and x (2 ^ i) ≡ bit x i * 2 ^ i
and-pow zero x = omega (arith, and-one x)
and-pow (suc i) x = omega (
  arith,
  and-halves x (2 ^ suc i),
  pow-suc 2 i,
  ap (bit_and (x / 2)) (half_pow i),
  and-pow i (x / 2),
  ap (λ (t : ℕ). bit (x / 2) i * t) (pow-suc 2 i),
)
  where
    half_pow : (k : ℕ) → 2 ^ suc k / 2 ≡ 2 ^ k
    half_pow k = omega (arith, pow-suc 2 k)

and-le_fuel : (n a b : ℕ) → a ≤ n → bit_and a b ≤ a
and-le_fuel n zero b h = omega (arith, bit_and-bitwise 0 b)
and-le_fuel zero (suc a) b h = absurd (omega arith)
and-le_fuel (suc n) (suc a) b h =
    omega (arith, and-halves (suc a) b, and-le_fuel n (suc a / 2) (b / 2) (omega arith))

pub and-le : (a b : ℕ) → bit_and a b ≤ a
and-le a b = and-le_fuel a a b (omega arith)

pub or_digits : (a b : ℕ) → a < 2 → b < 2 → bit_or a b ≡ max a b
or_digits zero zero ha hb = refl
or_digits zero (suc zero) ha hb = refl
or_digits zero (suc (suc b)) ha hb = absurd (omega arith)
or_digits (suc zero) zero ha hb = refl
or_digits (suc zero) (suc zero) ha hb = refl
or_digits (suc zero) (suc (suc b)) ha hb = absurd (omega arith)
or_digits (suc (suc a)) b ha hb = absurd (omega arith)

or-zero_fuel : (n a : ℕ) → a ≤ n → bit_or a 0 ≡ a
or-zero_fuel n zero h = refl
or-zero_fuel zero (suc a) h = absurd (omega arith)
or-zero_fuel (suc n) (suc a) h =
    omega (arith, or-halves (suc a) 0, or-zero_fuel n (suc a / 2) (omega arith))

pub or-zero : (a : ℕ) → bit_or a 0 ≡ a
or-zero a = or-zero_fuel a a (omega arith)

-- Fields that do not overlap: `|` is their sum.
pub or-disjoint : (k q r : ℕ) → r < 2 ^ k → bit_or (q * 2 ^ k) r ≡ q * 2 ^ k + r
or-disjoint zero q r h = ground (arith, or-zero q)
or-disjoint (suc k) q r h = omega (
  arith,
  or-halves (q * 2 ^ suc k) r,
  ap (λ (t : ℕ). q * t) (pow-suc 2 k),
  pow-suc 2 k,
  ap (λ t. bit_or t (r / 2)) halved,
  or-disjoint k q (r / 2) (omega (arith, pow-suc 2 k)),
)
  where
    halved : q * 2 ^ suc k / 2 ≡ q * 2 ^ k
    halved = omega (arith, ap (λ (t : ℕ). q * t) (pow-suc 2 k))

-- The rest by twice a number.
mod-double : (m x : ℕ) → 1 ≤ m → x % (m * 2) ≡ x / 2 % m * 2 + x % 2
mod-double m x p =
    ap (λ t. t % (m * 2)) (omega (arith, mod-add-div (x / 2) m))
    ∙ add-mul-mod_self_left (x / 2 % m * 2 + x % 2) (m * 2) (x / 2 / m)
    ∙ mod-eq_of_lt (omega (arith, mod-lt (x / 2) p))

-- A mask of the lower digits.
pub and-ones : (k x : ℕ) → bit_and x (2 ^ k - 1) ≡ x % 2 ^ k
and-ones zero x = omega (arith, and-zero x)
and-ones (suc k) x = omega (
  arith,
  and-halves x (2 ^ suc k - 1),
  pow-suc 2 k,
  one-le-pow k 2 (omega arith),
  ap (bit_and (x / 2)) halved,
  and-ones k (x / 2),
  ap (λ t. x % t) (pow-suc 2 k),
  mod-double (2 ^ k) x (one-le-pow k 2 (omega arith)),
)
  where
    halved : (2 ^ suc k - 1) / 2 ≡ 2 ^ k - 1
    halved = omega (arith, pow-suc 2 k, one-le-pow k 2 (omega arith))

below_one : (n : ℕ) → n < 1 → n ≡ 0
below_one n l = omega (arith, l)

pub or-lt : (k a b : ℕ) → a < 2 ^ k → b < 2 ^ k → bit_or a b < 2 ^ k
or-lt zero a b h h' = omega (arith, h, h', or-zero a, ap (bit_or a) (below_one b h'))
or-lt (suc k) a b h h' = omega (
  arith,
  pow-suc 2 k,
  or-halves a b,
  or-lt k (a / 2) (b / 2) (omega (arith, h, pow-suc 2 k)) (omega (arith, h', pow-suc 2 k)),
)

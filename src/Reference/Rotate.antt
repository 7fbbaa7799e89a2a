-- ===== src/Reference/Rotate.antt =====
-- `rotate` of util/math_reference.h, for unsigned types.
use native.Mathlib.Nat.{
  add-mul-mod_self_left, div-lt_iff_lt-mul, mod-add-div, mod-eq_of_lt, mod-lt, mul-le-mul,
  one-le-pow, pow-suc, pow-zero, add-zero,
}
use sycl_cts.Machine.{IsUnsigned, Width, modulus, num_bits, promote, w16, w32, w64, w8}
use sycl_cts.Prelude.{
  ==_iff, Bool-cases, ap, ap₂, arith, bit_or, if◌then◌else◌, inl, inr, or-disjoint, refl, suc, sym,
  zero, ℕ, ◌%◌, ◌*◌, ◌+◌, ◌-◌, ◌/◌, ◌<◌, ◌==◌, ◌^◌, ◌∙◌, ◌≡◌, ◌≤◌,
}

-- `v << turn` is taken in the promoted type.
pub rotate_unsigned : Width → ℕ → ℕ → ℕ
rotate_unsigned w v i =
    let turn = i % num_bits w in
    if turn == 0
    then v
    else bit_or (v * 2 ^ turn % modulus (promote w)) (v / 2 ^ (num_bits w - turn)) % modulus w

-- The rest of a multiple by a multiple.
low_part : (a m k : ℕ) → 1 ≤ m → 1 ≤ k → a * k % (m * k) ≡ a % m * k
low_part a m k p p' =
    ap (λ (t : ℕ). t % (m * k)) (split_product (a / m) (a % m) (mod-add-div a m))
    ∙ add-mul-mod_self_left (a % m * k) (m * k) (a / m)
    ∙ mod-eq_of_lt (below (a % m) (mod-lt a p))
  where
    split_product : (q r : ℕ) → r + m * q ≡ a → a * k ≡ r * k + m * k * q
    split_product q r e = omega (arith, ap (λ (t : ℕ). t * k) e)

    below : (r : ℕ) → r < m → r * k < m * k
    below r h = omega (arith, mul-le-mul {n₁ = suc r} {m₁ = k} {n₂ = m} {m₂ = k} h (omega arith))

pub rest_of_rest : (a m c : ℕ) → a % (m * c) % m ≡ a % m
rest_of_rest a m c =
    sym (add-mul-mod_self_left (a % (m * c)) m (c * (a / (m * c))))
    ∙ ap (λ (t : ℕ). t % m) (omega (arith, mod-add-div a (m * c)))

-- For `m * 2 ^ k` values, a shift to the left in a type of `c` times as many, and digits for the
-- places it leaves.
join_parts :
    (k m c x b : ℕ)
    → 1 ≤ m
    → 1 ≤ c
    → b < 2 ^ k
    → bit_or (x * 2 ^ k % (m * c * 2 ^ k)) b % (m * 2 ^ k) ≡ x % m * 2 ^ k + b
join_parts k m c x b p p' h =
    rw (low_part x (m * c) (2 ^ k) (mul-le-mul p p') (one-le-pow k 2 (omega arith)))
      (rw (or-disjoint k (x % (m * c)) b h) whole)
  where
    spread : (u r q : ℕ) → (r + m * u) * 2 ^ k + q ≡ r * 2 ^ k + q + m * 2 ^ k * u
    spread u r q = omega arith

    rejoined :
        (u r q : ℕ) → r < m → q < 2 ^ k → ((r + m * u) * 2 ^ k + q) % (m * 2 ^ k) ≡ r * 2 ^ k + q
    rejoined u r q f g =
        ap (λ (t : ℕ). t % (m * 2 ^ k)) (spread u r q)
        ∙ add-mul-mod_self_left (r * 2 ^ k + q) (m * 2 ^ k) u
        ∙ mod-eq_of_lt (
            omega (
              arith,
              g,
              mul-le-mul {n₁ = suc r} {m₁ = 2 ^ k} {n₂ = m} {m₂ = 2 ^ k} f (omega arith),
            ))

    whole : (x % (m * c) * 2 ^ k + b) % (m * 2 ^ k) ≡ x % m * 2 ^ k + b
    whole =
        ap (λ (t : ℕ). (t * 2 ^ k + b) % (m * 2 ^ k)) (sym (mod-add-div (x % (m * c)) m))
        ∙ rejoined (x % (m * c) / m) (x % (m * c) % m) b (mod-lt (x % (m * c)) p) h
        ∙ ap (λ (t : ℕ). t * 2 ^ k + b) (rest_of_rest x m c)

abbrev pub widening : Width → ℕ
widening w8 = 0x100_0000
widening w16 = 0x1_0000
widening w32 = 1
widening w64 = 1

two_parts : (a b : ℕ) → 2 ^ a * 2 ^ b ≡ 2 ^ (a + b)
two_parts a zero = rw add-zero (omega (arith, pow-zero 2))
two_parts a (suc b) =
    ap (◌*◌ (2 ^ a)) (pow-suc 2 b)
    ∙ regroup (two_parts a b)
    ∙ sym (pow-suc 2 (a + b))
    ∙ ap (◌^◌ 2) (omega arith)
  where
    regroup : 2 ^ a * 2 ^ b ≡ 2 ^ (a + b) → 2 ^ a * (2 ^ b * 2) ≡ 2 ^ (a + b) * 2
    regroup e = omega (arith, e)

pub modulus-parts : (w : Width) (k : ℕ) → k < num_bits w → modulus w ≡ 2 ^ (num_bits w - k) * 2 ^ k
modulus-parts w k h =
    pow_of_bits w ∙ ap (◌^◌ 2) (omega (arith, h)) ∙ sym (two_parts (num_bits w - k) k)
  where
    pow_of_bits : (w : Width) → modulus w ≡ 2 ^ num_bits w
    pow_of_bits w8 = refl
    pow_of_bits w16 = refl
    pow_of_bits w32 = refl
    pow_of_bits w64 = refl

pub promote-parts : (w : Width) → modulus (promote w) ≡ modulus w * widening w
promote-parts w8 = refl
promote-parts w16 = refl
promote-parts w32 = refl
promote-parts w64 = refl

pub no_turn :
    (w : Width) (v : ℕ)
    → IsUnsigned w v
    → v ≡ v % 2 ^ (num_bits w - 0) * 2 ^ 0 + v / 2 ^ (num_bits w - 0)
no_turn w8 v h = omega arith
no_turn w16 v h = omega arith
no_turn w32 v h = omega arith
no_turn w64 v h = omega arith

-- `T((x << k) | b)` for a type that is narrower than that of the shift.
pub or_shifted :
    (w : Width) (x b k : ℕ)
    → k < num_bits w
    → b < 2 ^ k
    → bit_or (x * 2 ^ k % modulus (promote w)) b % modulus w ≡ x % 2 ^ (num_bits w - k) * 2 ^ k + b
or_shifted w x b k h l =
    ap₂ (λ (m m' : ℕ). bit_or (x * 2 ^ k % m) b % m') wide (modulus-parts w k h)
    ∙ join_parts k (2 ^ (num_bits w - k)) (widening w) x b
        (one-le-pow (num_bits w - k) 2 (omega arith)) (wide_pos w) l
  where
    wide : modulus (promote w) ≡ 2 ^ (num_bits w - k) * widening w * 2 ^ k
    wide = promote-parts w ∙ ap (λ (t : ℕ). t * widening w) (modulus-parts w k h) ∙ omega arith

    wide_pos : (w : Width) → 1 ≤ widening w
    wide_pos w8 = omega arith
    wide_pos w16 = omega arith
    wide_pos w32 = omega arith
    wide_pos w64 = omega arith

pub top_digits :
    (w : Width) (v k : ℕ) → k < num_bits w → IsUnsigned w v → v / 2 ^ (num_bits w - k) < 2 ^ k
top_digits w v k h u =
    (div-lt_iff_lt-mul (one-le-pow (num_bits w - k) 2 (omega arith))).1
      (omega (arith, u, modulus-parts w k h))

pub some_bits : (w : Width) → 0 < num_bits w
some_bits w8 = omega arith
some_bits w16 = omega arith
some_bits w32 = omega arith
some_bits w64 = omega arith

-- `rotate` by `i` moves the lower `n - i % n` digits up by `i % n`, and the digits above them to
-- the bottom, for values of an unsigned type of `n` digits.
pub rotate_unsigned-swap :
    (w : Width) (v i : ℕ)
    → IsUnsigned w v
    → rotate_unsigned w v i
      ≡ v % 2 ^ (num_bits w - i % num_bits w) * 2 ^ (i % num_bits w)
        + v / 2 ^ (num_bits w - i % num_bits w)
unfolding rotate_unsigned
rotate_unsigned-swap w v i h = elim (Bool-cases (i % num_bits w == 0)) [
  | inl e ↦ let none_left = (==_iff (i % num_bits w) 0).0 e in rw (e, none_left) (no_turn w v h)
  | inr e ↦ rw e (turned (mod-lt i (some_bits w)))
]
  where
    turned :
        i % num_bits w < num_bits w
        → bit_or
              (v * 2 ^ (i % num_bits w) % modulus (promote w))
              (v / 2 ^ (num_bits w - i % num_bits w))
            % modulus w
          ≡ v % 2 ^ (num_bits w - i % num_bits w) * 2 ^ (i % num_bits w)
            + v / 2 ^ (num_bits w - i % num_bits w)
    turned l =
        or_shifted w v (v / 2 ^ (num_bits w - i % num_bits w)) (i % num_bits w) l
          (top_digits w v (i % num_bits w) l h)

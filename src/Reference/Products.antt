-- ===== src/Reference/Products.antt =====
-- Products of integers through their absolute values, for the functions that multiply.
use native.Mathlib.Nat.{mul-le-mul}
use sycl_cts.Prelude.{
  arith, magnitude, neg_part, negsuc, pos, pos_part, sub_ℕ, suc, ℕ, ℤ, ◌*ℤ◌, ◌*◌, ◌≡◌, ◌≤◌,
}

-- A product, from the absolute values of its factors.
pub pos-*ℤ-pos : (m n : ℕ) → pos m *ℤ pos n ≡ pos (m * n)
unfolding ◌*ℤ◌
pos-*ℤ-pos m n = ground arith

pub negsuc-*ℤ-negsuc : (m n : ℕ) → negsuc m *ℤ negsuc n ≡ pos (suc m * suc n)
unfolding ◌*ℤ◌
negsuc-*ℤ-negsuc m n = ground arith

pub pos-*ℤ-negsuc : (m n : ℕ) → pos m *ℤ negsuc n ≡ sub_ℕ 0 (m * suc n)
unfolding ◌*ℤ◌
pos-*ℤ-negsuc m n = ground arith

pub negsuc-*ℤ-pos : (m n : ℕ) → negsuc m *ℤ pos n ≡ sub_ℕ 0 (suc m * n)
unfolding ◌*ℤ◌
negsuc-*ℤ-pos m n = ground arith

-- An integer's absolute value bounds both of its parts.
pub *ℤ-bounds :
    (m n : ℕ) (a b : ℤ)
    → magnitude a ≤ m
    → magnitude b ≤ n
    → (pos_part (a *ℤ b) ≤ m * n) × (neg_part (a *ℤ b) ≤ m * n)
*ℤ-bounds m n (pos a) (pos b) p q = rw (pos-*ℤ-pos a b) (ground (arith, mul-le-mul p q))
*ℤ-bounds m n (pos a) (negsuc b) p q = rw (pos-*ℤ-negsuc a b) (ground (arith, mul-le-mul p q))
*ℤ-bounds m n (negsuc a) (pos b) p q = rw (negsuc-*ℤ-pos a b) (ground (arith, mul-le-mul p q))
*ℤ-bounds m n (negsuc a) (negsuc b) p q = rw (negsuc-*ℤ-negsuc a b) (ground (arith, mul-le-mul p q))

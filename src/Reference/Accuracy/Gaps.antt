-- ===== src/Reference/Accuracy/Gaps.antt =====
-- The distance of neighbours.
use native.Mathlib.Nat.{
  le-div_iff_mul-le, div-mul-le_self, div-eq_of_lt, mod-eq_of_lt, div-add-mod', pow-le-pow_right,
  pow-suc, mul-add-div_right, mul-add-mod_self_right, mod-lt,
}
use sycl_cts.Reference.Accuracy.{magnitude_at, magnitude_of}
use sycl_cts.Prelude.{
  Bool-cases, ap, arith, inl, inr, ltb, ltb→lt, refl, suc, zero, ℕ, ◌%◌, ◌*◌, ◌+◌, ◌-◌, ◌/◌, ◌<◌,
  ◌^◌, ◌∙◌, ◌≡◌, ◌≤◌,
}

-- From one place to the next.
abbrev pub gap : ℕ → ℕ → ℕ
gap weight n = 2 ^ (n / weight - 1)

one_more : (a t : ℕ) → suc a * t ≡ a * t + t
one_more a t = omega arith

magnitude_at-suc :
    (weight e fraction : ℕ)
    → magnitude_at weight e (fraction + 1) ≡ magnitude_at weight e fraction + 2 ^ (e - 1)
unfolding magnitude_at
magnitude_at-suc weight zero fraction = refl
magnitude_at-suc weight (suc e) fraction =
    ap (λ (a : ℕ). a * 2 ^ e) (omega arith)
    ∙ one_more (weight + fraction) (2 ^ e)
    ∙ ap (λ (k : ℕ). (weight + fraction) * 2 ^ e + 2 ^ k) (omega arith)

twice_weight : (v t : ℕ) → (suc v + 0) * (t * 2) ≡ (suc v + v) * t + t
twice_weight v t = grind arith

magnitude_at-carry :
    (v e : ℕ) → magnitude_at (suc v) (suc e) 0 ≡ magnitude_at (suc v) e v + 2 ^ (e - 1)
unfolding magnitude_at
magnitude_at-carry v zero = omega arith
magnitude_at-carry v (suc e) =
    ap (λ (t : ℕ). (suc v + 0) * t) (pow-suc 2 e)
    ∙ twice_weight v (2 ^ e)
    ∙ ap (λ (k : ℕ). (suc v + v) * 2 ^ e + 2 ^ k) (omega arith)

-- The place from its exponent and its fraction.
pub magnitude_of-digits :
    (weight e fraction : ℕ)
    → fraction < weight
    → magnitude_of weight (e * weight + fraction) ≡ magnitude_at weight e fraction
unfolding magnitude_of
magnitude_of-digits weight e fraction h =
    let quotient : (e * weight + fraction) / weight ≡ e =
      mul-add-div_right (omega arith) e fraction ∙ omega (arith, div-eq_of_lt h) in
    rw (quotient, mul-add-mod_self_right e weight fraction, mod-eq_of_lt h) refl

carry_at :
    (weight v e : ℕ)
    → weight ≡ suc v
    → magnitude_at weight (suc e) 0 ≡ magnitude_at weight e v + 2 ^ (e - 1)
carry_at weight v e h = rw h (magnitude_at-carry v e)

-- The distance to the next place.
pub magnitude_of-suc :
    (weight n : ℕ) → 1 ≤ weight → magnitude_of weight (n + 1) ≡ magnitude_of weight n + gap weight n
unfolding magnitude_of
magnitude_of-suc weight n h =
    let whole = div-add-mod' n weight in
    let small = mod-lt n h in
    elim (Bool-cases (ltb (n % weight + 1) weight)) [
      | inl e ↦
          ap (magnitude_of weight) (omega (arith, whole))
          ∙ magnitude_of-digits weight (n / weight) (n % weight + 1)
              (ltb→lt (n % weight + 1) weight e)
          ∙ magnitude_at-suc weight (n / weight) (n % weight)
      | inr e ↦
          ap (magnitude_of weight)
            (next_binade (n / weight) (n % weight) (ground (arith, whole, small)))
          ∙ magnitude_of-digits weight (suc (n / weight)) 0 (omega arith)
          ∙ carry_at weight (n % weight) (n / weight) (ground (arith, small))
    ]
  where
    next_binade : (q r : ℕ) → (n ≡ q * weight + r) × (weight ≡ r + 1) → n + 1 ≡ suc q * weight + 0
    next_binade q r e = omega arith

pub gap_mono : (weight n : ℕ) → 1 ≤ weight → gap weight n ≤ gap weight (n + 1)
gap_mono weight n h =
    let quotient : n / weight ≤ (n + 1) / weight =
      (le-div_iff_mul-le h).1 (omega (arith, div-mul-le_self n weight)) in
    pow-le-pow_right (omega arith) (omega (arith, quotient))

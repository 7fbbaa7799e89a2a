-- ===== src/Util/Random.antt =====
-- `rand` of util/math_helper.cpp for bytes. The generator is a parameter: from its state, a 32-bit
-- word and the next state.
use sycl_cts.Prelude.{
  ==_iff, List, [], and-halves, and-zero, ap, arith, bit_and, false, if◌then◌else◌, min, refl, suc,
  take, zero, ℕ, ◌%◌, ◌*◌, ◌+◌, ◌/◌, ◌<◌, ◌==◌, ◌∙◌, ◌∷◌, ◌≡◌, ◌≤◌,
}

differ_false : (n : ℕ) → 0 < n → (n == 0) ≡ false
differ_false n h = ground arith

-- The lowest digits, as many as the mask has.
low_digits : (r : ℕ) → bit_and r 15 ≡ r % 16
low_digits r =
    let h₀ : bit_and r 15 ≡ bit_and (r / 2) 7 * 2 + min (r % 2) 1 = and-halves r 15 in
    let h₁ : bit_and (r / 2) 7 ≡ bit_and (r / 2 / 2) 3 * 2 + min (r / 2 % 2) 1 =
      and-halves (r / 2) 7 in
    let h₂ : bit_and (r / 2 / 2) 3 ≡ bit_and (r / 2 / 2 / 2) 1 * 2 + min (r / 2 / 2 % 2) 1 =
      and-halves (r / 2 / 2) 3 in
    let h₃ : bit_and (r / 2 / 2 / 2) 1
        ≡ bit_and (r / 2 / 2 / 2 / 2) 0 * 2 + min (r / 2 / 2 / 2 % 2) 1 =
      and-halves (r / 2 / 2 / 2) 1 in
    omega (arith, h₀, h₁, h₂, h₃, and-zero (r / 2 / 2 / 2 / 2))

low_byte : (r : ℕ) → bit_and r 0xff ≡ r % 256
low_byte r =
    let h₀ : bit_and r 255 ≡ bit_and (r / 2) 127 * 2 + min (r % 2) 1 = and-halves r 255 in
    let h₁ : bit_and (r / 2) 127 ≡ bit_and (r / 2 / 2) 63 * 2 + min (r / 2 % 2) 1 =
      and-halves (r / 2) 127 in
    let h₂ : bit_and (r / 2 / 2) 63 ≡ bit_and (r / 2 / 2 / 2) 31 * 2 + min (r / 2 / 2 % 2) 1 =
      and-halves (r / 2 / 2) 63 in
    let h₃ : bit_and (r / 2 / 2 / 2) 31
        ≡ bit_and (r / 2 / 2 / 2 / 2) 15 * 2 + min (r / 2 / 2 / 2 % 2) 1 =
      and-halves (r / 2 / 2 / 2) 31 in
    omega (arith, h₀, h₁, h₂, h₃, low_digits (r / 2 / 2 / 2 / 2))

module _ {S : Type 0} (genrand_int32 : S → ℕ × S) where
  -- The loop at index `i` with `rounds` of it left, and what is left of the last word in `r`.
  -- `r & 0xff` and `r >>= 8` of an unsigned word.
  pub rand_loop : ℕ → ℕ → ℕ → S → List ℕ
  rand_loop zero i r rng = []
  rand_loop (suc rounds) i r rng =
      let drawn = if i % 4 == 0 then genrand_int32 rng else (r, rng) in
      bit_and drawn.0 0xff ∷ rand_loop rounds (i + 1) (drawn.0 / 256) drawn.1

  pub rand : ℕ → S → List ℕ
  rand size rng = rand_loop size 0 0 rng

  -- The bytes of the next `n` words, the lowest of each first.
  unfoldable pub little_endian : ℕ → S → List ℕ
  little_endian zero rng = []
  little_endian (suc n) rng =
      let word = (genrand_int32 rng).0 in
      word % 256
      ∷ word / 256 % 256
      ∷ word / 256 / 256 % 256
      ∷ word / 256 / 256 / 256 % 256
      ∷ little_endian n (genrand_int32 rng).1

  rand_loop_draw :
      (n i r : ℕ) (rng : S)
      → i % 4 ≡ 0
      → rand_loop (suc n) i r rng
        ≡ (genrand_int32 rng).0 % 256
          ∷ rand_loop n (i + 1) ((genrand_int32 rng).0 / 256) (genrand_int32 rng).1
  unfolding rand_loop
  rand_loop_draw n i r rng h =
      rw (rand_loop, (==_iff (i % 4) 0).1 h)
        (ap (λ b. b ∷ rand_loop n (i + 1) ((genrand_int32 rng).0 / 256) (genrand_int32 rng).1)
          (low_byte (genrand_int32 rng).0))

  rand_loop_keep :
      (n i r : ℕ) (rng : S)
      → 0 < i % 4
      → rand_loop (suc n) i r rng ≡ r % 256 ∷ rand_loop n (i + 1) (r / 256) rng
  unfolding rand_loop
  rand_loop_keep n i r rng h =
      rw (rand_loop, differ_false (i % 4) h)
        (ap (λ b. b ∷ rand_loop n (i + 1) (r / 256) rng) (low_byte r))

  rand_loop-little_endian :
      (words rounds i r : ℕ) (rng : S)
      → i % 4 ≡ 0
      → rounds ≤ words * 4
      → rand_loop rounds i r rng ≡ take rounds (little_endian words rng)
  unfolding little_endian rand_loop
  rand_loop-little_endian words zero i r rng h p = refl
  rand_loop-little_endian zero (suc n) i r rng h p = absurd (omega (arith, p))
  rand_loop-little_endian (suc words) (suc zero) i r rng h p = rand_loop_draw 0 i r rng h
  rand_loop-little_endian (suc words) (suc (suc zero)) i r rng h p =
      let word = (genrand_int32 rng).0 in
      let next = (genrand_int32 rng).1 in
      rand_loop_draw 1 i r rng h
      ∙ ap (λ t. word % 256 ∷ t) (rand_loop_keep 0 (i + 1) (word / 256) next (omega (arith, h)))
  rand_loop-little_endian (suc words) (suc (suc (suc zero))) i r rng h p =
      let word = (genrand_int32 rng).0 in
      let next = (genrand_int32 rng).1 in
      rand_loop_draw 2 i r rng h
      ∙ ap (λ t. word % 256 ∷ t)
          (rand_loop_keep 1 (i + 1) (word / 256) next (omega (arith, h))
            ∙ ap (λ t. word / 256 % 256 ∷ t)
                (rand_loop_keep 0 (i + 1 + 1) (word / 256 / 256) next (omega (arith, h))))
  rand_loop-little_endian (suc words) (suc (suc (suc (suc n)))) i r rng h p =
      let word = (genrand_int32 rng).0 in
      let next = (genrand_int32 rng).1 in
      rand_loop_draw (suc (suc (suc n))) i r rng h
      ∙ ap (λ t. word % 256 ∷ t)
          (rand_loop_keep (suc (suc n)) (i + 1) (word / 256) next (omega (arith, h))
            ∙ ap (λ t. word / 256 % 256 ∷ t)
                (rand_loop_keep (suc n) (i + 1 + 1) (word / 256 / 256) next (omega (arith, h))
                  ∙ ap (λ t. word / 256 / 256 % 256 ∷ t)
                      (rand_loop_keep n (i + 1 + 1 + 1) (word / 256 / 256 / 256) next
                          (omega (arith, h))
                        ∙ ap (λ t. word / 256 / 256 / 256 % 256 ∷ t)
                            (rand_loop-little_endian words n (i + 1 + 1 + 1 + 1)
                              (word / 256 / 256 / 256 / 256) next (omega (arith, h))
                              (omega (arith, p))))))

  -- The bytes of the stream are those of the generator's successive words, each word from its
  -- lowest byte to its highest, as many as are asked for.
  rand-little_endian :
      (words size : ℕ) (rng : S)
      → size ≤ words * 4
      → rand size rng ≡ take size (little_endian words rng)
  unfolding rand
  rand-little_endian words size rng p = rand_loop-little_endian words size 0 0 rng refl p

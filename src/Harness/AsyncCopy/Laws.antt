-- ===== src/Harness/AsyncCopy/Laws.antt =====
-- The loops that compare memory with its reference.
use sycl_cts.Harness.AsyncCopy.{copied_loop, same_loop, verify_copy}
use sycl_cts.Prelude.{
  Bool, ap, arith, false, refl, suc, true, zero, ℕ, ◌&&◌, ◌*◌, ◌+◌, ◌-◌, ◌<◌, ◌↔◌, ◌∙◌, ◌≡◌, ◌≤◌,
}

module _ {ℓ} {A : Type ℓ} (equal : A → A → Bool) (one zero_value : A)
    (equal_iff : (x y : A) → (equal x y ≡ true) ↔ (x ≡ y)) where
  and_true : (a b : Bool) → ((a && b) ≡ true) ↔ ((a ≡ true) × (b ≡ true))
  and_true true b = (λ e. (refl, e), λ h. h.1)
  and_true false b = (λ e. (e, cc), λ h. h.0)

  from_next :
      (memory reference : ℕ → A) (pointer i rounds : ℕ)
      → memory pointer ≡ reference i
      → ((k : ℕ) → k < rounds → memory (pointer + 1 + k) ≡ reference (i + 1 + k))
      → (k : ℕ) → k < suc rounds
      → memory (pointer + k) ≡ reference (i + k)
  from_next memory reference pointer i rounds now later zero h =
      ap memory (omega arith) ∙ now ∙ ap reference (omega arith)
  from_next memory reference pointer i rounds now later (suc k) h =
      ap memory (omega arith) ∙ later k (omega arith) ∙ ap reference (omega arith)

  pub same_loop_iff :
      (rounds i pointer : ℕ) (memory reference : ℕ → A) (succeed : Bool)
      → (same_loop equal one zero_value rounds i pointer memory reference succeed ≡ true)
        ↔ ((succeed ≡ true) × ((k : ℕ) → k < rounds → memory (pointer + k) ≡ reference (i + k)))
  unfolding same_loop
  same_loop_iff zero i pointer memory reference succeed =
      (λ e. (e, λ k h. absurd (omega arith)), λ h. h.0)
  same_loop_iff (suc rounds) i pointer memory reference succeed =
      let now = equal_iff (memory pointer) (reference i) in
      let ih =
        same_loop_iff rounds (i + 1) (pointer + 1) memory reference
          (succeed && equal (memory pointer) (reference i)) in
      let parts = and_true succeed (equal (memory pointer) (reference i)) in
      (
        λ e. (
          (parts.0 (ih.0 e).0).0,
          from_next memory reference pointer i rounds (now.0 (parts.0 (ih.0 e).0).1) (ih.0 e).1,
        ),
        λ h. ih.1 (
          parts.1 (
            h.0,
            now.1 (ap memory (omega arith) ∙ h.1 0 (omega arith) ∙ ap reference (omega arith)),
          ),
          λ k q. ap memory (omega arith) ∙ h.1 (suc k) (omega arith) ∙ ap reference (omega arith),
        ),
      )

  -- The elements of a round: the copied one, and the gap behind it.
  abbrev RoundIsGood : ℕ → ℕ → (source destination reference : ℕ → A) → ℕ → ℕ → ℕ → Type ℓ
  RoundIsGood ss ds source destination reference i input output =
      (destination output ≡ source input)
      × ((j : ℕ) → j < ds - 1 → destination (output + 1 + j) ≡ reference (i * ds + 1 + j))

  module _ (ss ds : ℕ) (source destination reference : ℕ → A) (wide : 1 ≤ ds) where
    move :
        (i i' input input' output output' : ℕ)
        → i ≡ i'
        → input ≡ input'
        → output ≡ output'
        → RoundIsGood ss ds source destination reference i input output
        → RoundIsGood ss ds source destination reference i' input' output'
    move i i' input input' output output' e f g h = rw (← e, ← f, ← g) h

    rounds_from :
        (i input output rounds : ℕ)
        → RoundIsGood ss ds source destination reference i input output
        → ((r : ℕ)
            → r < rounds
            → RoundIsGood ss ds source destination reference
                (i + 1 + r)
                (input + ss + r * ss)
                (output + 1 + (ds - 1) + r * ds))
        → (r : ℕ) → r < suc rounds
        → RoundIsGood ss ds source destination reference (i + r) (input + r * ss) (output + r * ds)
    rounds_from i input output rounds now later zero h =
        move i (i + 0) input (input + 0 * ss) output (output + 0 * ds) (omega arith) (omega arith)
          (omega arith) now
    rounds_from i input output rounds now later (suc r) h =
        move (i + 1 + r) (i + suc r) (input + ss + r * ss) (input + suc r * ss)
          (output + 1 + (ds - 1) + r * ds) (output + suc r * ds) (omega arith) (omega arith)
          (omega arith) (later r (omega arith))

    copied_loop-output :
        (rounds i input output : ℕ) (succeed : Bool)
        → (copied_loop equal one zero_value ss ds source destination reference rounds i input output
            succeed).0
          ≡ output + rounds * ds
    unfolding copied_loop
    copied_loop-output zero i input output succeed = omega arith
    copied_loop-output (suc rounds) i input output succeed =
        copied_loop-output rounds (i + 1) (input + ss) (output + 1 + (ds - 1)) (
          same_loop equal one zero_value (ds - 1) (i * ds + 1) (output + 1) destination reference
            (succeed && equal (destination output) (source input)))
        ∙ omega arith

    copied_loop_iff :
        (rounds i input output : ℕ) (succeed : Bool)
        → ((copied_loop equal one zero_value ss ds source destination reference rounds i input
              output succeed).1
            ≡ true)
          ↔ ((succeed ≡ true)
              × ((r : ℕ)
                  → r < rounds
                  → RoundIsGood ss ds source destination reference
                      (i + r)
                      (input + r * ss)
                      (output + r * ds)))
    unfolding copied_loop
    copied_loop_iff zero i input output succeed = (λ e. (e, λ r h. absurd (omega arith)), λ h. h.0)
    copied_loop_iff (suc rounds) i input output succeed =
        let here : Bool = succeed && equal (destination output) (source input) in
        let gap = same_loop_iff (ds - 1) (i * ds + 1) (output + 1) destination reference here in
        let ih = copied_loop_iff rounds (i + 1) (input + ss) (output + 1 + (ds - 1)) (
          same_loop equal one zero_value (ds - 1) (i * ds + 1) (output + 1) destination reference
            here) in
        let now = equal_iff (destination output) (source input) in
        let parts = and_true succeed (equal (destination output) (source input)) in
        (
          λ e.
              let found = gap.0 (ih.0 e).0 in
              (
                (parts.0 found.0).0,
                rounds_from i input output rounds (now.0 (parts.0 found.0).1, found.1) (ih.0 e).1,
              ),
          λ h.
              let first =
                move (i + 0) i (input + 0 * ss) input (output + 0 * ds) output (omega arith)
                  (omega arith) (omega arith) (h.1 0 (omega arith)) in
              ih.1 (
                gap.1 (parts.1 (h.0, now.1 first.0), first.1),
                λ r q.
                    move (i + suc r) (i + 1 + r) (input + suc r * ss) (input + ss + r * ss)
                      (output + suc r * ds) (output + 1 + (ds - 1) + r * ds) (omega arith)
                      (omega arith) (omega arith) (h.1 (suc r) (omega arith)),
              ),
        )

  -- The source is as it was, the destination has the copied elements in their places, and nothing else
  -- of it has changed.
  abbrev pub IsCopied : ℕ → ℕ → ℕ → ℕ → (source destination input_ref output_ref : ℕ → A) → Type ℓ
  IsCopied b n ss ds source destination input_ref output_ref =
      ((k : ℕ) → k < b → source k ≡ input_ref k)
      × ((r : ℕ) → r < n → destination (r * ds) ≡ source (r * ss))
      × ((r j : ℕ)
          → r < n
          → j < ds - 1
          → destination (r * ds + 1 + j) ≡ output_ref (r * ds + 1 + j))
      × ((k : ℕ) → k < b - n * ds → destination (n * ds + k) ≡ output_ref (n * ds + k))

  pub verify_copy_iff :
      (b n ss ds : ℕ) (source destination input_ref output_ref : ℕ → A)
      → 1 ≤ ds
      → (verify_copy equal one zero_value b n ss ds source destination input_ref output_ref ≡ true)
        ↔ IsCopied b n ss ds source destination input_ref output_ref
  unfolding verify_copy
  verify_copy_iff b n ss ds source destination input_ref output_ref wide =
      let unchanged : Bool = same_loop equal one zero_value b 0 0 source input_ref true in
      let loop =
        copied_loop equal one zero_value ss ds source destination output_ref n 0 0 0 unchanged in
      let first = same_loop_iff b 0 0 source input_ref true in
      let rounds = copied_loop_iff ss ds source destination output_ref wide n 0 0 0 unchanged in
      let out = copied_loop-output ss ds source destination output_ref wide n 0 0 0 unchanged in
      let last = same_loop_iff (b - n * ds) (n * ds) loop.0 destination output_ref loop.1 in
      (
        λ e.
            let end = last.0 e in
            let middle = rounds.0 end.0 in
            (
              λ k q.
                  ap source (omega arith) ∙ (first.0 middle.0).1 k q ∙ ap input_ref (omega arith),
              λ r q. ap destination (omega arith) ∙ (middle.1 r q).0 ∙ ap source (omega arith),
              λ r j q p.
                  ap destination (omega arith) ∙ (middle.1 r q).1 j p ∙ ap output_ref (omega arith),
              λ k q. ap destination (omega (arith, out)) ∙ end.1 k q,
            ),
        λ h. last.1 (
          rounds.1 (
            first.1 (refl, λ k q. ap source (omega arith) ∙ h.0 k q ∙ ap input_ref (omega arith)),
            λ r q. (
              ap destination (omega arith) ∙ h.1 r q ∙ ap source (omega arith),
              λ j p. ap destination (omega arith) ∙ h.2 r j q p ∙ ap output_ref (omega arith),
            ),
          ),
          λ k q. ap destination (omega (arith, out)) ∙ h.3 k q,
        ),
      )

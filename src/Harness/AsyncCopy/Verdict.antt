-- ===== src/Harness/AsyncCopy/Verdict.antt =====
-- The verdict of the check of asynchronous copies, from what a copy has left in memory.
use native.Mathlib.Nat.{div-mul-le_self, mul-le-mul}
use sycl_cts.Harness.AsyncCopy.{
  Direction, check_async_wg_copy_impl, create_async_wg_copy_fixed, create_async_wg_copy_input,
  dst_stride_of, global_to_local, local_to_global, src_stride_of,
}
use sycl_cts.Harness.AsyncCopy.Fill.{alternating, fixed_elements, input_elements}
use sycl_cts.Harness.AsyncCopy.Laws.{verify_copy_iff}
use sycl_cts.Prelude.{
  Bool, ap, arith, false, if◌then◌else◌, ltb, lt→ltb, refl, suc, sym, true, ℕ, ◌%◌, ◌*◌, ◌+◌, ◌-◌,
  ◌/◌, ◌<◌, ◌↔◌, ◌∙◌, ◌≡◌, ◌≤◌,
}

module _ {ℓ} {A : Type ℓ} (equal : A → A → Bool) (one zero_value : A) where
  -- What a copy of every `ss`-th of `b` alternating elements to every `ds`-th place leaves.
  abbrev pub StridedCopy : ℕ → ℕ → ℕ → ℕ → (source destination : ℕ → A) → Type ℓ
  StridedCopy b n ss ds source destination =
      ((k : ℕ) → k < b → source k ≡ alternating one zero_value k)
      × ((r : ℕ) → r < n → destination (r * ds) ≡ alternating one zero_value (r * ss))
      × ((r j : ℕ) → r < n → j < ds - 1 → destination (r * ds + 1 + j) ≡ zero_value)
      × ((k : ℕ) → k < b - n * ds → destination (n * ds + k) ≡ zero_value)

  abbrev pub after_copy :
      ((ℕ → A) → (ℕ → A) → ℕ → ℕ → ℕ → (ℕ → A) × (ℕ → A))
      → ℕ
      → ℕ
      → Direction
      → (ℕ → A)
      → (ℕ → A)
      → (ℕ → A) × (ℕ → A)
  after_copy copy b stride direction source destination =
      copy (create_async_wg_copy_input equal one zero_value b source).1
        (create_async_wg_copy_fixed equal one zero_value b false destination).1 (b / stride)
        (src_stride_of direction stride) (dst_stride_of direction stride)

  rounds_below : (b stride r : ℕ) → r < b / stride → suc r * stride ≤ b
  rounds_below b stride r q =
      let whole : suc r * stride ≤ b / stride * stride = mul-le-mul q (omega arith) in
      omega (arith, whole, div-mul-le_self b stride)

  places : (r stride : ℕ) → 1 ≤ stride → r * 1 ≤ r * stride
  places r stride h = mul-le-mul (omega arith) h

  strides_fit :
      (b stride : ℕ) (direction : Direction)
      → 1 ≤ stride
      → (1 ≤ dst_stride_of direction stride)
        × (b / stride * dst_stride_of direction stride ≤ b)
        × ((r : ℕ) → r < b / stride → r * src_stride_of direction stride < b)
        × ((r j : ℕ)
            → r < b / stride
            → j < dst_stride_of direction stride - 1
            → r * dst_stride_of direction stride + 1 + j < b)
  unfolding src_stride_of dst_stride_of
  strides_fit b stride local_to_global h = (
    h,
    div-mul-le_self b stride,
    λ r q. omega (arith, rounds_below b stride r q, places r stride h),
    λ r j q p. omega (arith, rounds_below b stride r q),
  )
  strides_fit b stride global_to_local h = (
    omega arith,
    omega (arith, div-mul-le_self b stride, places (b / stride) stride h),
    λ r q. omega (arith, rounds_below b stride r q),
    λ r j q p. absurd (omega arith),
  )

  -- The check accepts exactly what a strided copy leaves: a source that is unchanged, the elements in
  -- their places, and nothing else of the destination changed.
  pub check_async_wg_copy_impl-StridedCopy :
      (equal_iff : (x y : A) → (equal x y ≡ true) ↔ (x ≡ y))
      (copy : (ℕ → A) → (ℕ → A) → ℕ → ℕ → ℕ → (ℕ → A) × (ℕ → A)) (b stride : ℕ)
      (direction : Direction) (source destination : ℕ → A)
      → 1 ≤ stride
      → (check_async_wg_copy_impl equal one zero_value copy b stride direction source destination
          ≡ true)
        ↔ StridedCopy b
            (b / stride)
            (src_stride_of direction stride)
            (dst_stride_of direction stride)
            (after_copy copy b stride direction source destination).0
            (after_copy copy b stride direction source destination).1
  unfolding check_async_wg_copy_impl
  check_async_wg_copy_impl-StridedCopy equal_iff copy b stride direction source destination h =
      let n : ℕ = b / stride in
      let ss : ℕ = src_stride_of direction stride in
      let ds : ℕ = dst_stride_of direction stride in
      let after = after_copy copy b stride direction source destination in
      let fit = strides_fit b stride direction h in
      let input = λ (k : ℕ) (q : k < b). (input_elements equal one zero_value b source k q).0 in
      let output =
        λ (k : ℕ) (q : k < b). (fixed_elements equal one zero_value b false destination k q).0 in
      let iff =
        verify_copy_iff equal one zero_value equal_iff b n ss ds after.0 after.1
          (create_async_wg_copy_input equal one zero_value b source).0
          (create_async_wg_copy_fixed equal one zero_value b false destination).0 fit.0 in
      (
        λ e.
            let found = iff.0 e in
            (
              λ k q. found.0 k q ∙ input k q,
              λ r q. found.1 r q ∙ found.0 (r * ss) (fit.2 r q) ∙ input (r * ss) (fit.2 r q),
              λ r j q p. found.2 r j q p ∙ output (r * ds + 1 + j) (fit.3 r j q p),
              λ k q. found.3 k q ∙ output (n * ds + k) (omega (arith, fit.1)),
            ),
        λ found. iff.1 (
          λ k q. found.0 k q ∙ sym (input k q),
          λ r q. found.1 r q ∙ sym (found.0 (r * ss) (fit.2 r q)),
          λ r j q p. found.2 r j q p ∙ sym (output (r * ds + 1 + j) (fit.3 r j q p)),
          λ k q. found.3 k q ∙ sym (output (n * ds + k) (omega (arith, fit.1))),
        ),
      )

  even_multiple : (r stride : ℕ) → stride % 2 ≡ 0 → (r * stride) % 2 ≡ 0
  even_multiple r stride h =
      let half : stride ≡ stride / 2 * 2 = omega arith in omega (arith, ap (λ (t : ℕ). r * t) half)

  even_item : (k : ℕ) → k % 2 ≡ 0 → alternating one zero_value k ≡ one
  even_item k h = rw h refl

  -- A copy that takes any elements of even index, in any order.
  abbrev pub picking : (ℕ → ℕ) → (ℕ → A) → (ℕ → A) → ℕ → ℕ → ℕ → (ℕ → A) × (ℕ → A)
  picking pick source destination n ss ds =
      (source, λ k. if ltb k n then source (2 * pick k) else destination k)

  -- From global to local memory with an even stride, the check does not see which elements of even
  -- index a copy takes.
  pub check_async_wg_copy_impl-picking :
      (equal_iff : (x y : A) → (equal x y ≡ true) ↔ (x ≡ y)) (pick : ℕ → ℕ) (b stride : ℕ)
      (source destination : ℕ → A)
      → 1 ≤ stride
      → stride % 2 ≡ 0
      → ((r : ℕ) → 2 * pick r < b)
      → check_async_wg_copy_impl equal one zero_value
          (picking pick)
          b
          stride
          global_to_local
          source
          destination
        ≡ true
  unfolding dst_stride_of src_stride_of
  check_async_wg_copy_impl-picking equal_iff pick b stride source destination h even inside =
      (check_async_wg_copy_impl-StridedCopy equal_iff (picking pick) b stride global_to_local source
          destination h).1
        (
          λ k q. (input_elements equal one zero_value b source k q).1,
          λ r q. rw (lt→ltb (r * 1) (b / stride) (omega arith)) (
              (input_elements equal one zero_value b source (2 * pick (r * 1)) (inside (r * 1))).1
              ∙ even_item (2 * pick (r * 1)) (omega arith)
              ∙ sym (even_item (r * stride) (even_multiple r stride even))),
          λ r j q p. absurd (omega arith),
          λ k q.
              let beyond : ltb (b / stride * 1 + k) (b / stride) ≡ false = ground arith in
              rw beyond
                (fixed_elements equal one zero_value b false destination (b / stride * 1 + k)
                  (omega arith)).1,
        )

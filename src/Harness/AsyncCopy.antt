-- ===== src/Harness/AsyncCopy.antt =====
-- tests/common/async_work_group_copy.h: the checks of copies between local and global memory.
-- Memory is what stands at each index behind a pointer, and what an array holds is at its indexes.
-- The copies and the comparison of values are arguments; `one` and `zero_value` are `true` and
-- `false` as elements.
pub mod Fill
pub mod Laws
pub mod Verdict
pub mod WaitFor
use sycl_cts.Prelude.{
  Bool, false, if◌then◌else◌, not, suc, true, zero, ℕ, ◌&&◌, ◌*◌, ◌+◌, ◌-◌, ◌/◌, ◌==◌,
}

pub data Direction : Type 0 where
  local_to_global global_to_local : Direction

-- `get_async_wg_copy_stride`: the stride of a local pointer is 1.
pub src_stride_of : Direction → ℕ → ℕ
src_stride_of local_to_global stride = 1
src_stride_of global_to_local stride = stride

pub dst_stride_of : Direction → ℕ → ℕ
dst_stride_of local_to_global stride = stride
dst_stride_of global_to_local stride = 1

module _ {ℓ} {A : Type ℓ} (equal : A → A → Bool) (one zero_value : A) where
  abbrev pub item_of : Bool → A
  item_of value = if value then one else zero_value

  -- Both the array that is returned and the memory get the item. `next` is what the loop makes of the
  -- value.
  pub fill_loop : (Bool → Bool) → ℕ → ℕ → Bool → (ℕ → A) × (ℕ → A) → (ℕ → A) × (ℕ → A)
  fill_loop next zero i value (result, memory) = (result, memory)
  fill_loop next (suc rounds) i value (result, memory) =
      fill_loop next rounds (i + 1) (next value) (
        (λ k. if i == k then item_of value else result k),
        (λ k. if i == k then item_of value else memory k),
      )

  -- A new array holds anything: `zero_value` here.
  pub create_async_wg_copy_input : ℕ → (ℕ → A) → (ℕ → A) × (ℕ → A)
  unfolding fill_loop
  create_async_wg_copy_input buffer_size memory =
      fill_loop not buffer_size 0 true ((λ k. zero_value), memory)

  pub create_async_wg_copy_fixed : ℕ → Bool → (ℕ → A) → (ℕ → A) × (ℕ → A)
  unfolding fill_loop
  create_async_wg_copy_fixed buffer_size value memory =
      fill_loop (λ v. v) buffer_size 0 value ((λ k. zero_value), memory)

  -- `for (i < rounds) succeed &= equal(*pointer++, reference[i])`
  pub same_loop : ℕ → ℕ → ℕ → (ℕ → A) → (ℕ → A) → Bool → Bool
  same_loop zero i pointer memory reference succeed = succeed
  same_loop (suc rounds) i pointer memory reference succeed =
      same_loop rounds (i + 1) (pointer + 1) memory reference
        (succeed && equal (memory pointer) (reference i))

  -- The loop over `i`, and in it the one over `j`; with the output pointer behind it.
  pub copied_loop :
      (src_stride dst_stride : ℕ) (source destination reference : ℕ → A)
      → ℕ
      → ℕ
      → ℕ
      → ℕ
      → Bool
      → ℕ × Bool
  unfolding same_loop
  copied_loop src_stride dst_stride source destination reference zero i input output succeed =
      (output, succeed)
  copied_loop src_stride dst_stride source destination reference (suc rounds) i input output
        succeed =
      copied_loop src_stride dst_stride source destination reference rounds (i + 1)
        (input + src_stride) (output + 1 + (dst_stride - 1))
        (same_loop (dst_stride - 1) (i * dst_stride + 1) (output + 1) destination reference
          (succeed && equal (destination output) (source input)))

  pub verify_copy : ℕ → ℕ → ℕ → ℕ → (source destination input_ref output_ref : ℕ → A) → Bool
  unfolding same_loop copied_loop
  verify_copy buffer_size num_elements src_stride dst_stride source destination input_ref
        output_ref =
      let unchanged : Bool = same_loop buffer_size 0 0 source input_ref true in
      let copied =
        copied_loop src_stride dst_stride source destination output_ref num_elements 0 0 0
          unchanged in
      same_loop (buffer_size - num_elements * dst_stride) (num_elements * dst_stride) copied.0
        destination output_ref copied.1

  -- `copy` is given the source, the destination, the number of elements and the strides, and gives
  -- both as they are after its event.
  unfoldable pub check_async_wg_copy_impl :
      ((ℕ → A) → (ℕ → A) → ℕ → ℕ → ℕ → (ℕ → A) × (ℕ → A))
      → ℕ
      → ℕ
      → Direction
      → (ℕ → A)
      → (ℕ → A)
      → Bool
  unfolding src_stride_of dst_stride_of create_async_wg_copy_input create_async_wg_copy_fixed
      verify_copy
  check_async_wg_copy_impl copy buffer_size stride direction source destination =
      let num_elements = buffer_size / stride in
      let src_stride = src_stride_of direction stride in
      let dst_stride = dst_stride_of direction stride in
      let input = create_async_wg_copy_input buffer_size source in
      let output = create_async_wg_copy_fixed buffer_size false destination in
      let after = copy input.1 output.1 num_elements src_stride dst_stride in
      verify_copy buffer_size num_elements src_stride dst_stride after.0 after.1 input.0 output.0

  -- The calls with `events...`: each reads on in the source, and writes from one place further on.
  pub issue_loop :
      (ℕ → (ℕ → A) × (ℕ → A) → ℕ → ℕ → ℕ → ℕ → (ℕ → A) × (ℕ → A))
      → ℕ
      → ℕ
      → ℕ
      → ℕ
      → ℕ
      → ℕ
      → (ℕ → A) × (ℕ → A)
      → (ℕ → A) × (ℕ → A)
  issue_loop copy num_elements stride zero event source destination buffers = buffers
  issue_loop copy num_elements stride (suc events) event source destination buffers =
      issue_loop copy num_elements stride events (event + 1) (source + num_elements)
        (destination + 1) (copy event buffers source destination num_elements stride)

  -- `copy` is given the event, the contents, both offsets, the number of elements and the stride, and
  -- gives the contents once `wait_for` returned.
  unfoldable pub check_wait_for :
      (ℕ → (ℕ → A) × (ℕ → A) → ℕ → ℕ → ℕ → ℕ → (ℕ → A) × (ℕ → A)) → ℕ → ℕ → (ℕ → A) → (ℕ → A) → Bool
  unfolding create_async_wg_copy_fixed issue_loop same_loop
  check_wait_for copy buffer_size events source destination =
      let num_elements = buffer_size / events in
      let input = create_async_wg_copy_fixed buffer_size true source in
      let output = create_async_wg_copy_fixed buffer_size false destination in
      let after = issue_loop copy num_elements events events 0 0 0 (input.1, output.1) in
      same_loop num_elements 0 0 after.1 input.0 true

-- ===== src/Harness/Tests.antt =====
-- The helpers of the tests on concrete values.
use sycl_cts.Harness.CtsRange.{Splits, get_fixed_size, get_fixed_size_iff, three}
use sycl_cts.Harness.AsyncCopy.{
  check_async_wg_copy_impl, check_wait_for, dst_stride_of, global_to_local, local_to_global,
  src_stride_of,
}
use sycl_cts.Harness.AsyncCopy.WaitFor.{after_wait, check_wait_for_iff}
use sycl_cts.Harness.AsyncCopy.Verdict.{
  StridedCopy, after_copy, check_async_wg_copy_impl-StridedCopy, check_async_wg_copy_impl-picking,
  picking,
}
use sycl_cts.Harness.TestBaseOpencl.{
  Call, Driver, TestBaseOpencl, build_program, call, cl_create, cleanup, create_buffer,
  create_kernel, create_program, destroy, open_buffer, open_kernel, run_calls, run_test, setup,
  test_base_opencl,
}
use sycl_cts.Harness.TestBaseOpencl.Laws.{
  dropped, dropped_by, dropped_in_test, held, life_cycle-live, occurrences,
}
use sycl_cts.Devices.Text.{text}
use sycl_cts.Prelude.{
  ==_iff, List, [], arith, false, if◌then◌else◌, ltb, refl, some, true, ℕ, ◌%◌, ◌&&◌, ◌*◌, ◌++◌,
  ◌+◌, ◌/◌, ◌<◌, ◌==◌, ◌||◌, ◌↔◌, ◌∷◌, ◌≡◌,
}
use sycl_cts.Harness.SectionName.{SectionName, create, erase_comma, with_param}
use sycl_cts.Harness.SectionName.Laws.{IsAtEnd, create-with_param}
use sycl_cts.Harness.GroupRange.{Fits, work_group_range, work_group_range-Fits}
use sycl_cts.Harness.TypeCoverage.{
  Pack, concat_map, for_all_combinations, named_type_pack, run, unnamed_type_pack,
}
use sycl_cts.Harness.TypeCoverage.Laws.{choices, for_all_combinations-choices}
use sycl_cts.Harness.ValueOperations.{Value, boolean, integer}

abbrev named : SectionName
named = record {
  m_description = text "d";
  m_parameters = record { buffer = text " a: 1,"; position = 6 };
}

create-with_param_example :
    (create (with_param (text "b") (text "2") named) ≡ text "d with a: 1, b: 2," ++ erase_comma)
    × IsAtEnd (with_param (text "b") (text "2") named)
create-with_param_example = create-with_param (text "b") (text "2") named refl

work_group_range-Fits_example :
    Fits 1024
      (64 ∷ 1024 ∷ [])
      256
      (work_group_range (λ rest d. rest / d) 1024 (64 ∷ 1024 ∷ []) 256 300)
work_group_range-Fits_example =
    work_group_range-Fits (λ rest d. rest / d) 1024 (64 ∷ 1024 ∷ []) 256 300 (omega arith)
      (omega arith, (omega arith, tt)) (omega arith) (omega arith)

get_fixed_size_iff_example :
    ((get_fixed_size true three 24 2 3 ≡ some (2, 3, 4)) ↔ Splits three 24 2 3 (2, 3, 4))
    × (Splits three 24 2 3 (2, 3, 4) → get_fixed_size false three 24 2 3 ≡ some (2, 3, 4))
get_fixed_size_iff_example = get_fixed_size_iff three 24 2 3 (2, 3, 4) (omega arith)

abbrev two_packs : List (Pack ℕ ℕ)
two_packs = named_type_pack ((1, 10) ∷ (2, 20) ∷ []) ∷ unnamed_type_pack (3 ∷ 4 ∷ []) ∷ []

for_all_combinations-choices_example :
    for_all_combinations two_packs [] (7 ∷ [])
    ≡ run (1 ∷ 3 ∷ []) (7 ∷ 10 ∷ [])
      ∷ run (1 ∷ 4 ∷ []) (7 ∷ 10 ∷ [])
      ∷ run (2 ∷ 3 ∷ []) (7 ∷ 20 ∷ [])
      ∷ run (2 ∷ 4 ∷ []) (7 ∷ 20 ∷ [])
      ∷ []
unfolding choices concat_map
for_all_combinations-choices_example = for_all_combinations-choices two_packs [] (7 ∷ [])

abbrev a_pair : List Value
a_pair = boolean false ∷ integer 4 ∷ []

-- A program that does not build, a kernel and a buffer: handles 3, 4 and 5 behind the context and
-- the queue.
abbrev some_calls : List Call
some_calls = build_program true false ∷ open_kernel true ∷ open_buffer true ∷ []

abbrev fresh_driver : Driver
fresh_driver = record { next_handle = 1; live = [] }

abbrev a_test : TestBaseOpencl
a_test = run_test true true true true some_calls (test_base_opencl fresh_driver)

life_cycle-live_example :
    (occurrences 5 (cleanup a_test).driver.live ≡ 0)
    × (occurrences 5 (destroy a_test).driver.live ≡ 1)
unfolding occurrences held dropped_in_test dropped_by dropped run_test run_calls call setup
    create_program create_kernel create_buffer cl_create test_base_opencl
life_cycle-live_example =
    life_cycle-live 5 true true true true some_calls fresh_driver (omega arith)

abbrev good_copy : (ℕ → ℕ) → (ℕ → ℕ) → ℕ → ℕ → ℕ → (ℕ → ℕ) × (ℕ → ℕ)
good_copy source destination n ss ds =
    (source, λ k. if k % ds == 0 && ltb (k / ds) n then source (k / ds * ss) else destination k)

abbrev rubbish : ℕ → ℕ
rubbish k = k + 7

check_async_wg_copy_impl-StridedCopy_example :
    (check_async_wg_copy_impl ◌==◌ 1 0 good_copy 10 2 local_to_global rubbish rubbish ≡ true)
    ↔ StridedCopy ◌==◌ 1 0 10
        (10 / 2)
        (src_stride_of local_to_global 2)
        (dst_stride_of local_to_global 2)
        (after_copy ◌==◌ 1 0 good_copy 10 2 local_to_global rubbish rubbish).0
        (after_copy ◌==◌ 1 0 good_copy 10 2 local_to_global rubbish rubbish).1
check_async_wg_copy_impl-StridedCopy_example =
    check_async_wg_copy_impl-StridedCopy ◌==◌ 1 0 ==_iff good_copy 10 2 local_to_global rubbish
      rubbish (omega arith)

good_copy_passes :
    check_async_wg_copy_impl ◌==◌ 1 0 good_copy 10 2 local_to_global rubbish rubbish ≡ true
unfolding check_async_wg_copy_impl
good_copy_passes = refl

-- The first element five times.
check_async_wg_copy_impl-picking_example :
    check_async_wg_copy_impl ◌==◌ 1 0
      (picking ◌==◌ 1 0 (λ r. 0))
      10
      2
      global_to_local
      rubbish
      rubbish
    ≡ true
check_async_wg_copy_impl-picking_example =
    check_async_wg_copy_impl-picking ◌==◌ 1 0 ==_iff (λ r. 0) 10 2 rubbish rubbish (omega arith)
      refl (λ r. omega arith)

-- Only the first two of 64 events have happened.
abbrev first_two : ℕ → (ℕ → ℕ) × (ℕ → ℕ) → ℕ → ℕ → ℕ → ℕ → (ℕ → ℕ) × (ℕ → ℕ)
first_two event buffers source destination n stride =
    if ltb event 2
    then (
      buffers.0,
      λ k. if k == destination || k == destination + stride then buffers.0 source else buffers.1 k,
    )
    else buffers

check_wait_for_iff_example :
    (check_wait_for ◌==◌ 1 0 first_two 128 64 rubbish rubbish ≡ true)
    ↔ ((k : ℕ) → k < 128 / 64 → (after_wait ◌==◌ 1 0 first_two 128 64 rubbish rubbish).1 k ≡ 1)
check_wait_for_iff_example = check_wait_for_iff ◌==◌ 1 0 ==_iff first_two 128 64 rubbish rubbish

first_two_pass : check_wait_for ◌==◌ 1 0 first_two 128 64 rubbish rubbish ≡ true
unfolding check_wait_for
first_two_pass = refl

-- ===== src/Fences/Tests.antt =====
-- The fence test on concrete runs.
use sycl_cts.Fences.Capabilities.{
  IsAmong, acquire, check_atomic_fence_order_capability, check_memory_order_scope_capabilities,
  check_memory_order_scope_capabilities_iff, device, relaxed, release, work_group,
}
use sycl_cts.Fences.Kernel.{
  Fences, Setup, Turn, between_groups, finished, get_accessor, global_range,
  is_specified_item_in_kernel, item_step, read_fence, run_kernel, run_turns, single_group, start,
  take_turn,
}
use sycl_cts.Fences.Kernel.Safety.{FencesWork, run_kernel-passes_iff}
use sycl_cts.Fences.Kernel.Progress.{run_kernel-compares, run_kernel-finishes, turns_of}
use sycl_cts.Prelude.{
  List, [], arith, false, not, refl, suc, true, zero, ℕ, ◌&&◌, ◌==◌, ◌↔◌, ◌∷◌, ◌≡◌, ◌≢◌,
}

-- Fences as the orders are named, and atomic accesses that carry within a work-group only.
abbrev by_name : Fences
by_name = record {
  releases =
      λ order scope test. not (check_atomic_fence_order_capability (relaxed ∷ acquire ∷ []) order);
  acquires =
      λ order scope test. not (check_atomic_fence_order_capability (relaxed ∷ release ∷ []) order);
  carries = λ scope test. elim test [ single_group ↦ true | between_groups ↦ false ];
}

abbrev release_in_group : Setup
release_in_group = record {
  order = release;
  scope = work_group;
  test = single_group;
  fences = by_name;
  local_flag = 0;
  local_data = 7;
  leader = λ i. i == 0;
}

check_memory_order_scope_capabilities_iff_example :
    (check_memory_order_scope_capabilities (relaxed ∷ release ∷ []) (device ∷ []) release device
      ≡ true)
    ↔ (IsAmong release (relaxed ∷ release ∷ [])
        × (release ≡ release → IsAmong acquire (relaxed ∷ release ∷ []))
        × IsAmong device (device ∷ []))
check_memory_order_scope_capabilities_iff_example =
    check_memory_order_scope_capabilities_iff (relaxed ∷ release ∷ []) (device ∷ []) release device

run_kernel-passes_iff_example :
    ((turns : List Turn) → (run_kernel release_in_group turns).mem.res ≡ true)
    ↔ ((get_accessor single_group 0 0 ≢ 1) × FencesWork release_in_group)
unfolding is_specified_item_in_kernel
run_kernel-passes_iff_example = run_kernel-passes_iff release_in_group refl refl

-- The same item again and again.
abbrev alone : ℕ → ℕ → List Turn
alone item zero = []
alone item (suc n) = record { item = item; stale = false; raced = 0 } ∷ alone item n

run_kernel-finishes_example : (run_kernel release_in_group (alone 1 259)).pc 1 ≡ finished
unfolding turns_of
run_kernel-finishes_example = run_kernel-finishes release_in_group (alone 1 259) 1 (omega arith)

run_kernel-compares_example :
    (take_turn release_in_group
        (run_kernel release_in_group (alone 0 3))
        (record { item = 1; stale = false; raced = 9 })).pc
      1
    ≡ read_fence true (
        (run_kernel release_in_group (alone 0 3)).mem.released
        && release_in_group.fences.carries work_group single_group)
unfolding is_specified_item_in_kernel global_range turns_of run_kernel run_turns take_turn item_step
    start
run_kernel-compares_example =
    run_kernel-compares release_in_group (alone 0 3) 0 1 0 9 (omega arith) refl (omega arith) refl
      (omega arith)

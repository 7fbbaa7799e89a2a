-- ===== src/Fences/Kernel/Safety.antt =====
-- The verdict of the fence test in every order of the items' steps.
use sycl_cts.Fences.Capabilities.{
  MemoryOrder, acq_rel, acquire, relaxed, release, same_order, seq_cst, work_group,
}
use sycl_cts.Fences.Kernel.{
  Memory, Pc, Setup, System, TestType, Turn, between_groups, compare_data, expected_val, finished,
  first_flag, get_accessor, global_range, is_specified_item_in_kernel, item_step, order_read,
  read_data, read_fence, read_flag, retry, run_kernel, run_turns, single_group, start, take_turn,
  try_flag, write_data, write_fence, write_flag,
}
use sycl_cts.Prelude.{
  Bool, Bool-cases, List, [], arith, false, inl, inr, ltb, refl, true, ℕ, ◌&&◌, ◌==◌, ◌↔◌, ◌∷◌, ◌≡◌,
  ◌≢◌,
}

-- Once the flag is set, what was released before it holds the value.
abbrev MemoryIsGood : Memory → Type 0
MemoryIsGood m =
    (m.res ≡ true) × (m.sync_flag ≡ 1 → (m.released ≡ true) × (m.stored ≡ expected_val))

-- What an item knows of the data, by where it stands.
abbrev PcIsGood : ℕ → Pc → Type 0
PcIsGood stored write_data = Unit
PcIsGood stored write_fence = stored ≡ expected_val
PcIsGood stored (write_flag released) = (released ≡ true) × (stored ≡ expected_val)
PcIsGood stored (retry i) = Unit
PcIsGood stored (read_fence happened carried) =
    happened ≡ true → (carried ≡ true) × (stored ≡ expected_val)
PcIsGood stored (read_data happened ordered) =
    happened ≡ true → (ordered ≡ true) × (stored ≡ expected_val)
PcIsGood stored finished = Unit

-- The data stay once they are written.
abbrev Keeps : Memory → Memory → Type 0
Keeps m m' = m.stored ≡ expected_val → m'.stored ≡ expected_val

-- The order of a reader's fence beside a writer's.
abbrev pub reader_order : MemoryOrder → MemoryOrder
reader_order release = acquire
reader_order relaxed = relaxed
reader_order acquire = acquire
reader_order acq_rel = acq_rel
reader_order seq_cst = seq_cst

order_read-reader : (order : MemoryOrder) → order_read order ≡ reader_order order
unfolding order_read same_order
order_read-reader relaxed = refl
order_read-reader acquire = refl
order_read-reader release = refl
order_read-reader acq_rel = refl
order_read-reader seq_cst = refl

-- The fences of the test work: the writer's releases, the reader's acquires, the flag carries.
abbrev pub FencesWork : Setup → Type 0
FencesWork s =
    (s.fences.releases s.order s.scope s.test ≡ true)
    × (s.fences.acquires (reader_order s.order) s.scope s.test ≡ true)
    × (s.fences.carries work_group s.test ≡ true)

module _ (s : Setup) (clear : get_accessor s.test s.local_flag 0 ≢ 1) (work : FencesWork s) where
  item_step-IsGood :
      (t : Turn) (m : Memory) (p : Pc)
      → MemoryIsGood m
      → PcIsGood m.stored p
      → MemoryIsGood (item_step s t m p).0
        × PcIsGood (item_step s t m p).0.stored (item_step s t m p).1
        × Keeps m (item_step s t m p).0
  unfolding item_step try_flag compare_data read_flag first_flag
  item_step-IsGood t m write_data g h = ground arith
  item_step-IsGood t m write_fence g h = ground arith
  item_step-IsGood t m (write_flag released) g h = ground arith
  item_step-IsGood t m (retry i) g h = ground arith
  item_step-IsGood t m (read_fence happened carried) g h = ground arith
  item_step-IsGood t m (read_data happened ordered) g h = ground arith
  item_step-IsGood t m finished g h = (g, tt, λ e. e)

  -- Every item of the system.
  SystemIsGood : System → Type 0
  SystemIsGood y = MemoryIsGood y.mem × ((i : ℕ) → PcIsGood y.mem.stored (y.pc i))

  PcIsGood-Keeps :
      (m m' : Memory) (p : Pc) → Keeps m m' → PcIsGood m.stored p → PcIsGood m'.stored p
  PcIsGood-Keeps m m' write_data k h = tt
  PcIsGood-Keeps m m' write_fence k h = k h
  PcIsGood-Keeps m m' (write_flag released) k h = (h.0, k h.1)
  PcIsGood-Keeps m m' (retry i) k h = tt
  PcIsGood-Keeps m m' (read_fence happened carried) k h = λ e. ((h e).0, k (h e).1)
  PcIsGood-Keeps m m' (read_data happened ordered) k h = λ e. ((h e).0, k (h e).1)
  PcIsGood-Keeps m m' finished k h = tt

  take_turn-IsGood : (y : System) (t : Turn) → SystemIsGood y → SystemIsGood (take_turn s y t)
  unfolding take_turn SystemIsGood
  take_turn-IsGood y t (g, h) =
      let step = item_step-IsGood t y.mem (y.pc t.item) g (h t.item) in
      (
        step.0,
        λ j. elim (Bool-cases (t.item == j)) [
          | inl e ↦ rw e step.1
          | inr e ↦
              rw e
                (PcIsGood-Keeps y.mem (item_step s t y.mem (y.pc t.item)).0 (y.pc j) step.2 (h j))
        ],
      )

  run_turns-IsGood :
      (turns : List Turn) (y : System) → SystemIsGood y → SystemIsGood (run_turns s turns y)
  unfolding run_turns
  run_turns-IsGood [] y h = h
  run_turns-IsGood (t ∷ turns) y h =
      run_turns-IsGood turns (take_turn s y t) (take_turn-IsGood y t h)

  start_pc : (i : ℕ) → PcIsGood (start s).mem.stored ((start s).pc i)
  unfolding start
  start_pc i = elim (Bool-cases (ltb i (global_range s.test))) [
    | inr e ↦ rw e tt
    | inl e ↦ rw e (elim (Bool-cases (is_specified_item_in_kernel s i)) [
      | inl e' ↦ rw e' tt
      | inr e' ↦ rw e' tt
    ])
  ]

  start-IsGood : SystemIsGood (start s)
  unfolding start SystemIsGood first_flag
  start-IsGood = ((refl, λ e. absurd (clear e)), start_pc)

  run_kernel-passes : (turns : List Turn) → (run_kernel s turns).mem.res ≡ true
  unfolding run_kernel SystemIsGood
  run_kernel-passes turns = (run_turns-IsGood turns (start s) start-IsGood).0.0

-- The writer to its end, then the reader, with the flag's last value or its first.
abbrev turns_to : Bool → List Turn
turns_to stale =
    record { item = 0; stale = false; raced = 0 }
    ∷ record { item = 0; stale = false; raced = 0 }
    ∷ record { item = 0; stale = false; raced = 0 }
    ∷ record { item = 1; stale = stale; raced = 0 }
    ∷ record { item = 1; stale = stale; raced = 0 }
    ∷ record { item = 1; stale = stale; raced = 0 }
    ∷ []

module _ (s : Setup) (y : System) (writes : y.pc 0 ≡ write_data) (reads : y.pc 1 ≡ retry 0) where
  fresh_verdict :
      y.mem.res ≡ true
      → (run_turns s (turns_to false) y).mem.res ≡ (
          (s.fences.releases s.order s.scope s.test && s.fences.carries work_group s.test)
          && s.fences.acquires (order_read s.order) s.scope s.test)
  unfolding run_turns take_turn item_step try_flag compare_data read_flag
  fresh_verdict h = rw (writes, reads) (ground arith)

  stale_verdict :
      get_accessor s.test s.local_flag 0 ≡ 1 → (run_turns s (turns_to true) y).mem.res ≡ false
  unfolding run_turns take_turn item_step try_flag compare_data read_flag first_flag
  stale_verdict h = rw (writes, reads, h) refl

module _ (s : Setup) (writer : is_specified_item_in_kernel s 0 ≡ true)
    (reader : is_specified_item_in_kernel s 1 ≡ false) where
  range-ge-two :
      (test : TestType) → (ltb 0 (global_range test) ≡ true) × (ltb 1 (global_range test) ≡ true)
  unfolding global_range
  range-ge-two single_group = (refl, refl)
  range-ge-two between_groups = (refl, refl)

  first_writes : (start s).pc 0 ≡ write_data
  unfolding start
  first_writes = rw ((range-ge-two s.test).0, writer) refl

  second_reads : (start s).pc 1 ≡ retry 0
  unfolding start
  second_reads = rw ((range-ge-two s.test).1, reader) refl

  all_pass-clear :
      ((turns : List Turn) → (run_kernel s turns).mem.res ≡ true)
      → get_accessor s.test s.local_flag 0 ≢ 1
  unfolding run_kernel
  all_pass-clear all e =
      cc (all (turns_to true), stale_verdict s (start s) first_writes second_reads e)

  all_pass-work : ((turns : List Turn) → (run_kernel s turns).mem.res ≡ true) → FencesWork s
  unfolding run_kernel
  all_pass-work all =
      let verdict = fresh_verdict s (start s) first_writes second_reads refl in
      let passes = all (turns_to false) in ground (arith, verdict, passes)

  -- Where item 0 writes and item 1 reads: the test passes in every order of the items' steps,
  -- whatever reads of old values and races give, exactly if the flag does not start at 1 and the
  -- fences work: the writer's releases, the reader's acquires, and the flag's atomic accesses, whose
  -- scope is the work-group, carry what is released between the items.
  pub run_kernel-passes_iff :
      ((turns : List Turn) → (run_kernel s turns).mem.res ≡ true)
      ↔ ((get_accessor s.test s.local_flag 0 ≢ 1) × FencesWork s)
  run_kernel-passes_iff =
      (λ all. (all_pass-clear all, all_pass-work all), λ h. run_kernel-passes s h.0 h.1)

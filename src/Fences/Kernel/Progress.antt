-- ===== src/Fences/Kernel/Progress.antt =====
-- Every work-item of the fence test ends, and a reader that sees the flag compares the data.
use sycl_cts.Fences.Capabilities.{work_group}
use sycl_cts.Fences.Kernel.{
  Memory, Pc, Setup, System, Turn, compare_data, finished, global_range,
  is_specified_item_in_kernel, item_step, read_data, read_fence, read_flag, retry, retry_count,
  run_kernel, run_turns, start, take_turn, try_flag, write_data, write_fence, write_flag,
}
use sycl_cts.Prelude.{
  ==_iff, Bool-cases, List, [], ap, arith, false, if◌then◌else◌, inl, inr, ltb, lt→ltb, refl, true,
  ℕ, ◌&&◌, ◌+◌, ◌-◌, ◌<◌, ◌==◌, ◌∷◌, ◌≡◌, ◌≤◌,
}

-- The steps that an item has left at most.
weight : Pc → ℕ
weight write_data = 3
weight write_fence = 2
weight (write_flag released) = 1
weight (retry i) = retry_count - i + 3
weight (read_fence happened carried) = 2
weight (read_data happened ordered) = 1
weight finished = 0

-- How often an item is given a turn.
unfoldable pub turns_of : ℕ → List Turn → ℕ
turns_of i [] = 0
turns_of i (t ∷ turns) = (if t.item == i then 1 else 0) + turns_of i turns

module _ (s : Setup) where
  weight-item_step : (t : Turn) (m : Memory) (p : Pc) → weight (item_step s t m p).1 ≤ weight p - 1
  unfolding weight item_step try_flag
  weight-item_step t m write_data = omega arith
  weight-item_step t m write_fence = omega arith
  weight-item_step t m (write_flag released) = omega arith
  weight-item_step t m (retry i) = ground arith
  weight-item_step t m (read_fence happened carried) = omega arith
  weight-item_step t m (read_data happened ordered) = omega arith
  weight-item_step t m finished = omega arith

  weight-take_turn :
      (y : System) (t : Turn) (i : ℕ)
      → weight ((take_turn s y t).pc i) ≤ weight (y.pc i) - (if t.item == i then 1 else 0)
  unfolding take_turn
  weight-take_turn y t i = elim (Bool-cases (t.item == i)) [
    | inl e ↦
        let same = (==_iff t.item i).0 e in rw (e, ← same) (weight-item_step t y.mem (y.pc t.item))
    | inr e ↦ rw e (omega arith)
  ]

  weight-run_turns :
      (turns : List Turn) (y : System) (i : ℕ)
      → weight ((run_turns s turns y).pc i) ≤ weight (y.pc i) - turns_of i turns
  unfolding run_turns turns_of
  weight-run_turns [] y i = omega arith
  weight-run_turns (t ∷ turns) y i =
      omega (arith, weight-run_turns turns (take_turn s y t) i, weight-take_turn y t i)

  weight-zero : (p : Pc) → weight p ≡ 0 → p ≡ finished
  unfolding weight
  weight-zero write_data e = absurd (omega arith)
  weight-zero write_fence e = absurd (omega arith)
  weight-zero (write_flag released) e = absurd (omega arith)
  weight-zero (retry i) e = absurd (omega arith)
  weight-zero (read_fence happened carried) e = absurd (omega arith)
  weight-zero (read_data happened ordered) e = absurd (omega arith)
  weight-zero finished e = refl

  weight-start : (i : ℕ) → weight ((start s).pc i) ≤ retry_count + 3
  unfolding start weight
  weight-start i = elim (Bool-cases (ltb i (global_range s.test))) [
    | inr e ↦ rw e (omega arith)
    | inl e ↦ rw e (elim (Bool-cases (is_specified_item_in_kernel s i)) [
      | inl e' ↦ rw e' (omega arith)
      | inr e' ↦ rw e' (omega arith)
    ])
  ]

  -- Whatever the others do and whatever is read, an item is finished after 259 turns of its own.
  pub run_kernel-finishes :
      (turns : List Turn) (i : ℕ)
      → retry_count + 3 ≤ turns_of i turns
      → (run_kernel s turns).pc i ≡ finished
  unfolding run_kernel
  run_kernel-finishes turns i h =
      weight-zero ((run_turns s turns (start s)).pc i)
        (omega (arith, weight-run_turns turns (start s) i, weight-start i))

  -- The writer's places; behind the last one the flag is set.
  WriterIsGood : Memory → Pc → Type 0
  WriterIsGood m write_data = Unit
  WriterIsGood m write_fence = Unit
  WriterIsGood m (write_flag released) = Unit
  WriterIsGood m (retry i) = ⊥
  WriterIsGood m (read_fence happened carried) = ⊥
  WriterIsGood m (read_data happened ordered) = ⊥
  WriterIsGood m finished = m.sync_flag ≡ 1

  abbrev KeepsFlag : Memory → Memory → Type 0
  KeepsFlag m m' = m.sync_flag ≡ 1 → m'.sync_flag ≡ 1

  item_step-KeepsFlag : (t : Turn) (m : Memory) (p : Pc) → KeepsFlag m (item_step s t m p).0
  unfolding item_step compare_data
  item_step-KeepsFlag t m write_data h = h
  item_step-KeepsFlag t m write_fence h = h
  item_step-KeepsFlag t m (write_flag released) h = refl
  item_step-KeepsFlag t m (retry i) h = h
  item_step-KeepsFlag t m (read_fence happened carried) h = h
  item_step-KeepsFlag t m (read_data happened ordered) h = ground arith
  item_step-KeepsFlag t m finished h = h

  item_step-WriterIsGood :
      (t : Turn) (m : Memory) (p : Pc)
      → WriterIsGood m p
      → WriterIsGood (item_step s t m p).0 (item_step s t m p).1
  unfolding item_step WriterIsGood
  item_step-WriterIsGood t m write_data h = tt
  item_step-WriterIsGood t m write_fence h = tt
  item_step-WriterIsGood t m (write_flag released) h = refl
  item_step-WriterIsGood t m (retry i) h = absurd h
  item_step-WriterIsGood t m (read_fence happened carried) h = absurd h
  item_step-WriterIsGood t m (read_data happened ordered) h = absurd h
  item_step-WriterIsGood t m finished h = h

  WriterIsGood-KeepsFlag :
      (m m' : Memory) (p : Pc) → KeepsFlag m m' → WriterIsGood m p → WriterIsGood m' p
  unfolding WriterIsGood
  WriterIsGood-KeepsFlag m m' write_data k h = tt
  WriterIsGood-KeepsFlag m m' write_fence k h = tt
  WriterIsGood-KeepsFlag m m' (write_flag released) k h = tt
  WriterIsGood-KeepsFlag m m' (retry i) k h = absurd h
  WriterIsGood-KeepsFlag m m' (read_fence happened carried) k h = absurd h
  WriterIsGood-KeepsFlag m m' (read_data happened ordered) k h = absurd h
  WriterIsGood-KeepsFlag m m' finished k h = k h

  run_turns-WriterIsGood :
      (turns : List Turn) (y : System) (w : ℕ)
      → WriterIsGood y.mem (y.pc w)
      → WriterIsGood (run_turns s turns y).mem ((run_turns s turns y).pc w)
  unfolding run_turns take_turn
  run_turns-WriterIsGood [] y w h = h
  run_turns-WriterIsGood (t ∷ turns) y w h =
      run_turns-WriterIsGood turns (take_turn s y t) w (elim (Bool-cases (t.item == w)) [
        | inl e ↦
            let same = (==_iff t.item w).0 e in
            rw (e, same) (item_step-WriterIsGood t y.mem (y.pc w) h)
        | inr e ↦ rw e (
            WriterIsGood-KeepsFlag y.mem (item_step s t y.mem (y.pc t.item)).0 (y.pc w)
              (item_step-KeepsFlag t y.mem (y.pc t.item)) h)
      ])

  start_writer :
      (w : ℕ)
      → w < global_range s.test
      → is_specified_item_in_kernel s w ≡ true
      → (start s).pc w ≡ write_data
  unfolding start
  start_writer w h e = rw (lt→ltb w (global_range s.test) h, e) refl

  flag_set : (m : Memory) (p : Pc) → p ≡ finished → WriterIsGood m p → m.sync_flag ≡ 1
  unfolding WriterIsGood
  flag_set m write_data e h = cc
  flag_set m write_fence e h = cc
  flag_set m (write_flag released) e h = cc
  flag_set m (retry i) e h = absurd h
  flag_set m (read_fence happened carried) e h = absurd h
  flag_set m (read_data happened ordered) e h = absurd h
  flag_set m finished e h = h

  writer_done :
      (turns : List Turn) (w : ℕ)
      → w < global_range s.test
      → is_specified_item_in_kernel s w ≡ true
      → 3 ≤ turns_of w turns
      → (run_kernel s turns).mem.sync_flag ≡ 1
  unfolding run_kernel WriterIsGood weight
  writer_done turns w h e three =
      let first = start_writer w h e in
      flag_set (run_turns s turns (start s)).mem ((run_turns s turns (start s)).pc w)
        (weight-zero ((run_turns s turns (start s)).pc w)
          (omega (arith, weight-run_turns turns (start s) w, ap weight first)))
        (run_turns-WriterIsGood turns (start s) w (rw first tt))

  -- After three turns of the writer, an item with a try left that reads the flag's last value goes
  -- on to compare the data.
  pub run_kernel-compares :
      (turns : List Turn) (w i k raced : ℕ)
      → w < global_range s.test
      → is_specified_item_in_kernel s w ≡ true
      → 3 ≤ turns_of w turns
      → (run_kernel s turns).pc i ≡ retry k
      → k < retry_count
      → (take_turn s (run_kernel s turns) (record { item = i; stale = false; raced = raced })).pc i
        ≡ read_fence true ((run_kernel s turns).mem.released && s.fences.carries work_group s.test)
  unfolding take_turn item_step try_flag read_flag
  run_kernel-compares turns w i k raced h e three at_retry small =
      rw (at_retry, (==_iff i i).1 refl, lt→ltb k retry_count small, writer_done turns w h e three)
        refl

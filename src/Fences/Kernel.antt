-- ===== src/Fences/Kernel.antt =====
-- The kernel of `run_atomic_fence` in tests/atomic_fence/atomic_fence.cpp: its work-items, one step
-- of a work-item at a time, in any order.
-- A fence and an atomic access are SYCL's: which fences release and acquire, and which atomic
-- accesses carry what was released, are arguments. A read that no fence orders behind the write
-- that it races with may give any value.
pub mod Safety
pub mod Progress
use sycl_cts.Fences.Capabilities.{
  MemoryOrder, MemoryScope, acquire, release, same_order, work_group,
}
use sycl_cts.Prelude.{Bool, List, [], false, if◌then◌else◌, ltb, not, true, ℕ, ◌&&◌, ◌+◌, ◌==◌, ◌∷◌}

pub data TestType : Type 0 where
  single_group between_groups : TestType

abbrev pub expected_val : ℕ
expected_val = 42

abbrev pub retry_count : ℕ
retry_count = 256

-- What the implementation's fences and atomic accesses do between the items of such a test.
pub record Fences : Type 0 where
  pub releases : MemoryOrder → MemoryScope → TestType → Bool
  pub acquires : MemoryOrder → MemoryScope → TestType → Bool
  pub carries : MemoryScope → TestType → Bool

-- The template arguments, with the contents of local memory before the kernel writes to it.
pub record Setup : Type 0 where
  pub order : MemoryOrder
  pub scope : MemoryScope
  pub test : TestType
  pub fences : Fences
  pub local_flag : ℕ
  pub local_data : ℕ
  pub leader : ℕ → Bool

-- `get_accessor`: local memory, which nothing initializes, or the buffer with what the host put
-- into it.
unfoldable pub get_accessor : TestType → ℕ → ℕ → ℕ
get_accessor single_group contents host = contents
get_accessor between_groups contents host = host

unfoldable pub order_read : MemoryOrder → MemoryOrder
unfolding same_order
order_read order = if same_order release order then acquire else order

unfoldable pub global_range : TestType → ℕ
global_range single_group = 2
global_range between_groups = 8

-- The item's place is its global linear id.
unfoldable pub is_specified_item_in_kernel : Setup → ℕ → Bool
is_specified_item_in_kernel s item = elim (s.test) [
  | single_group ↦ s.leader item
  | between_groups ↦ item == 0
]

-- `released` belongs to the last write of the flag: a fence that releases stood before it.
pub record Memory : Type 0 where
  pub sync_flag : ℕ
  pub released : Bool
  pub stored : ℕ
  pub res : Bool

-- Where an item stands. `happened` is `write_happened`.
pub data Pc : Type 0 where
  write_data write_fence : Pc
  write_flag : (released : Bool) → Pc
  retry : (i : ℕ) → Pc
  read_fence : (happened carried : Bool) → Pc
  read_data : (happened ordered : Bool) → Pc
  finished : Pc

-- The next item, whether an atomic read gives the flag's first value, and what a race reads.
pub record Turn : Type 0 where
  pub item : ℕ
  pub stale : Bool
  pub raced : ℕ

unfoldable pub first_flag : Setup → ℕ
unfolding get_accessor
first_flag s = get_accessor s.test s.local_flag 0

-- The value that the atomic read gives, and whether the read carries what was released.
unfoldable pub read_flag : Setup → Turn → Memory → ℕ × Bool
unfolding first_flag
read_flag s t m =
    if t.stale
    then (first_flag s, false)
    else (m.sync_flag, m.released && s.fences.carries work_group s.test)

unfoldable pub try_flag : Setup → Turn → Memory → ℕ → Pc
unfolding read_flag
try_flag s t m i =
    let (value, carried) = read_flag s t m in
    if value == 1 then read_fence true carried else retry (i + 1)

unfoldable pub compare_data : Turn → Memory → Bool → Memory
compare_data t m ordered =
    if (if ordered then m.stored else t.raced) == expected_val then m else record m { res = false }

unfoldable pub item_step : Setup → Turn → Memory → Pc → Memory × Pc
unfolding try_flag compare_data order_read
item_step s t m write_data = (record m { stored = expected_val }, write_fence)
item_step s t m write_fence = (m, write_flag (s.fences.releases s.order s.scope s.test))
item_step s t m (write_flag released) = (record m { sync_flag = 1; released = released }, finished)
item_step s t m (retry i) =
    (m, if ltb i retry_count then try_flag s t m i else read_fence false false)
item_step s t m (read_fence happened carried) =
    (m, read_data happened (carried && s.fences.acquires (order_read s.order) s.scope s.test))
item_step s t m (read_data happened ordered) =
    (if happened then compare_data t m ordered else m, finished)
item_step s t m finished = (m, finished)

pub record System : Type 0 where
  pub mem : Memory
  pub pc : ℕ → Pc

abbrev pub update : (ℕ → Pc) → ℕ → Pc → ℕ → Pc
update pc i p j = if i == j then p else pc j

unfoldable pub take_turn : Setup → System → Turn → System
unfolding item_step
take_turn s y t =
    let (mem, p) = item_step s t y.mem (y.pc t.item) in
    record { mem = mem; pc = update y.pc t.item p }

-- An item that is not of the range has nothing to do.
unfoldable pub start : Setup → System
unfolding get_accessor first_flag global_range is_specified_item_in_kernel
start s = record {
  mem = record {
    sync_flag = first_flag s;
    released = false;
    stored = get_accessor s.test s.local_data 0;
    res = true;
  };
  pc = λ i.
      if not (ltb i (global_range s.test))
      then finished
      else if is_specified_item_in_kernel s i
      then write_data
      else retry 0;
}

-- A run of the kernel: the items' steps, in the order given.
unfoldable pub run_turns : Setup → List Turn → System → System
unfolding take_turn
run_turns s [] y = y
run_turns s (t ∷ turns) y = run_turns s turns (take_turn s y t)

unfoldable pub run_kernel : Setup → List Turn → System
unfolding run_turns start
run_kernel s turns = run_turns s turns (start s)

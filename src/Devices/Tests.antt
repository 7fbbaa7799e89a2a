-- ===== src/Devices/Tests.antt =====
-- Restrictions, aspects and sets of devices on concrete values.
use sycl_cts.Devices.DeviceManager.{ChosenDevice, dump_info, dumped_type, gpu_type, supported}
use sycl_cts.Devices.DeviceManager.Laws.{dump_info-split, lacks, quote, split}
use sycl_cts.Devices.Text.{Text, text}
use sycl_cts.Prelude.{
  [], ap, arith, false, get_or, not, refl, some, true, ℕ, ◌%◌, ◌&&◌, ◌+◌, ◌==◌, ◌||◌, ◌∷◌, ◌≡◌,
}
use sycl_cts.Devices.Aspects.{Aspect, cpu, fp16, fp64, gpu, map_name, names_of, unnamed}
use sycl_cts.Devices.Restrictions.{Device, KernelRestrictions, is_compatible}
use sycl_cts.Devices.Restrictions.Compatible.{is_compatible-verdict, missing, verdict}
use sycl_cts.Devices.DeviceSet.{DeviceSet, intersect, join_set, substract}
use sycl_cts.Devices.DeviceSet.Laws.{Combined, set_operations}

abbrev rank : Aspect → ℕ
rank cpu = 1
rank gpu = 2
rank fp16 = 5
rank fp64 = 6
rank (unnamed n) = 100 + n
rank other = 0

abbrev show : ℕ → Text
show n = (48 + n % 10) ∷ []

-- A CPU with double precision, sub-groups of 8 and work-groups of up to 256 items.
abbrev a_cpu : Device
a_cpu = record {
  has = λ a. rank a == 1 || rank a == 6;
  sub_group_sizes = 8 ∷ [];
  max_work_group_size = 256;
}

abbrev half_and_double : KernelRestrictions
half_and_double = record {
  m_aspects = fp16 ∷ fp64 ∷ [];
  has_sub_group_size = true;
  sub_group_size = 8;
  work_group_size = 16 ∷ 16 ∷ 1 ∷ [];
  work_group_size_dims = 2;
}

is_compatible-verdict_example :
    verdict rank show (is_compatible rank show half_and_double a_cpu []) ≡ some false
unfolding names_of missing map_name
is_compatible-verdict_example =
    is_compatible-verdict rank show half_and_double a_cpu [] (omega arith, (tt, tt))

abbrev one_and_two : DeviceSet
one_and_two = record { m_context = 0; m_devices = 1 ∷ 2 ∷ [] }

abbrev two_and_three : DeviceSet
two_and_three = record { m_context = 0; m_devices = 2 ∷ 3 ∷ [] }

set_operations_example :
    Combined one_and_two two_and_three (join_set one_and_two two_and_three) (λ a b. b || a)
    × Combined one_and_two two_and_three (substract one_and_two two_and_three) (λ a b. a && not b)
    × Combined one_and_two two_and_three (intersect one_and_two two_and_three) (λ a b. a && b)
set_operations_example = set_operations one_and_two two_and_three

abbrev a_gpu : ChosenDevice
a_gpu = record {
  name = text "G";
  vendor = text "V";
  device_type = gpu_type;
  version = text "3.0";
  has_fp16 = true;
  has_fp64 = false;
  has_atomic64 = true;
  platform_name = text "P";
  platform_vendor = text "W";
  platform_version = text "1";
}

dump_info-split_example : get_or (split quote (dump_info a_gpu)) 23 [] ≡ text "Not Supported"
unfolding dumped_type supported lacks
dump_info-split_example =
    ap (λ parts. get_or parts 23 []) (dump_info-split a_gpu refl refl refl refl refl refl)

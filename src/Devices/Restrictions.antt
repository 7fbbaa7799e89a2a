-- ===== src/Devices/Restrictions.antt =====
-- util/kernel_restrictions.h and kernel_restrictions.cpp. An exception is `none`. The queries of a
-- device and `std::to_string` of a number are parameters.
pub mod Compatible
use mathlib.Core.Option
use sycl_cts.Devices.Aspects
use sycl_cts.Devices.Text.{Text, drop_last, text}
use sycl_cts.Machine.{modulus, w64}
use sycl_cts.Prelude.{
  Bool, List, Option, [], drop, false, if◌then◌else◌, leb, length, ltb, some, take, true, ℕ, ◌%◌,
  ◌*◌, ◌++◌, ◌==◌, ◌||◌, ◌∷◌,
}
use sycl_cts.Devices.Aspects.{Aspect, AspectSet, insert, insert_all}

-- What is asked of a `sycl::device`.
pub record Device : Type 0 where
  pub has : Aspect → Bool
  pub sub_group_sizes : List ℕ
  pub max_work_group_size : ℕ

-- `size_t work_group_size[3]` and `std::pair<bool, size_t> sub_group_size`, each by its parts.
pub record KernelRestrictions : Type 0 where
  pub m_aspects : AspectSet
  pub has_sub_group_size : Bool
  pub sub_group_size : ℕ
  pub work_group_size : List ℕ
  pub work_group_size_dims : ℕ

-- `reset` leaves the sizes as they are: they count only behind the flag and the dimensions.
pub reset : KernelRestrictions → KernelRestrictions
reset k = record k { m_aspects = []; has_sub_group_size = false; work_group_size_dims = 0 }

pub set_aspects : AspectSet → KernelRestrictions → KernelRestrictions
set_aspects value k = record k { m_aspects = value }

pub set_sub_group_size : ℕ → KernelRestrictions → KernelRestrictions
set_sub_group_size value k = record k { sub_group_size = value; has_sub_group_size = true }

-- The first `dims` entries of the array are those of `value`, which has `dims` of them.
pub set_work_group_size : List ℕ → KernelRestrictions → KernelRestrictions
set_work_group_size value k = record k {
  work_group_size = value ++ drop (length value) k.work_group_size;
  work_group_size_dims = length value;
}

-- The loop `requested *= work_group_size[dim]` in `size_t`.
pub product_loop : ℕ → List ℕ → ℕ
product_loop requested [] = requested
product_loop requested (n ∷ sizes) = product_loop (requested * n % modulus w64) sizes

pub requested_size : KernelRestrictions → ℕ
unfolding product_loop
requested_size k = product_loop 1 (take k.work_group_size_dims k.work_group_size)

pub find_size : ℕ → List ℕ → Bool
find_size n [] = false
find_size n (m ∷ sizes) = m == n || find_size n sizes

module _ (rank : Aspect → ℕ) (show : ℕ → Text) where
  pub add_aspect : Aspect → KernelRestrictions → KernelRestrictions
  unfolding insert
  add_aspect asp k = record k { m_aspects = insert rank asp k.m_aspects }

  pub add_aspects : AspectSet → KernelRestrictions → KernelRestrictions
  unfolding insert_all
  add_aspects asp k = record k { m_aspects = insert_all rank asp k.m_aspects }

  -- The loop over the aspects, with the set of those that are missing.
  pub missing_loop : Device → AspectSet → AspectSet → AspectSet
  unfolding insert
  missing_loop device incompat_aspects [] = incompat_aspects
  missing_loop device incompat_aspects (asp ∷ rest) =
      missing_loop device
        (if device.has asp then incompat_aspects else insert rank asp incompat_aspects) rest

  -- `compatible` and `info` behind each of the three checks.
  pub report_aspects : AspectSet → Text → Option (Bool × Text)
  unfolding Aspects.to_string
  report_aspects [] info = some (true, info)
  report_aspects (asp ∷ rest) info =
      Option.map
        (λ names. (false, info ++ text "incompatible with aspects: (" ++ names ++ text "); "))
        (Aspects.to_string (asp ∷ rest))

  pub check_aspects : KernelRestrictions → Device → Text → Option (Bool × Text)
  unfolding missing_loop report_aspects
  check_aspects k device info = report_aspects (missing_loop device [] k.m_aspects) info

  pub check_sub_group_size : KernelRestrictions → Device → Bool × Text → Bool × Text
  unfolding find_size
  check_sub_group_size k device (compatible, info) =
      if k.has_sub_group_size
      then (if find_size k.sub_group_size device.sub_group_sizes then (compatible, info) else (
        false,
        info ++ text "incompatible with sub_group_size: (" ++ show k.sub_group_size ++ text "); ",
      ))
      else (compatible, info)

  pub check_work_group_size : KernelRestrictions → Device → Bool × Text → Bool × Text
  unfolding requested_size
  check_work_group_size k device (compatible, info) =
      if ltb 0 k.work_group_size_dims
      then (if leb (requested_size k) device.max_work_group_size then (compatible, info) else (
        false,
        info ++ text "incompatible with work_group_size (" ++ show (requested_size k) ++ text ");",
      ))
      else (compatible, info)

  abbrev pub compatible_text : Text
  compatible_text = text "compatible with kernel_restrictions"

  abbrev pub final_info : Bool × Text → Bool × Text
  final_info (compatible, info) = (compatible, if compatible then compatible_text else info)

  unfoldable pub is_compatible : KernelRestrictions → Device → Text → Option (Bool × Text)
  unfolding check_aspects check_sub_group_size check_work_group_size
  is_compatible k device info =
      Option.map
        (λ checked.
          final_info (check_work_group_size k device (check_sub_group_size k device checked)))
        (check_aspects k device info)

  -- The loop that writes the sizes, each with a comma behind it.
  pub show_sizes : Text → List ℕ → Text
  show_sizes result [] = result
  show_sizes result (n ∷ sizes) = show_sizes (result ++ show n ++ text ",") sizes

  abbrev aspects_text : AspectSet → Option Text
  aspects_text [] = some []
  aspects_text (asp ∷ rest) =
      Option.map (λ names. text "aspects (" ++ names ++ text ") ") (Aspects.to_string (asp ∷ rest))

  unfoldable pub to_string : KernelRestrictions → Option Text
  unfolding show_sizes requested_size
  to_string k =
      Option.map
        (λ aspects.
          aspects
          ++ (if k.has_sub_group_size
              then text "sub_group_size (" ++ show k.sub_group_size ++ text ") "
              else [])
          ++ (if ltb 0 k.work_group_size_dims
              then drop_last 1 (
                  show_sizes (text "work_group_size (")
                    (take k.work_group_size_dims k.work_group_size))
                ++ text ") = total ("
                ++ show (requested_size k)
                ++ text ")"
              else []))
        (aspects_text k.m_aspects)

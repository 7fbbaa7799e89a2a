-- ===== src/Devices/DeviceSet.antt =====
-- util/device_set.h and device_set.cpp. A device and a context are what `==` compares: a number.
-- The hash set is a list with no device twice, whose order the laws do not depend on. The queries
-- of a device are a parameter, and an exception is `none`.
pub mod Laws
use mathlib.Core.Option
use sycl_cts.Devices.Text.{Text}
use sycl_cts.Prelude.{
  Bool, List, Option, [], false, if◌then◌else◌, none, not, some, ℕ, ◌==◌, ◌||◌, ◌∷◌,
}
use sycl_cts.Devices.Aspects.{Aspect}
use sycl_cts.Devices.Restrictions.{Device, KernelRestrictions, is_compatible}

pub record DeviceSet : Type 0 where
  pub m_context : ℕ
  pub m_devices : List ℕ

unfoldable pub contains : List ℕ → ℕ → Bool
contains [] d = false
contains (x ∷ xs) d = d == x || contains xs d

-- `m_devices.insert(device)`
pub insert_device : ℕ → List ℕ → List ℕ
unfolding contains
insert_device d devices = if contains devices d then devices else d ∷ devices

pub insert_devices : List ℕ → List ℕ → List ℕ
unfolding insert_device
insert_devices [] devices = devices
insert_devices (d ∷ rest) devices = insert_devices rest (insert_device d devices)

-- `m_devices.erase(device)`
pub erase_device : ℕ → List ℕ → List ℕ
erase_device d [] = []
erase_device d (x ∷ xs) = if d == x then erase_device d xs else x ∷ erase_device d xs

pub erase_devices : List ℕ → List ℕ → List ℕ
unfolding erase_device
erase_devices [] devices = devices
erase_devices (d ∷ rest) devices = erase_devices rest (erase_device d devices)

-- `util::erase_if` of util/cpp_compat.h.
pub erase_if : (ℕ → Bool) → List ℕ → List ℕ
erase_if condition [] = []
erase_if condition (x ∷ xs) =
    if condition x then erase_if condition xs else x ∷ erase_if condition xs

-- The constructor, from the context and the devices that it returns.
pub device_set : ℕ → List ℕ → DeviceSet
unfolding insert_devices
device_set ctx devices = record { m_context = ctx; m_devices = insert_devices devices [] }

pub join_set : DeviceSet → DeviceSet → Option DeviceSet
unfolding insert_devices
join_set s other =
    if s.m_context == other.m_context
    then some (record s { m_devices = insert_devices other.m_devices s.m_devices })
    else none

pub substract : DeviceSet → DeviceSet → Option DeviceSet
unfolding erase_devices
substract s other =
    if s.m_context == other.m_context
    then some (record s { m_devices = erase_devices other.m_devices s.m_devices })
    else none

pub intersect : DeviceSet → DeviceSet → Option DeviceSet
unfolding erase_if contains
intersect s other =
    if s.m_context == other.m_context
    then some
        (record s { m_devices = erase_if (λ d. not (contains other.m_devices d)) s.m_devices })
    else none

abbrev pub get_devices : DeviceSet → List ℕ
get_devices s = s.m_devices

module _ (rank : Aspect → ℕ) (show : ℕ → Text) (device : ℕ → Device) where
  pub remove_devs_with : Aspect → DeviceSet → DeviceSet
  unfolding erase_if
  remove_devs_with aspect s = record s {
    m_devices = erase_if (λ d. (device d).has aspect) s.m_devices;
  }

  pub remove_devs_with_all : List Aspect → DeviceSet → DeviceSet
  unfolding remove_devs_with
  remove_devs_with_all [] s = s
  remove_devs_with_all (aspect ∷ rest) s = remove_devs_with_all rest (remove_devs_with aspect s)

  pub remove_devs_without : Aspect → DeviceSet → DeviceSet
  unfolding erase_if
  remove_devs_without aspect s = record s {
    m_devices = erase_if (λ d. not ((device d).has aspect)) s.m_devices;
  }

  -- `filtered` copies the set and removes from the copy.
  pub filtered : DeviceSet → Aspect → DeviceSet
  unfolding remove_devs_without
  filtered other aspect = remove_devs_without aspect other

  -- The devices that the restrictions are compatible with; a query that throws ends the removal.
  pub keep_compatible : KernelRestrictions → List ℕ → Option (List ℕ)
  unfolding is_compatible
  keep_compatible k [] = some []
  keep_compatible k (d ∷ rest) = elim (is_compatible rank show k (device d) []) [
    | none ↦ none
    | some (compatible, info) ↦
        Option.map (λ kept. if compatible then d ∷ kept else kept) (keep_compatible k rest)
  ]

  pub remove_incompatible : KernelRestrictions → DeviceSet → Option DeviceSet
  unfolding keep_compatible
  remove_incompatible k s =
      Option.map (λ kept. record s { m_devices = kept }) (keep_compatible k s.m_devices)

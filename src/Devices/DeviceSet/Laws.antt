-- ===== src/Devices/DeviceSet/Laws.antt =====
-- What the operations of a set of devices do to its members, and that no device stands twice.
use sycl_cts.Devices.Restrictions.{Device}
use sycl_cts.Devices.Aspects.{Aspect}
use sycl_cts.Devices.Text.{Text}
use sycl_cts.Prelude.{
  Bool, Bool-cases, List, Option, [], ap, arith, false, inl, inr, none, not, refl, some, ℕ, ◌&&◌,
  ◌==◌, ◌||◌, ◌∷◌, ◌≡◌, ◌≢◌,
}
use sycl_cts.Devices.DeviceSet.{
  DeviceSet, contains, erase_device, erase_devices, erase_if, filtered, insert_device,
  insert_devices, intersect, join_set, remove_devs_with, remove_devs_with_all, remove_devs_without,
  substract,
}

-- No device stands twice.
abbrev pub IsSetOf : List ℕ → Type 0
IsSetOf [] = Unit
IsSetOf (x ∷ xs) = (contains xs x ≡ false) × IsSetOf xs

contains-insert_devices :
    (ds devices : List ℕ) (d : ℕ)
    → contains (insert_devices ds devices) d ≡ (contains ds d || contains devices d)
unfolding insert_devices insert_device contains
contains-insert_devices [] devices d = refl
contains-insert_devices (x ∷ ds) devices d =
    ground
      (arith, contains-insert_devices ds (insert_device x devices) d, contains_same devices d x)
  where
    contains_same : (xs : List ℕ) (a b : ℕ) → a ≡ b → contains xs a ≡ contains xs b
    contains_same xs a b e = ap (contains xs) e

contains-erase_if :
    (condition : ℕ → Bool) (xs : List ℕ) (d : ℕ)
    → contains (erase_if condition xs) d ≡ (contains xs d && not (condition d))
unfolding erase_if contains
contains-erase_if condition [] d = refl
contains-erase_if condition (x ∷ xs) d = ground (arith, contains-erase_if condition xs d)

contains-erase_device :
    (x : ℕ) (xs : List ℕ) (d : ℕ) → contains (erase_device x xs) d ≡ (contains xs d && not (d == x))
unfolding erase_device contains
contains-erase_device x [] d = refl
contains-erase_device x (y ∷ xs) d = ground (arith, contains-erase_device x xs d)

contains-erase_devices :
    (ds devices : List ℕ) (d : ℕ)
    → contains (erase_devices ds devices) d ≡ (contains devices d && not (contains ds d))
unfolding erase_devices contains
contains-erase_devices [] devices d = ground arith
contains-erase_devices (x ∷ ds) devices d =
    ground (
      arith,
      contains-erase_devices ds (erase_device x devices) d,
      contains-erase_device x devices d,
    )

erase_if-IsSetOf :
    (condition : ℕ → Bool) (xs : List ℕ) → IsSetOf xs → IsSetOf (erase_if condition xs)
unfolding erase_if
erase_if-IsSetOf condition [] h = tt
erase_if-IsSetOf condition (x ∷ xs) h =
    ground (arith, erase_if-IsSetOf condition xs, contains-erase_if condition xs x)

erase_device-IsSetOf : (d : ℕ) (xs : List ℕ) → IsSetOf xs → IsSetOf (erase_device d xs)
unfolding erase_device
erase_device-IsSetOf d [] h = tt
erase_device-IsSetOf d (x ∷ xs) h =
    ground (arith, erase_device-IsSetOf d xs, contains-erase_device d xs x)

erase_devices-IsSetOf : (ds xs : List ℕ) → IsSetOf xs → IsSetOf (erase_devices ds xs)
unfolding erase_devices
erase_devices-IsSetOf [] xs h = h
erase_devices-IsSetOf (d ∷ ds) xs h =
    erase_devices-IsSetOf ds (erase_device d xs) (erase_device-IsSetOf d xs h)

insert_devices-IsSetOf : (ds xs : List ℕ) → IsSetOf xs → IsSetOf (insert_devices ds xs)
unfolding insert_devices insert_device
insert_devices-IsSetOf [] xs h = h
insert_devices-IsSetOf (d ∷ ds) xs h = insert_devices-IsSetOf ds (insert_device d xs) (ground arith)

-- What a set and another make, over the same context and over different ones.
abbrev pub Combined : DeviceSet → DeviceSet → Option DeviceSet → (Bool → Bool → Bool) → Type 0
Combined s other (some t) member =
    (s.m_context ≡ other.m_context)
    × (t.m_context ≡ s.m_context)
    × ((d : ℕ)
        → contains t.m_devices d ≡ member (contains s.m_devices d) (contains other.m_devices d))
    × (IsSetOf s.m_devices → IsSetOf t.m_devices)
Combined s other none member = s.m_context ≢ other.m_context

-- `join` is the union, `substract` the difference and `intersect` the intersection of the devices
-- of two sets over one context, which stays; no device stands twice if none did. Over different
-- contexts each of them throws.
pub set_operations :
    (s other : DeviceSet)
    → Combined s other (join_set s other) (λ a b. b || a)
      × Combined s other (substract s other) (λ a b. a && not b)
      × Combined s other (intersect s other) (λ a b. a && b)
unfolding join_set substract intersect
set_operations s other = elim (Bool-cases (s.m_context == other.m_context)) [
  | inr e ↦ rw e (ground arith, ground arith, ground arith)
  | inl e ↦ rw e (
    (
      ground arith,
      refl,
      λ d. contains-insert_devices other.m_devices s.m_devices d,
      λ h. insert_devices-IsSetOf other.m_devices s.m_devices h,
    ),
    (
      ground arith,
      refl,
      λ d. contains-erase_devices other.m_devices s.m_devices d,
      λ h. erase_devices-IsSetOf other.m_devices s.m_devices h,
    ),
    (
      ground arith,
      refl,
      λ d. ground (arith, contains-erase_if (λ d. not (contains other.m_devices d)) s.m_devices d),
      λ h. erase_if-IsSetOf (λ d. not (contains other.m_devices d)) s.m_devices h,
    ),
  )
]

-- Whether a device has one of the aspects.
unfoldable pub has_any : (Aspect → Bool) → List Aspect → Bool
has_any has [] = false
has_any has (a ∷ rest) = has a || has_any has rest

module _ (rank : Aspect → ℕ) (show : ℕ → Text) (device : ℕ → Device) where
  -- `filtered` keeps the devices with an aspect, and `removeDevsWith` those without it.
  pub filtered_split :
      (s : DeviceSet) (a : Aspect) (d : ℕ)
      → (contains (filtered rank show device s a).m_devices d
          ≡ (contains s.m_devices d && (device d).has a))
        × (contains (remove_devs_with rank show device a s).m_devices d
            ≡ (contains s.m_devices d && not ((device d).has a)))
  unfolding filtered remove_devs_without remove_devs_with
  filtered_split s a d = (
    ground (arith, contains-erase_if (λ d. not ((device d).has a)) s.m_devices d),
    contains-erase_if (λ d. (device d).has a) s.m_devices d,
  )

  -- `removeDevsWith` of a list of aspects keeps the devices that have none of them.
  remove_devs_with_all_lem :
      (aspects : List Aspect) (s : DeviceSet) (d : ℕ)
      → contains (remove_devs_with_all rank show device aspects s).m_devices d
        ≡ (contains s.m_devices d && not (has_any (device d).has aspects))
  unfolding remove_devs_with_all has_any
  remove_devs_with_all_lem [] s d = ground arith
  remove_devs_with_all_lem (a ∷ rest) s d = ground (
    arith,
    remove_devs_with_all_lem rest (remove_devs_with rank show device a s) d,
    (filtered_split s a d).1,
  )

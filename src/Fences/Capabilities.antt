-- ===== src/Fences/Capabilities.antt =====
-- The checks of a device's capabilities in tests/atomic_fence/atomic_fence.cpp. What the device
-- answers is an argument.
use sycl_cts.Prelude.{
  ==_iff, Bool, Bool-cases, List, [], ap, arith, false, if◌then◌else◌, inl, inr, not, refl, sym,
  true, ℕ, ◌&&◌, ◌==◌, ◌||◌, ◌↔◌, ◌∙◌, ◌∷◌, ◌≡◌, ◌⊎◌,
}

pub data MemoryOrder : Type 0 where
  relaxed acquire release acq_rel seq_cst : MemoryOrder

pub data MemoryScope : Type 0 where
  work_item sub_group work_group device system : MemoryScope

order_index : MemoryOrder → ℕ
order_index relaxed = 0
order_index acquire = 1
order_index release = 2
order_index acq_rel = 3
order_index seq_cst = 4

scope_index : MemoryScope → ℕ
scope_index work_item = 0
scope_index sub_group = 1
scope_index work_group = 2
scope_index device = 3
scope_index system = 4

unfoldable pub same_order : MemoryOrder → MemoryOrder → Bool
unfolding order_index
same_order a b = order_index a == order_index b

pub same_scope : MemoryScope → MemoryScope → Bool
unfolding scope_index
same_scope a b = scope_index a == scope_index b

-- `std::find(values.begin(), values.end(), value) != values.end()`
find {ℓ} : {A : Type ℓ} → (A → A → Bool) → List A → A → Bool
find same [] value = false
find same (x ∷ values) value = same x value || find same values value

pub check_atomic_fence_order_capability : List MemoryOrder → MemoryOrder → Bool
unfolding find
check_atomic_fence_order_capability orders order = find same_order orders order

pub check_atomic_fence_scope_capability : List MemoryScope → MemoryScope → Bool
unfolding find
check_atomic_fence_scope_capability scopes scope = find same_scope scopes scope

-- A release fence is tested with an acquire fence, so both are wanted.
pub check_memory_order_scope_capabilities :
    List MemoryOrder → List MemoryScope → MemoryOrder → MemoryScope → Bool
unfolding check_atomic_fence_order_capability check_atomic_fence_scope_capability
check_memory_order_scope_capabilities orders scopes order scope =
    if not (check_atomic_fence_order_capability orders order)
    then false
    else if same_order release order && not (check_atomic_fence_order_capability orders acquire)
    then false
    else if not (check_atomic_fence_scope_capability scopes scope)
    then false
    else true

abbrev pub IsAmong : {A : Type 0} → A → List A → Type 0
IsAmong a [] = ⊥
IsAmong a (x ∷ xs) = (x ≡ a) ⊎ IsAmong a xs

order_at : ℕ → MemoryOrder
order_at n =
    if n == 0
    then relaxed
    else if n == 1
    then acquire
    else if n == 2
    then release
    else if n == 3
    then acq_rel
    else seq_cst

scope_at : ℕ → MemoryScope
scope_at n =
    if n == 0
    then work_item
    else if n == 1
    then sub_group
    else if n == 2
    then work_group
    else if n == 3
    then device
    else system

order_at-index : (a : MemoryOrder) → order_at (order_index a) ≡ a
unfolding order_at order_index
order_at-index relaxed = refl
order_at-index acquire = refl
order_at-index release = refl
order_at-index acq_rel = refl
order_at-index seq_cst = refl

scope_at-index : (a : MemoryScope) → scope_at (scope_index a) ≡ a
unfolding scope_at scope_index
scope_at-index work_item = refl
scope_at-index sub_group = refl
scope_at-index work_group = refl
scope_at-index device = refl
scope_at-index system = refl

same_order_iff : (a b : MemoryOrder) → (same_order a b ≡ true) ↔ (a ≡ b)
unfolding same_order
same_order_iff a b = (
  λ e. sym (order_at-index a) ∙ ap order_at ((==_iff _ _).0 e) ∙ order_at-index b,
  λ e. (==_iff _ _).1 (ap order_index e),
)

same_scope_iff : (a b : MemoryScope) → (same_scope a b ≡ true) ↔ (a ≡ b)
unfolding same_scope
same_scope_iff a b = (
  λ e. sym (scope_at-index a) ∙ ap scope_at ((==_iff _ _).0 e) ∙ scope_at-index b,
  λ e. (==_iff _ _).1 (ap scope_index e),
)

find_iff :
    {A : Type 0} (same : A → A → Bool) (iff : (a b : A) → (same a b ≡ true) ↔ (a ≡ b))
    (values : List A) (value : A)
    → (find same values value ≡ true) ↔ IsAmong value values
unfolding find
find_iff same iff [] value = (λ e. cc, λ h. absurd h)
find_iff same iff (x ∷ values) value = elim (Bool-cases (same x value)) [
  | inl e ↦ (λ h. inl ((iff x value).0 e), λ h. rw e)
  | inr e ↦
      let rest = find_iff same iff values value in
      (
        λ h. inr (rest.0 (rw e at h)),
        λ h. elim h [ inl here ↦ cc ((iff x value).1 here) | inr later ↦ rw e (rest.1 later) ],
      )
]

-- A combination is tested exactly if the device has its order and its scope and, for release, also
-- acquire.
pub check_memory_order_scope_capabilities_iff :
    (orders : List MemoryOrder) (scopes : List MemoryScope) (order : MemoryOrder)
    (scope : MemoryScope)
    → (check_memory_order_scope_capabilities orders scopes order scope ≡ true)
      ↔ (IsAmong order orders × (order ≡ release → IsAmong acquire orders) × IsAmong scope scopes)
unfolding check_memory_order_scope_capabilities
check_memory_order_scope_capabilities_iff orders scopes order scope = grind (
  arith,
  find_iff same_order same_order_iff orders order,
  find_iff same_order same_order_iff orders acquire,
  find_iff same_scope same_scope_iff scopes scope,
  same_order_iff release order,
)

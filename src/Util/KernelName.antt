-- ===== src/Util/KernelName.antt =====
-- `adapter` of util/kernel_names.h, where the fixed-width types are defined. The types and
-- `std::is_same_v` are parameters.
use sycl_cts.Prelude.{Bool, Bool-cases, ap, if◌then◌else◌, inl, inr, refl, sym, true, ◌∙◌, ◌≡◌}

-- The types that the library names.
pub record FixedTypes (𝕋 : Type 0) : Type 0 where
  pub is_same : 𝕋 → 𝕋 → Bool
  pub int8_type : 𝕋
  pub int16_type : 𝕋
  pub int32_type : 𝕋
  pub int64_type : 𝕋
  pub uint8_type : 𝕋
  pub uint16_type : 𝕋
  pub uint32_type : 𝕋
  pub uint64_type : 𝕋
  pub byte_type : 𝕋
  pub size_type : 𝕋

pub data Adapter (𝕋 : Type 0) : Type 0 where
  adapter_core : 𝕋 → Adapter 𝕋
  adapter_int8_t adapter_int16_t adapter_int32_t adapter_int64_t : Adapter 𝕋
  adapter_uint8_t adapter_uint16_t adapter_uint32_t adapter_uint64_t : Adapter 𝕋
  adapter_byte adapter_size_t : Adapter 𝕋

module _ {𝕋 : Type 0} (types : FixedTypes 𝕋) where
  pub adapter_helper : 𝕋 → Adapter 𝕋
  adapter_helper t =
      if types.is_same t types.int8_type
      then adapter_int8_t
      else if types.is_same t types.int16_type
      then adapter_int16_t
      else if types.is_same t types.int32_type
      then adapter_int32_t
      else if types.is_same t types.int64_type
      then adapter_int64_t
      else if types.is_same t types.uint8_type
      then adapter_uint8_t
      else if types.is_same t types.uint16_type
      then adapter_uint16_t
      else if types.is_same t types.uint32_type
      then adapter_uint32_t
      else if types.is_same t types.uint64_type
      then adapter_uint64_t
      else if types.is_same t types.byte_type
      then adapter_byte
      else if types.is_same t types.size_type
      then adapter_size_t
      else adapter_core t

  -- The type that an adapter stands for.
  pub adapted : Adapter 𝕋 → 𝕋
  adapted (adapter_core t) = t
  adapted adapter_int8_t = types.int8_type
  adapted adapter_int16_t = types.int16_type
  adapted adapter_int32_t = types.int32_type
  adapted adapter_int64_t = types.int64_type
  adapted adapter_uint8_t = types.uint8_type
  adapted adapter_uint16_t = types.uint16_type
  adapted adapter_uint32_t = types.uint32_type
  adapted adapter_uint64_t = types.uint64_type
  adapted adapter_byte = types.byte_type
  adapted adapter_size_t = types.size_type

  adapted-if :
      (same : (t u : 𝕋) → types.is_same t u ≡ true → t ≡ u) (t u : 𝕋) (a b : Adapter 𝕋)
      → adapted a ≡ u
      → adapted b ≡ t
      → adapted (if types.is_same t u then a else b) ≡ t
  adapted-if same t u a b h g = elim (Bool-cases (types.is_same t u)) [
    | inl e ↦ rw e (h ∙ sym (same t u e))
    | inr e ↦ rw e g
  ]

  adapted-adapter_helper :
      ((t u : 𝕋) → types.is_same t u ≡ true → t ≡ u) → (t : 𝕋) → adapted (adapter_helper t) ≡ t
  unfolding adapter_helper adapted
  adapted-adapter_helper same t = adapted-if same t types.int8_type _ _ refl (
      adapted-if same t types.int16_type _ _ refl (
        adapted-if same t types.int32_type _ _ refl (
          adapted-if same t types.int64_type _ _ refl (
            adapted-if same t types.uint8_type _ _ refl (
              adapted-if same t types.uint16_type _ _ refl (
                adapted-if same t types.uint32_type _ _ refl (
                  adapted-if same t types.uint64_type _ _ refl (
                    adapted-if same t types.byte_type _ _ refl
                      (adapted-if same t types.size_type _ _ refl refl)))))))))

  -- The type of a kernel name determines the type that it was made from, if `std::is_same_v` holds
  -- of no two types: different types have different names.
  adapter_helper-adapted :
      ((t u : 𝕋) → types.is_same t u ≡ true → t ≡ u)
      → (t u : 𝕋) → adapter_helper t ≡ adapter_helper u
      → t ≡ u
  adapter_helper-adapted same t u e =
      sym (adapted-adapter_helper same t) ∙ ap adapted e ∙ adapted-adapter_helper same u

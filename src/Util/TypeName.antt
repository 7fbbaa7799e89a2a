-- ===== src/Util/TypeName.antt =====
-- `type_name` of util/type_names.h. `typeid` of the type that a name stands for, and the name that
-- the implementation gives to a type, are parameters; a type is its `typeid`.
use sycl_cts.Devices.Text.{Text, text}
use sycl_cts.Prelude.{
  ==_iff, Bool-cases, List, [], ap, if◌then◌else◌, inl, inr, sym, ℕ, ◌==◌, ◌∙◌, ◌∷◌, ◌≡◌,
}

-- The names in the order of the tests.
unfoldable pub type_names : List Text
type_names =
    text "float"
    ∷ text "double"
    ∷ text "half"
    ∷ text "int8_t"
    ∷ text "uint8_t"
    ∷ text "int16_t"
    ∷ text "uint16_t"
    ∷ text "int32_t"
    ∷ text "uint32_t"
    ∷ text "int64_t"
    ∷ text "uint64_t"
    ∷ text "size_t"
    ∷ text "char2"
    ∷ text "uchar2"
    ∷ text "char3"
    ∷ text "uchar3"
    ∷ text "char4"
    ∷ text "uchar4"
    ∷ text "char8"
    ∷ text "uchar8"
    ∷ text "char16"
    ∷ text "uchar16"
    ∷ text "short2"
    ∷ text "ushort2"
    ∷ text "short3"
    ∷ text "ushort3"
    ∷ text "short4"
    ∷ text "ushort4"
    ∷ text "short8"
    ∷ text "ushort8"
    ∷ text "short16"
    ∷ text "ushort16"
    ∷ text "int2"
    ∷ text "uint2"
    ∷ text "int3"
    ∷ text "uint3"
    ∷ text "int4"
    ∷ text "uint4"
    ∷ text "int8"
    ∷ text "uint8"
    ∷ text "int16"
    ∷ text "uint16"
    ∷ text "long2"
    ∷ text "ulong2"
    ∷ text "long3"
    ∷ text "ulong3"
    ∷ text "long4"
    ∷ text "ulong4"
    ∷ text "long8"
    ∷ text "ulong8"
    ∷ text "long16"
    ∷ text "ulong16"
    ∷ text "float2"
    ∷ text "float3"
    ∷ text "float4"
    ∷ text "float8"
    ∷ text "float16"
    ∷ text "double2"
    ∷ text "double3"
    ∷ text "double4"
    ∷ text "double8"
    ∷ text "double16"
    ∷ []

module _ (type_id : Text → ℕ) (implementation_name : ℕ → Text) where
  pub first_name : List Text → ℕ → Text
  first_name [] t = implementation_name t
  first_name (name ∷ rest) t = if t == type_id name then name else first_name rest t

  pub type_name : ℕ → Text
  type_name t = first_name type_names t

  first_name-type_id :
      ((t : ℕ) → type_id (implementation_name t) ≡ t)
      → (names : List Text) (t : ℕ) → type_id (first_name names t) ≡ t
  unfolding first_name
  first_name-type_id own [] t = own t
  first_name-type_id own (name ∷ rest) t = elim (Bool-cases (t == type_id name)) [
    | inl e ↦ rw e (sym ((==_iff t (type_id name)).0 e))
    | inr e ↦ rw e (first_name-type_id own rest t)
  ]

  -- A name stands for the type that it was given to, if the implementation's own names do:
  -- different types have different names.
  type_name-type_id :
      ((t : ℕ) → type_id (implementation_name t) ≡ t)
      → (t u : ℕ) → type_name t ≡ type_name u
      → t ≡ u
  unfolding type_name
  type_name-type_id own t u e =
      sym (first_name-type_id own type_names t) ∙ ap type_id e ∙ first_name-type_id own type_names u

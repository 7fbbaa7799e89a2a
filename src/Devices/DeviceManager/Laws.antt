-- ===== src/Devices/DeviceManager/Laws.antt =====
-- The quoted texts of the file that dump_info writes.
use mathlib.Core.List.{append_assoc}
use mathlib.Core.Bool.{false≢true}
use sycl_cts.Devices.DeviceManager.{
  ChosenDevice, DeviceType, accelerator_type, all_types, automatic, cpu_type, custom_type,
  dump_info, dumped_type, gpu_type, host, supported,
}
use sycl_cts.Devices.Text.{Text, text}
use sycl_cts.Prelude.{
  Bool, Bool-cases, List, [], ap, arith, false, if◌then◌else◌, inl, inr, not, refl, sym, true, ℕ,
  ◌&&◌, ◌++◌, ◌==◌, ◌∙◌, ◌∷◌, ◌≡◌,
}

unfoldable pub prepend : ℕ → List Text → List Text
prepend x [] = (x ∷ []) ∷ []
prepend x (part ∷ parts) = (x ∷ part) ∷ parts

-- The parts of a text between the separators `c`.
unfoldable pub split : ℕ → Text → List Text
split c [] = [] ∷ []
split c (x ∷ xs) = if x == c then [] ∷ split c xs else prepend x (split c xs)

unfoldable pub lacks : ℕ → Text → Bool
lacks c [] = true
lacks c (x ∷ xs) = not (x == c) && lacks c xs

split-append :
    (c : ℕ) (part : Text)
    → lacks c part ≡ true
    → (rest : Text) → split c (part ++ c ∷ rest) ≡ part ∷ split c rest
unfolding split lacks prepend
split-append c [] h rest = ground arith
split-append c (x ∷ part) h rest = elim (Bool-cases (x == c)) [
  | inl e ↦ absurd (false≢true (sym (ap (λ b. not b && lacks c part) e) ∙ h))
  | inr e ↦
      rw e (ap (prepend x) (split-append c part (sym (ap (λ b. not b && lacks c part) e) ∙ h) rest))
]

abbrev pub quote : ℕ
quote = 34

dumped_type-lacks : (t : DeviceType) → lacks quote (dumped_type t) ≡ true
unfolding lacks dumped_type
dumped_type-lacks host = refl
dumped_type-lacks cpu_type = refl
dumped_type-lacks gpu_type = refl
dumped_type-lacks accelerator_type = refl
dumped_type-lacks custom_type = refl
dumped_type-lacks automatic = refl
dumped_type-lacks all_types = refl

supported-lacks : (b : Bool) → lacks quote (supported b) ≡ true
unfolding lacks supported
supported-lacks true = refl
supported-lacks false = refl

-- If no text of the device and its platform has a quotation mark, the parts of the file between the
-- quotation marks are the keys and the values, each value behind its key.
pub dump_info-split :
    (d : ChosenDevice)
    → lacks quote d.name ≡ true
    → lacks quote d.vendor ≡ true
    → lacks quote d.version ≡ true
    → lacks quote d.platform_name ≡ true
    → lacks quote d.platform_vendor ≡ true
    → lacks quote d.platform_version ≡ true
    → split quote (dump_info d)
      ≡ text "{"
        ∷ text "device-name"
        ∷ text ": "
        ∷ d.name
        ∷ text ", "
        ∷ text "device-vendor"
        ∷ text ": "
        ∷ d.vendor
        ∷ text ", "
        ∷ text "device-type"
        ∷ text ": "
        ∷ dumped_type d.device_type
        ∷ text ", "
        ∷ text "device-version"
        ∷ text ": "
        ∷ d.version
        ∷ text ", "
        ∷ text "device-fp16"
        ∷ text ": "
        ∷ supported d.has_fp16
        ∷ text ", "
        ∷ text "device-fp64"
        ∷ text ": "
        ∷ supported d.has_fp64
        ∷ text ", "
        ∷ text "device-atomic64"
        ∷ text ": "
        ∷ supported d.has_atomic64
        ∷ text ", "
        ∷ text "platform-name"
        ∷ text ": "
        ∷ d.platform_name
        ∷ text ", "
        ∷ text "platform-vendor"
        ∷ text ": "
        ∷ d.platform_vendor
        ∷ text ", "
        ∷ text "platform-version"
        ∷ text ": "
        ∷ d.platform_version
        ∷ text "}"
        ∷ []
unfolding dump_info split prepend
dump_info-split d h₁ h₂ h₃ h₄ h₅ h₆ = simp (
  append_assoc,
  split-append quote d.name h₁,
  split-append quote d.vendor h₂,
  split-append quote (dumped_type d.device_type) (dumped_type-lacks d.device_type),
  split-append quote d.version h₃,
  split-append quote (supported d.has_fp16) (supported-lacks d.has_fp16),
  split-append quote (supported d.has_fp64) (supported-lacks d.has_fp64),
  split-append quote (supported d.has_atomic64) (supported-lacks d.has_atomic64),
  split-append quote d.platform_name h₄,
  split-append quote d.platform_vendor h₅,
  split-append quote d.platform_version h₆,
)

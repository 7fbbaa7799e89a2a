-- ===== src/Reference/RotateSigned.antt =====
-- `rotate` of util/math_reference.h, for signed types.
use sycl_cts.Machine.{Width, and_signed, num_bits, or_signed, promote, to_unsigned, wrap}
use sycl_cts.Prelude.{if◌then◌else◌, negsuc, pos, ℕ, ℤ, ◌%◌, ◌*ℤ◌, ◌-ℤ◌, ◌-◌, ◌/◌, ◌==◌, ◌^◌}
pub mod LowPart
pub mod Pattern

-- `v >> k` of a signed value rounds down.
unfoldable pub shift_right : ℤ → ℕ → ℤ
shift_right (pos n) k = pos (n / 2 ^ k)
shift_right (negsuc n) k = negsuc (n / 2 ^ k)

-- `T((T(1) << i_mod) - T(1))`
unfoldable pub low_mask : Width → ℕ → ℤ
low_mask w turn = wrap w (wrap (promote w) (wrap (promote w) (pos (2 ^ turn)) -ℤ pos 1))

-- Shifts, `&` and `|` are those of the promoted type.
unfoldable pub rotate_signed : Width → ℤ → ℤ → ℤ
unfolding shift_right low_mask
rotate_signed w v i =
    let turn = to_unsigned w i % num_bits w in
    if turn == 0
    then v
    else wrap w (
        or_signed (promote w) (wrap (promote w) (v *ℤ pos (2 ^ turn)))
          (and_signed (promote w) (shift_right v (num_bits w - turn)) (low_mask w turn)))

-- ===== src/Reference/Upsample.antt =====
-- `upsample` of util/math_reference.cpp and `upsample_t` of util/math_reference.h.
use mathlib.Core.Option
use sycl_cts.Prelude.{
  Option, arith, bit_or, negsuc, none, or-disjoint, pos, some, ℕ, ℤ, ◌%◌, ◌*ℤ◌, ◌*◌, ◌+ℤ◌, ◌+◌, ◌-◌,
  ◌^◌, ◌≡◌,
}
use sycl_cts.Machine.{
  IsSigned, IsUnsigned, Width, modulus, num_bits, to_signed, to_unsigned, w16, w32, w64, w8,
}

-- `upsample_t<T>::type`; there is none for the widest types.
unfoldable pub upsample_width : Width → Option Width
upsample_width w8 = some w16
upsample_width w16 = some w32
upsample_width w32 = some w64
upsample_width w64 = none

pub upsample_unsigned : Width → ℕ → ℕ → Option ℕ
upsample_unsigned w h l =
    Option.map (λ d. bit_or (h * 2 ^ num_bits w % modulus d) l % modulus d) (upsample_width w)

-- The high part is signed, the low part is not.
pub upsample_signed : Width → ℤ → ℕ → Option ℤ
upsample_signed w h l =
    Option.map (λ d. to_signed d (bit_or (to_unsigned d (h *ℤ pos (2 ^ num_bits w))) l))
      (upsample_width w)

-- For values of a type of at most 32 bits, `upsample` is `h * 2 ^ n + l` in the type of twice the
-- bits, for the unsigned type.
upsample_unsigned-sum :
    (w d : Width) (h l : ℕ)
    → upsample_width w ≡ some d
    → IsUnsigned w h
    → IsUnsigned w l
    → upsample_unsigned w h l ≡ some (h * modulus w + l)
unfolding upsample_unsigned upsample_width
upsample_unsigned-sum w8 d h l e hh hl = ground (arith, or-disjoint 8 h l)
upsample_unsigned-sum w16 d h l e hh hl = ground (arith, or-disjoint 16 h l)
upsample_unsigned-sum w32 d h l e hh hl = ground (arith, or-disjoint 32 h l)
upsample_unsigned-sum w64 d h l e hh hl = cc

-- For a signed high part and an unsigned low part of a type of at most 32 bits, `upsample` is the
-- integer `h * 2 ^ n + l` in the type of twice the bits.
upsample_signed-sum :
    (w d : Width) (h : ℤ) (l : ℕ)
    → upsample_width w ≡ some d
    → IsSigned w h
    → IsUnsigned w l
    → upsample_signed w h l ≡ some (h *ℤ pos (modulus w) +ℤ pos l)
unfolding upsample_signed upsample_width ◌+ℤ◌ ◌*ℤ◌
upsample_signed-sum w8 d (pos h) l e hh hl = ground (arith, or-disjoint 8 h l)
upsample_signed-sum w8 d (negsuc h) l e hh hl = ground (arith, or-disjoint 8 (255 - h) l)
upsample_signed-sum w16 d (pos h) l e hh hl = ground (arith, or-disjoint 16 h l)
upsample_signed-sum w16 d (negsuc h) l e hh hl = ground (arith, or-disjoint 16 (0xffff - h) l)
upsample_signed-sum w32 d (pos h) l e hh hl = ground (arith, or-disjoint 32 h l)
upsample_signed-sum w32 d (negsuc h) l e hh hl = ground (arith, or-disjoint 32 (0xffff_ffff - h) l)
upsample_signed-sum w64 d h l e hh hl = cc

-- ===== src/Machine.antt =====
-- The integer types of the reference functions: their widths, limits and casts.
-- A value of an unsigned type is a number below `modulus w`; a value of a signed type is an
-- integer from `min_val w` to `max_val w`, in two's complement.
use sycl_cts.Prelude.{
  arith, bit_and, bit_or, if◌then◌else◌, ltb, magnitude, neg_part, negsuc, pos, pos_part, ℕ, ℤ, ◌%◌,
  ◌-◌, ◌/◌, ◌<◌, ◌≡◌, ◌≤◌,
}

-- char, short, int and long (long long).
pub data Width : Type 0 where
  w8 w16 w32 w64 : Width

-- `num_bits` of math_helper.h, for a value of that width.
abbrev pub num_bits : Width → ℕ
num_bits w8 = 8
num_bits w16 = 16
num_bits w32 = 32
num_bits w64 = 64

abbrev pub modulus : Width → ℕ
modulus w8 = 0x100
modulus w16 = 0x1_0000
modulus w32 = 0x1_0000_0000
modulus w64 = 0x1_0000_0000_0000_0000

abbrev pub half_modulus : Width → ℕ
half_modulus w8 = 0x80
half_modulus w16 = 0x8000
half_modulus w32 = 0x8000_0000
half_modulus w64 = 0x8000_0000_0000_0000

-- `std::numeric_limits<T>`, of an unsigned and of a signed type.
abbrev pub umax_val : Width → ℕ
umax_val w = modulus w - 1

abbrev pub max_val : Width → ℤ
max_val w = pos (half_modulus w - 1)

abbrev pub min_val : Width → ℤ
min_val w = negsuc (half_modulus w - 1)

-- The values of the unsigned and of the signed type.
abbrev pub IsUnsigned : Width → ℕ → Type 0
IsUnsigned w x = x < modulus w

abbrev pub IsSigned : Width → ℤ → Type 0
IsSigned w x = (pos_part x < half_modulus w) × (neg_part x ≤ half_modulus w)

-- `U(x)`: an integer modulo 2 ^ w.
abbrev pub to_unsigned : Width → ℤ → ℕ
to_unsigned w (pos n) = n % modulus w
to_unsigned w (negsuc n) = modulus w - 1 - n % modulus w

-- `T(u)`: a number modulo 2 ^ w, read as two's complement.
abbrev pub signed_of : Width → ℕ → ℤ
signed_of w u = if ltb u (half_modulus w) then pos u else negsuc (modulus w - 1 - u)

abbrev pub to_signed : Width → ℕ → ℤ
to_signed w u = signed_of w (u % modulus w)

-- `T(x)` of an integer: what a store into a signed type keeps.
abbrev pub wrap : Width → ℤ → ℤ
wrap w x = signed_of w (to_unsigned w x)

-- `x >> 1` of a signed value rounds down.
abbrev pub shift_one : ℤ → ℤ
shift_one (pos n) = pos (n / 2)
shift_one (negsuc n) = negsuc (n / 2)

-- `&` and `|` of signed values act on the bit patterns.
abbrev pub and_signed : Width → ℤ → ℤ → ℤ
and_signed w a b = signed_of w (bit_and (to_unsigned w a) (to_unsigned w b))

abbrev pub or_signed : Width → ℤ → ℤ → ℤ
or_signed w a b = signed_of w (bit_or (to_unsigned w a) (to_unsigned w b))

-- The type that arithmetic on a narrower type is done in: `int`, by the integral promotions.
abbrev pub promote : Width → Width
promote w8 = w32
promote w16 = w32
promote w32 = w32
promote w64 = w64

-- A result between the limits of the type.
abbrev pub clamp_signed : Width → ℤ → ℤ
clamp_signed w z =
    if ltb (half_modulus w - 1) (pos_part z)
    then max_val w
    else if ltb (half_modulus w) (neg_part z)
    then min_val w
    else z

abbrev pub clamp_unsigned : Width → ℕ → ℕ
clamp_unsigned w n = if ltb (umax_val w) n then umax_val w else n

pub to_unsigned-lt : (w : Width) (a : ℤ) → to_unsigned w a < modulus w
to_unsigned-lt w8 (pos n) = omega arith
to_unsigned-lt w8 (negsuc n) = omega arith
to_unsigned-lt w16 (pos n) = omega arith
to_unsigned-lt w16 (negsuc n) = omega arith
to_unsigned-lt w32 (pos n) = omega arith
to_unsigned-lt w32 (negsuc n) = omega arith
to_unsigned-lt w64 (pos n) = omega arith
to_unsigned-lt w64 (negsuc n) = omega arith

-- A cast keeps a value of the type.
pub wrap-IsSigned : (w : Width) (x : ℤ) → IsSigned w x → wrap w x ≡ x
wrap-IsSigned w8 x h = ground arith
wrap-IsSigned _ x h = ground arith

pub magnitude-le : (w : Width) (a : ℤ) → IsSigned w a → magnitude a ≤ half_modulus w
magnitude-le w8 a h = ground arith
magnitude-le _ a h = ground arith

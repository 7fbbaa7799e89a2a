-- ===== src/Reference/Accuracy.antt =====
-- util/accuracy.h: the unit in the last place. A floating-point number is its place among all the
-- finite ones, 0 at 0, or an infinity or a NaN; the values are exact, in units of the least positive
-- one. `weight` is the weight of the hidden bit, 2 ^ 23 for float and 2 ^ 10 for half, and `last` the
-- place of the greatest number.
pub mod Gaps
pub mod Ulp
pub mod Half
use sycl_cts.Prelude.{
  if◌then◌else◌, ltb_ℤ, magnitude, negate, negsuc, pos, sub_ℕ, suc, zero, ℕ, ℤ, ◌%◌, ◌*ℤ◌, ◌*◌, ◌+◌,
  ◌-ℤ◌, ◌/◌, ◌==◌, ◌^◌,
}

pub data Float : Type 0 where
  finite : ℤ → Float
  plus_infinity minus_infinity not_a_number : Float

pub data Value : Type 0 where
  exact : ℤ → Value
  plus_inf minus_inf nan : Value

-- By the exponent and the fraction: a subnormal number, or one with the hidden bit.
unfoldable pub magnitude_at : ℕ → ℕ → ℕ → ℕ
magnitude_at weight zero fraction = fraction
magnitude_at weight (suc e) fraction = (weight + fraction) * 2 ^ e

unfoldable pub magnitude_of : ℕ → ℕ → ℕ
magnitude_of weight n = magnitude_at weight (n / weight) (n % weight)

unfoldable pub value_of : ℕ → Float → Value
unfolding magnitude_of
value_of weight (finite (pos n)) = exact (pos (magnitude_of weight n))
value_of weight (finite (negsuc n)) = exact (negate (pos (magnitude_of weight (suc n))))
value_of weight plus_infinity = plus_inf
value_of weight minus_infinity = minus_inf
value_of weight not_a_number = nan

-- `std::nextafter(x, inf)` and `std::nextafter(x, -inf)`.
unfoldable pub next_up : ℕ → Float → Float
next_up last (finite (pos n)) = if n == last then plus_infinity else finite (pos (n + 1))
next_up last (finite (negsuc n)) = finite (sub_ℕ 1 (suc n))
next_up last plus_infinity = plus_infinity
next_up last minus_infinity = finite (sub_ℕ 0 last)
next_up last not_a_number = not_a_number

unfoldable pub next_down : ℕ → Float → Float
next_down last (finite (pos n)) = finite (sub_ℕ n 1)
next_down last (finite (negsuc n)) =
    if suc n == last then minus_infinity else finite (negsuc (n + 1))
next_down last plus_infinity = finite (pos last)
next_down last minus_infinity = minus_infinity
next_down last not_a_number = not_a_number

unfoldable pub subtract : Value → Value → Value
subtract (exact a) (exact b) = exact (a -ℤ b)
subtract (exact a) plus_inf = minus_inf
subtract (exact a) minus_inf = plus_inf
subtract (exact a) nan = nan
subtract plus_inf (exact b) = plus_inf
subtract plus_inf plus_inf = nan
subtract plus_inf minus_inf = plus_inf
subtract plus_inf nan = nan
subtract minus_inf (exact b) = minus_inf
subtract minus_inf plus_inf = minus_inf
subtract minus_inf minus_inf = nan
subtract minus_inf nan = nan
subtract nan b = nan

unfoldable pub fabs : Value → Value
fabs (exact a) = exact (pos (magnitude a))
fabs plus_inf = plus_inf
fabs minus_inf = plus_inf
fabs nan = nan

-- A NaN beside a number is ignored.
unfoldable pub fmin : Value → Value → Value
fmin (exact a) (exact b) = if ltb_ℤ b a then exact b else exact a
fmin (exact a) plus_inf = exact a
fmin (exact a) minus_inf = minus_inf
fmin (exact a) nan = exact a
fmin plus_inf (exact b) = exact b
fmin plus_inf plus_inf = plus_inf
fmin plus_inf minus_inf = minus_inf
fmin plus_inf nan = plus_inf
fmin minus_inf (exact b) = minus_inf
fmin minus_inf plus_inf = minus_inf
fmin minus_inf minus_inf = minus_inf
fmin minus_inf nan = minus_inf
fmin nan b = b

-- Differences of neighbours are exact.
unfoldable pub get_ulp_std : ℕ → ℕ → Float → Value
get_ulp_std weight last x =
    let negative = fabs (subtract (value_of weight (next_down last x)) (value_of weight x)) in
    let positive = fabs (subtract (value_of weight (next_up last x)) (value_of weight x)) in
    fmin negative positive

-- By a factor that is a power of 2, which is exact.
unfoldable pub scale : ℕ → Value → Value
scale multiplier (exact a) = exact (a *ℤ pos multiplier)
scale multiplier plus_inf = plus_inf
scale multiplier minus_inf = minus_inf
scale multiplier nan = nan

-- `x` is converted to float before the call; `narrow` is the conversion of the product to half.
unfoldable pub get_ulp_std_half {ℓ} : {A : Type ℓ} → (Value → A) → Float → A
get_ulp_std_half narrow x = narrow (scale 8192 (get_ulp_std (2 ^ 23) 0x7f7f_ffff x))

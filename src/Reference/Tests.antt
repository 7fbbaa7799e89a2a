-- ===== src/Reference/Tests.antt =====
-- The reference functions on concrete operands.
use sycl_cts.Reference.Overloads.{
  clamp_marray_scalars, clamp_vec_scalars, fract_marray, fract_vec, frexp_marray, frexp_vec,
  ilogb_marray, ilogb_vec, ldexp_marray, ldexp_marray_scalar, ldexp_vec, ldexp_vec_scalar,
  lgamma_r_marray, lgamma_r_vec, mix_marray_scalar, mix_vec_scalar, modf_marray, modf_vec,
  pown_marray, pown_vec, remquo_marray, remquo_vec, rootn_marray, rootn_vec, sincos_marray,
  sincos_vec, smoothstep_scalars_marray, smoothstep_scalars_vec, step_scalar_marray,
  step_scalar_vec,
}
use sycl_cts.Reference.Overloads.Laws.{IsAt, mixed_overloads_elements, pointer_overloads_elements}
use sycl_cts.Reference.Overloads.References.{IsReferenceAt, scalar_overloads_elements}
use sycl_cts.Reference.Relational.{FloatTests, IsIeee}
use sycl_cts.Reference.Select.{bitselect, bitselect-digits}
use sycl_cts.Reference.RotateSigned.{low_mask, rotate_signed, shift_right}
use sycl_cts.Reference.RotateSigned.Pattern.{rotate_signed-rotate_unsigned}
use sycl_cts.Reference.Rotate.{rotate_unsigned, rotate_unsigned-swap}
use sycl_cts.Reference.Verify.{verify_elements, verify_marray_iff, verify_vector_accepts_all}
use sycl_cts.Reference.Elementwise.{
  get_element, run_func_on_marray_result_ref, run_func_on_vector_result_ref,
}
use sycl_cts.Reference.ResultRef.{ResultRef, defined, flagged, is_empty}
use sycl_cts.Machine.{half_modulus, max_val, min_val, to_unsigned, umax_val, w32, w64, w8}
use sycl_cts.Prelude.{
  Bool, List, [], arith, bit, false, if◌then◌else◌, leb, ltb, max, neg_part, negsuc, not, pos,
  pos_part, refl, true, ℕ, ℤ, ◌%◌, ◌&&◌, ◌*ℤ◌, ◌*◌, ◌+ℤ◌, ◌+◌, ◌-ℤ◌, ◌-◌, ◌/◌, ◌<◌, ◌==◌, ◌^◌, ◌↔◌,
  ◌∷◌, ◌≡◌, ◌≤ℤ◌,
}
use sycl_cts.Reference.Saturate.{
  add_sat_signed, add_sat_signed-clamp, sub_sat_signed, sub_sat_signed-clamp,
}
use sycl_cts.Reference.Order.{clamp}
use sycl_cts.Reference.Count.{ones, popcount, popcount-ones}
use sycl_cts.Reference.MulHi.{mul_hi_signed}
use sycl_cts.Reference.MulHi.Signed.{mul_hi_signed-floor_div}
use sycl_cts.Reference.MadSat.{mad_sat_signed, mad_sat_signed-clamp}
use sycl_cts.Reference.MadSatLong.{
  IsAccurate, LongDouble, mad_sat_signed_long, mad_sat_signed_long-zero,
}
use sycl_cts.Reference.MadSatLong.Product.{mad_sat_signed_long-clamp}

add_sat_signed-clamp_example : add_sat_signed w8 (pos 100) (pos 100) ≡ pos 127
unfolding ◌+ℤ◌
add_sat_signed-clamp_example =
    add_sat_signed-clamp w8 (pos 100) (pos 100) (omega arith, omega arith)
      (omega arith, omega arith)

sub_sat_signed-clamp_example : sub_sat_signed w32 (pos 0) (pos 1) ≡ min_val w32
sub_sat_signed-clamp_example =
    sub_sat_signed-clamp w32 (pos 0) (pos 1) (omega arith, omega arith) (omega arith, omega arith)

popcount-ones_example : popcount w8 41 ≡ ones 8 41
popcount-ones_example = popcount-ones w8 41

mul_hi_signed-floor_div_example : mul_hi_signed w8 (negsuc 0) (pos 1) ≡ negsuc 0
unfolding ◌*ℤ◌
mul_hi_signed-floor_div_example =
    mul_hi_signed-floor_div w8 (negsuc 0) (pos 1) (omega arith, omega arith)
      (omega arith, omega arith)

mad_sat_signed-clamp_example : mad_sat_signed w8 (pos 20) (negsuc 9) (pos 1) ≡ min_val w8
unfolding ◌+ℤ◌ ◌*ℤ◌
mad_sat_signed-clamp_example =
    mad_sat_signed-clamp w8 (pos 20) (negsuc 9) (pos 1) (omega arith) (omega arith, omega arith)
      (omega arith, omega arith) (omega arith, omega arith)

-- A `long double` whose arithmetic is exact.
abbrev exact_long_double : LongDouble
exact_long_double = record {
  above_unsigned = λ x y z. ltb (umax_val w64 * 11) ((x * y + z) * 10);
  above = λ x y z. ltb ((half_modulus w64 - 1) * 11) (pos_part (x *ℤ y +ℤ z) * 10);
  below = λ x y z. ltb (half_modulus w64 * 11) (neg_part (x *ℤ y +ℤ z) * 10);
}

exact_long_double-IsAccurate : IsAccurate exact_long_double
exact_long_double-IsAccurate = record {
  not_above_unsigned = λ x y z h. ground arith;
  not_above = λ x y z h. not_high (x *ℤ y +ℤ z) h;
  not_below = λ x y z h. not_low (x *ℤ y +ℤ z) h;
}
  where
    not_high :
        (s : ℤ) → s ≤ℤ max_val w64 → ltb ((half_modulus w64 - 1) * 11) (pos_part s * 10) ≡ false
    not_high s h = ground arith

    not_low : (s : ℤ) → min_val w64 ≤ℤ s → ltb (half_modulus w64 * 11) (neg_part s * 10) ≡ false
    not_low s h = ground arith

mad_sat_signed_long-zero_example :
    mad_sat_signed_long exact_long_double (pos 0) (pos 5) (pos 7) ≡ min_val w64
mad_sat_signed_long-zero_example =
    mad_sat_signed_long-zero exact_long_double exact_long_double-IsAccurate (pos 5) (pos 7)
      (omega arith, omega arith) (omega arith, omega arith)

mad_sat_signed_long-clamp_example :
    mad_sat_signed_long exact_long_double (pos 4) (negsuc 2) (pos 5) ≡ negsuc 6
unfolding ◌+ℤ◌ ◌*ℤ◌
mad_sat_signed_long-clamp_example =
    mad_sat_signed_long-clamp exact_long_double exact_long_double-IsAccurate (pos 4) (negsuc 2)
      (pos 5) (omega arith) (omega arith) (omega arith, omega arith) (omega arith, omega arith)
      (omega arith, omega arith) (omega arith, omega arith)

-- A function that is defined on the even indexes.
abbrev on_even : ℕ → ResultRef ℕ
on_even i = if i % 2 == 0 then defined (i * 10) else flagged 0 true

verify_marray_iff_example :
    (verify_elements 0 ◌==◌ 3 (0 ∷ 7 ∷ 20 ∷ []) (run_func_on_marray_result_ref 0 3 on_even) ≡ true)
    ↔ ((j : ℕ)
        → j < 3
        → is_empty (on_even j).undefined ≡ true
        → (get_element 0 (0 ∷ 7 ∷ 20 ∷ []) j == (on_even j).res) ≡ true)
verify_marray_iff_example = verify_marray_iff 0 ◌==◌ 3 on_even (0 ∷ 7 ∷ 20 ∷ [])

verify_vector_accepts_all_example :
    verify_elements 0 ◌==◌ 3 (1 ∷ 2 ∷ 3 ∷ []) (run_func_on_vector_result_ref 0 3 on_even) ≡ true
verify_vector_accepts_all_example = verify_vector_accepts_all 0 ◌==◌ 3 on_even (1 ∷ 2 ∷ 3 ∷ [])

rotate_unsigned-swap_example : rotate_unsigned w8 0xb1 12 ≡ 0x1b
rotate_unsigned-swap_example = rotate_unsigned-swap w8 0xb1 12 (omega arith)

rotate_signed-rotate_unsigned_example :
    to_unsigned w8 (rotate_signed w8 (negsuc 126) (negsuc 0))
    ≡ rotate_unsigned w8 (to_unsigned w8 (negsuc 126)) (to_unsigned w8 (negsuc 0))
rotate_signed-rotate_unsigned_example =
    rotate_signed-rotate_unsigned w8 (negsuc 126) (negsuc 0) (omega arith, omega arith)

rotate_signed_test : rotate_signed w8 (negsuc 126) (negsuc 0) ≡ negsuc 63
unfolding rotate_signed shift_right low_mask ◌*ℤ◌ ◌-ℤ◌
rotate_signed_test = refl

bitselect-digits_example : bit (bitselect w8 0xf0 0x0f 0x3c) 3 ≡ 1
bitselect-digits_example = bitselect-digits w8 0xf0 0x0f 0x3c 3 (omega arith) (omega arith)

abbrev lows : List ℕ
lows = 1 ∷ 2 ∷ []

abbrev highs : List ℕ
highs = 3 ∷ 4 ∷ []

-- Numbers with one value, 0, that compares as a NaN.
abbrev ordinary : ℕ → ℕ → Bool
ordinary x y = not (x == 0) && not (y == 0)

abbrev small_floats : FloatTests ℕ
small_floats = record {
  equal_to = λ x y. ordinary x y && x == y;
  not_equal_to = λ x y. not (ordinary x y && x == y);
  greater = λ x y. ordinary x y && ltb y x;
  greater_equal = λ x y. ordinary x y && leb y x;
  less = λ x y. ordinary x y && ltb x y;
  less_equal = λ x y. ordinary x y && leb x y;
  std_isfinite = λ x. not (x == 0);
  std_isinf = λ x. false;
  std_isnan = λ x. x == 0;
  std_isnormal = λ x. not (x == 0);
  std_signbit = λ x. false;
}

small_floats-IsIeee : IsIeee small_floats
small_floats-IsIeee = record {
  equal_self = λ x. ground arith;
  less_ordered = λ x y h. ground arith;
  greater_less = λ x y. ground arith;
  less_not_equal = λ x y h. ground arith;
  equal_sym = λ x y. ground arith;
  total = λ x y a b c d. ground arith;
}

abbrev twice : ℕ → ℕ × ℕ
twice x = (x, x * 2)

abbrev squared : ℕ → ℕ × ℕ
squared x = (x * x, x)

abbrev halved : ℕ → ℕ × ℤ
halved x = (x / 2, pos x)

abbrev signed : ℕ → ℕ × ℤ
signed x = (x, negsuc x)

abbrev divided : ℕ → ℕ → ℕ × ℤ
divided x y = (x % y, pos (x / y))

abbrev scaled : ℕ → ℤ → ℕ
scaled x (pos e) = x * 2 ^ e
scaled x (negsuc e) = x / 2 ^ (e + 1)

abbrev powered : ℕ → ℤ → ℕ
powered x (pos e) = x ^ e
powered x (negsuc e) = 0

-- Defined where the edges are in order.
abbrev weigh : ℕ → ℕ → ℕ → ResultRef ℕ
weigh x y z = if ltb x y then defined (x + y * z) else flagged 0 true

abbrev exponents : List ℤ
exponents = pos 2 ∷ negsuc 0 ∷ []

pointer_overloads_elements_example :
    IsAt 0 0 1 (twice (get_element 0 lows 1)) (fract_vec 0 2 twice lows)
    × IsAt 0 0 1 (twice (get_element 0 lows 1)) (fract_marray 0 2 twice lows)
    × IsAt 0 0 1 (twice (get_element 0 lows 1)) (modf_vec 0 2 twice lows)
    × IsAt 0 0 1 (twice (get_element 0 lows 1)) (modf_marray 0 2 twice lows)
    × IsAt 0 0 1 (squared (get_element 0 lows 1)) (sincos_vec 0 2 squared lows)
    × IsAt 0 0 1 (squared (get_element 0 lows 1)) (sincos_marray 0 2 squared lows)
    × IsAt 0 (pos 0) 1 (halved (get_element 0 lows 1)) (frexp_vec 0 2 halved lows)
    × IsAt 0 (pos 0) 1 (halved (get_element 0 lows 1)) (frexp_marray 0 2 halved lows)
    × IsAt 0 (pos 0) 1 (signed (get_element 0 lows 1)) (lgamma_r_vec 0 2 signed lows)
    × IsAt 0 (pos 0) 1 (signed (get_element 0 lows 1)) (lgamma_r_marray 0 2 signed lows)
    × IsAt 0
        (pos 0)
        1
        (divided (get_element 0 lows 1) (get_element 0 highs 1))
        (remquo_vec 0 2 divided lows highs)
    × IsAt 0
        (pos 0)
        1
        (divided (get_element 0 lows 1) (get_element 0 highs 1))
        (remquo_marray 0 2 divided lows highs)
pointer_overloads_elements_example =
    pointer_overloads_elements 0 2 1 twice twice squared halved signed divided lows highs
      (omega arith)

mixed_overloads_elements_example :
    (get_element (pos 0) (ilogb_vec 0 2 pos lows) 1 ≡ pos (get_element 0 lows 1))
    × (get_element (pos 0) (ilogb_marray 0 2 pos lows) 1 ≡ pos (get_element 0 lows 1))
    × (get_element 0 (ldexp_vec 0 2 scaled lows exponents) 1
        ≡ scaled (get_element 0 lows 1) (get_element (pos 0) exponents 1))
    × (get_element 0 (ldexp_marray 0 2 scaled lows exponents) 1
        ≡ scaled (get_element 0 lows 1) (get_element (pos 0) exponents 1))
    × (get_element 0 (pown_vec 0 2 powered lows exponents) 1
        ≡ powered (get_element 0 lows 1) (get_element (pos 0) exponents 1))
    × (get_element 0 (pown_marray 0 2 powered lows exponents) 1
        ≡ powered (get_element 0 lows 1) (get_element (pos 0) exponents 1))
    × (get_element 0 (rootn_vec 0 2 scaled lows exponents) 1
        ≡ scaled (get_element 0 lows 1) (get_element (pos 0) exponents 1))
    × (get_element 0 (rootn_marray 0 2 scaled lows exponents) 1
        ≡ scaled (get_element 0 lows 1) (get_element (pos 0) exponents 1))
    × (get_element 0 (ldexp_vec_scalar 0 2 scaled lows (pos 3)) 1
        ≡ scaled (get_element 0 lows 1) (pos 3))
    × (get_element 0 (ldexp_marray_scalar 0 2 scaled lows (pos 3)) 1
        ≡ scaled (get_element 0 lows 1) (pos 3))
    × (get_element 0 (step_scalar_vec 0 2 max 2 lows) 1 ≡ max 2 (get_element 0 lows 1))
    × (get_element 0 (step_scalar_marray 0 2 max 2 lows) 1 ≡ max 2 (get_element 0 lows 1))
mixed_overloads_elements_example =
    mixed_overloads_elements 0 2 1 pos scaled powered scaled max lows exponents 2 (pos 3)
      (omega arith)

scalar_overloads_elements_example :
    IsReferenceAt 0 1
      (clamp 0 ltb (get_element 0 lows 1) 3 1)
      (clamp_vec_scalars 0 2 (clamp 0 ltb) lows 3 1)
    × IsReferenceAt 0 1
        (clamp 0 ltb (get_element 0 lows 1) 3 1)
        (clamp_marray_scalars 0 2 (clamp 0 ltb) lows 3 1)
    × IsReferenceAt 0 1
        (weigh (get_element 0 lows 1) (get_element 0 highs 1) 1)
        (mix_vec_scalar 0 2 weigh lows highs 1)
    × IsReferenceAt 0 1
        (weigh (get_element 0 lows 1) (get_element 0 highs 1) 1)
        (mix_marray_scalar 0 2 weigh lows highs 1)
    × IsReferenceAt 0 1
        (weigh 3 1 (get_element 0 lows 1))
        (smoothstep_scalars_vec 0 2 weigh 3 1 lows)
    × IsReferenceAt 0 1
        (weigh 3 1 (get_element 0 lows 1))
        (smoothstep_scalars_marray 0 2 weigh 3 1 lows)
scalar_overloads_elements_example =
    scalar_overloads_elements 0 2 1 (clamp 0 ltb) weigh weigh lows highs 3 1 (omega arith)

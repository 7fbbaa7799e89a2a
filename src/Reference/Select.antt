-- ===== src/Reference/Select.antt =====
-- `any`, `all`, `select` and `bitselect` of util/math_reference.h and math_reference.cpp, and
-- `if_bit_set` of util/math_helper.h. An integer is the pattern of its digits; a floating-point
-- operand of `bitselect` is the pattern that `type_punn` copies.
use sycl_cts.Machine.{IsUnsigned, Width, modulus, num_bits, w16, w32, w64, w8}
use native.Mathlib.Nat.{div-div-eq-div-mul, pow-suc}
use mathlib.Core.Bool.{false≢true}
use sycl_cts.Reference.Elementwise.Laws.{run_func_on_vector_elements}
use sycl_cts.Reference.Elementwise.{blank, get_element, run_func_on_vector, run_loop}
use sycl_cts.Prelude.{
  ==_iff, Bool, Bool-cases, List, [], and-one, ap, arith, bit, bit-bit_and, bit-bit_or, bit-lt,
  bit_and, bit_or, false, if◌then◌else◌, inl, inr, length, not, refl, suc, sym, true, zero, ℕ, ◌%◌,
  ◌-◌, ◌/◌, ◌<◌, ◌==◌, ◌^◌, ◌↔◌, ◌∙◌, ◌∷◌, ◌≡◌,
}

-- `(num >> bit) & 1`
pub if_bit_set : ℕ → ℕ → Bool
if_bit_set num position = not (bit_and (num / 2 ^ position) 1 == 0)

pub if_msb_set : Width → ℕ → Bool
unfolding if_bit_set
if_msb_set w x = if_bit_set x (num_bits w - 1)

-- Of a scalar.
pub any : Width → ℕ → Bool
unfolding if_msb_set
any w x = if_msb_set w x

pub all : Width → ℕ → Bool
unfolding if_msb_set
all w x = if_msb_set w x

-- The loops over the elements, which return at the first that decides.
pub any_elements : Width → List ℕ → Bool
any_elements w [] = false
any_elements w (x ∷ a) = let rest = any_elements w a in if any w x then true else rest

pub all_elements : Width → List ℕ → Bool
all_elements w [] = true
all_elements w (x ∷ a) = let rest = all_elements w a in if not (all w x) then false else rest

-- `(c & b) | (~c & a)`
pub bitselect : Width → ℕ → ℕ → ℕ → ℕ
bitselect w a b c = bit_or (bit_and c b) (bit_and (modulus w - 1 - c) a)

module _ {ℓ} {A : Type ℓ} where
  -- Of scalars.
  unfoldable pub select : A → A → Bool → A
  select a b c = if c then b else a

  -- Of vectors of `n` elements, by the highest digit of each element of `c`.
  pub select_vec : Width → A → ℕ → List A → List A → List ℕ → List A
  select_vec w start n a b c =
      run_loop
        (λ i. if any w (get_element 0 c i) then get_element start b i else get_element start a i) n
        0 (blank start n)

  -- Of marrays of `n` elements, by a bool for each.
  pub select_marray : A → ℕ → List A → List A → List Bool → List A
  select_marray start n a b c =
      run_loop (λ i. if get_element false c i then get_element start b i else get_element start a i)
        n 0 (blank start n)

-- The digit at a position, moved to the bottom.
bit-div : (x i : ℕ) → x / 2 ^ i % 2 ≡ bit x i
bit-div x zero = omega arith
bit-div x (suc i) = ap (λ (t : ℕ). t % 2) (halved i) ∙ bit-div (x / 2) i
  where
    halved : (i : ℕ) → x / 2 ^ suc i ≡ x / 2 / 2 ^ i
    halved i = ap (◌/◌ x) (omega (arith, pow-suc 2 i)) ∙ sym (div-div-eq-div-mul x 2 (2 ^ i))

-- The digits of the complement within `n` digits.
bit-complement : (n c i : ℕ) → c < 2 ^ n → i < n → bit (2 ^ n - 1 - c) i ≡ 1 - bit c i
bit-complement zero c i h p = absurd (omega arith)
bit-complement (suc n) c zero h p = omega (arith, pow-suc 2 n)
bit-complement (suc n) c (suc i) h p =
    ap (λ (t : ℕ). bit t i) (omega (arith, pow-suc 2 n))
    ∙ bit-complement n (c / 2) i (omega (arith, pow-suc 2 n)) (omega arith)

modulus-pow : (w : Width) → modulus w ≡ 2 ^ num_bits w
modulus-pow w8 = refl
modulus-pow w16 = refl
modulus-pow w32 = refl
modulus-pow w64 = refl

-- `any` of a scalar is the highest digit.
any-top : (w : Width) (x : ℕ) → any w x ≡ (bit x (num_bits w - 1) == 1)
unfolding any if_msb_set if_bit_set
any-top w x = ground (
  arith,
  and-one (x / 2 ^ (num_bits w - 1)),
  bit-div x (num_bits w - 1),
  bit-lt x (num_bits w - 1),
)

all-top : (w : Width) (x : ℕ) → all w x ≡ (bit x (num_bits w - 1) == 1)
unfolding any all if_msb_set
all-top w x = any-top w x

-- Each digit of `bitselect` is the digit of `b` where the digit of `c` is 1, and the digit of `a`
-- where it is 0.
pub bitselect-digits :
    (w : Width) (a b c i : ℕ)
    → IsUnsigned w c
    → i < num_bits w
    → bit (bitselect w a b c) i ≡ (if bit c i == 1 then bit b i else bit a i)
unfolding bitselect
bitselect-digits w a b c i h p =
    rw
      (
        bit-bit_or i (bit_and c b) (bit_and (modulus w - 1 - c) a),
        bit-bit_and i c b,
        bit-bit_and i (modulus w - 1 - c) a,
        modulus-pow w,
      )
      (ground (
        arith,
        bit-complement (num_bits w) c i (rw modulus-pow at h) p,
        bit-lt a i,
        bit-lt b i,
        bit-lt c i,
      ))

any_elements_some :
    (w : Width) (xs : List ℕ)
    → any_elements w xs ≡ true
    → (i : ℕ) × (i < length xs) × (bit (get_element 0 xs i) (num_bits w - 1) ≡ 1)
unfolding any_elements get_element
any_elements_some w [] e = absurd (false≢true e)
any_elements_some w (x ∷ xs) e = elim (Bool-cases (any w x)) [
  | inl t ↦ (0, omega arith, (==_iff (bit x (num_bits w - 1)) 1).0 (sym (any-top w x) ∙ t))
  | inr t ↦
      let found = any_elements_some w xs (rw t at e) in
      (suc found.0, omega (arith, found.1), found.2)
]

any_elements_at :
    (w : Width) (xs : List ℕ) (i : ℕ)
    → i < length xs
    → bit (get_element 0 xs i) (num_bits w - 1) ≡ 1
    → any_elements w xs ≡ true
unfolding any_elements get_element
any_elements_at w [] i h e = absurd (omega arith)
any_elements_at w (x ∷ xs) zero h e =
    rw (any-top w x ∙ (==_iff (bit x (num_bits w - 1)) 1).1 e) refl
any_elements_at w (x ∷ xs) (suc i) h e =
    rw (any_elements_at w xs i (omega (arith, h)) e) (ground arith)

all_elements_at :
    (w : Width) (xs : List ℕ) (i : ℕ)
    → all_elements w xs ≡ true
    → i < length xs
    → bit (get_element 0 xs i) (num_bits w - 1) ≡ 1
unfolding all_elements get_element
all_elements_at w [] i e h = absurd (omega arith)
all_elements_at w (x ∷ xs) zero e h =
    (==_iff (bit x (num_bits w - 1)) 1).0 (sym (all-top w x) ∙ ground arith)
all_elements_at w (x ∷ xs) (suc i) e h = all_elements_at w xs i (ground arith) (omega (arith, h))

all_elements_each :
    (w : Width) (xs : List ℕ)
    → ((i : ℕ) → i < length xs → bit (get_element 0 xs i) (num_bits w - 1) ≡ 1)
    → all_elements w xs ≡ true
unfolding all_elements get_element
all_elements_each w [] h = refl
all_elements_each w (x ∷ xs) h =
    rw
      (
        all-top w x ∙ (==_iff (bit x (num_bits w - 1)) 1).1 (h 0 (omega arith)),
        all_elements_each w xs (λ i p. h (suc i) (omega (arith, p))),
      )
      refl

-- `any` of elements holds exactly if the highest digit of one of them is 1, and `all` exactly if
-- the highest digit of each is 1.
any_all-top :
    (w : Width) (xs : List ℕ)
    → (any_elements w xs ≡ true
        ↔ (i : ℕ) × (i < length xs) × (bit (get_element 0 xs i) (num_bits w - 1) ≡ 1))
      × (all_elements w xs ≡ true
          ↔ ((i : ℕ) → i < length xs → bit (get_element 0 xs i) (num_bits w - 1) ≡ 1))
any_all-top w xs = (
  (any_elements_some w xs, λ found. any_elements_at w xs found.0 found.1 found.2),
  (λ e i h. all_elements_at w xs i e h, all_elements_each w xs),
)

-- `select` of vectors takes the element of `b` where the highest digit of the element of `c` is 1,
-- and the element of `a` elsewhere; of marrays it takes the element of `b` where `c` is true.
select_elements {ℓ} :
    {A : Type ℓ} (w : Width) (start : A) (n j : ℕ) (a b : List A) (c : List ℕ) (m : List Bool)
    → j < n
    → (get_element start (select_vec w start n a b c) j
        ≡ select
            (get_element start a j)
            (get_element start b j)
            (bit (get_element 0 c j) (num_bits w - 1) == 1))
      × (get_element start (select_marray start n a b m) j
          ≡ select (get_element start a j) (get_element start b j) (get_element false m j))
unfolding select_vec select_marray select run_func_on_vector
select_elements w start n j a b c m h = (
  (run_func_on_vector_elements start n (λ i.
          if any w (get_element 0 c i) then get_element start b i else get_element start a i)).1
        j h
      ∙ ap (λ (t : Bool). if t then get_element start b j else get_element start a j)
          (any-top w (get_element 0 c j)),
  (run_func_on_vector_elements start n
        (λ i. if get_element false m i then get_element start b i else get_element start a i)).1
      j h,
)

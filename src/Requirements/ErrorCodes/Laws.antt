-- ===== src/Requirements/ErrorCodes/Laws.antt =====
-- What the container of error codes holds after a sequence of additions.
use mathlib.Core.List.{append_assoc, append-nil}
use sycl_cts.Prelude.{
  List, [], ap, ap₂, arith, dec_lt, false, if◌then◌else◌, leb, length, length-append, ltb, lt→ltb,
  min, not, refl, suc, sym, take, zero, ℕ, ℤ, ◌++◌, ◌-◌, ◌<◌, ◌==◌, ◌∙◌, ◌∷◌, ◌≡◌, ◌≤◌,
}
use sycl_cts.Requirements.ErrorCodes.{
  ErrorCodesContainer, add_error, common_code, error_codes_container, filled, get_array, has_errors,
  store,
}

-- The codes in the order they were added, behind them zeros; the codes that do not fit leave a
-- mark in the last place.
unfoldable pub recorded : ℕ → List ℤ → List ℤ
recorded size codes =
    if leb (length codes) size
    then codes ++ filled (size - length codes)
    else take (size - 1) codes ++ common_code 0 ∷ []

-- The container after the additions of `codes`.
pub holding : ℕ → List ℤ → ErrorCodesContainer
holding size codes = record {
  capacity = size;
  m_error_codes_container = recorded size codes;
  m_index = min (length codes) size;
}

unfoldable pub add_each : List ℤ → ErrorCodesContainer → ErrorCodesContainer
add_each [] c = c
add_each (code ∷ rest) c = add_each rest (add_error code c)

le→ltb : (a b : ℕ) → b ≤ a → ltb a b ≡ false
le→ltb a b h = ground (arith, h)

store-append : (xs ys : List ℤ) (v : ℤ) → store (xs ++ ys) (length xs) v ≡ xs ++ store ys 0 v
unfolding store
store-append [] ys v = refl
store-append (x ∷ xs) ys v = ap (◌∷◌ x) (store-append xs ys v)

store_last : (xs : List ℤ) (i : ℕ) (v : ℤ) → length xs ≡ suc i → store xs i v ≡ take i xs ++ v ∷ []
unfolding store
store_last [] i v h = ground (arith, h)
store_last (x ∷ []) zero v h = refl
store_last (x ∷ []) (suc i) v h = ground (arith, h)
store_last (x ∷ y ∷ xs) zero v h = ground (arith, h)
store_last (x ∷ y ∷ xs) (suc i) v h = ap (◌∷◌ x) (store_last (y ∷ xs) i v (omega (arith, h)))

take_front : (n : ℕ) (xs ys : List ℤ) → n ≤ length xs → take n (xs ++ ys) ≡ take n xs
take_front zero xs ys h = refl
take_front (suc n) [] ys h = ground (arith, h)
take_front (suc n) (x ∷ xs) ys h = ap (◌∷◌ x) (take_front n xs ys (omega (arith, h)))

length-take : (n : ℕ) (xs : List ℤ) → n ≤ length xs → length (take n xs) ≡ n
length-take zero xs h = refl
length-take (suc n) [] h = ground (arith, h)
length-take (suc n) (x ∷ xs) h = ap suc (length-take n xs (omega (arith, h)))

pub length-filled : (n : ℕ) → length (filled n) ≡ n
unfolding filled
length-filled zero = refl
length-filled (suc n) = ap suc (length-filled n)

pub recorded_room :
    (size : ℕ) (codes : List ℤ)
    → length codes ≤ size
    → recorded size codes ≡ codes ++ filled (size - length codes)
unfolding recorded
recorded_room size codes h = ground arith

recorded_over :
    (size : ℕ) (codes : List ℤ)
    → size < length codes
    → recorded size codes ≡ take (size - 1) codes ++ common_code 0 ∷ []
unfolding recorded
recorded_over size codes h = ground arith

store-filled : (n m : ℕ) (code : ℤ) → n ≡ suc m → store (filled n) 0 code ≡ code ∷ filled m
unfolding store filled
store-filled zero m code h = ground (arith, h)
store-filled (suc n) m code h = ap (λ k. code ∷ filled k) (omega (arith, h))

store-recorded_room :
    (size : ℕ) (codes : List ℤ) (code : ℤ)
    → length codes < size
    → store (recorded size codes) (length codes) code ≡ recorded size (codes ++ code ∷ [])
store-recorded_room size codes code h =
    rw
      (
        recorded_room size codes (omega (arith, h)),
        recorded_room size (codes ++ code ∷ []) (omega (arith, h, length-append codes (code ∷ []))),
        store-append codes (filled (size - length codes)) code,
        append_assoc codes (code ∷ []) (filled (size - length (codes ++ code ∷ []))),
      )
      (ap (λ rest. codes ++ rest)
        (store-filled (size - length codes) (size - length (codes ++ code ∷ [])) code
          (omega (arith, h, length-append codes (code ∷ [])))))

-- At the end, the mark replaces the last code.
store-full :
    (size : ℕ) (codes rest : List ℤ) (mark : ℤ)
    → 0 < size
    → size ≤ length codes
    → store (take (size - 1) codes ++ mark ∷ []) (size - 1) mark
      ≡ take (size - 1) (codes ++ rest) ++ mark ∷ []
unfolding store
store-full size codes rest mark positive h =
    ap (λ i. store (take (size - 1) codes ++ mark ∷ []) i mark)
      (sym (length-take (size - 1) codes (omega (arith, h))))
    ∙ store-append (take (size - 1) codes) (mark ∷ []) mark
    ∙ ap (λ xs. xs ++ mark ∷ []) (sym (take_front (size - 1) codes rest (omega (arith, h))))

store-recorded_over :
    (size : ℕ) (codes : List ℤ) (code : ℤ)
    → 0 < size
    → size ≤ length codes
    → store (recorded size codes) (size - 1) (common_code 0) ≡ recorded size (codes ++ code ∷ [])
store-recorded_over size codes code positive h = elim (dec_lt size (length codes)) [
  | yes over ↦
      rw
        (
          recorded_over size codes over,
          recorded_over size (codes ++ code ∷ [])
              (omega (arith, h, length-append codes (code ∷ []))),
        )
        (store-full size codes (code ∷ []) (common_code 0) positive h)
  | no full ↦
      rw
        (
          recorded_room size codes (omega (arith, full)),
          recorded_over size (codes ++ code ∷ [])
              (omega (arith, h, length-append codes (code ∷ []))),
        )
        (store_last (codes ++ filled (size - length codes)) (size - 1) (common_code 0) (
            omega (
              arith,
              positive,
              h,
              full,
              length-append codes (filled (size - length codes)),
              length-filled (size - length codes),
            ))
          ∙ ap (λ xs. xs ++ common_code 0 ∷ [])
              (take_front (size - 1) codes (filled (size - length codes)) (omega (arith, h))
                ∙ sym (take_front (size - 1) codes (code ∷ []) (omega (arith, h)))))
]

-- The container is a list of codes cut to its size.
add_error-holding :
    (size : ℕ) (codes : List ℤ) (code : ℤ)
    → 0 < size
    → add_error code (holding size codes) ≡ holding size (codes ++ code ∷ [])
unfolding add_error holding
add_error-holding size codes code positive = elim (dec_lt (length codes) size) [
  | yes room ↦ rw (lt→ltb (min (length codes) size) size (omega (arith, room))) (
      ap₂
        (λ array index. record {
          capacity = size;
          m_error_codes_container = array;
          m_index = index;
        })
        (ap (λ i. store (recorded size codes) i code) (omega (arith, room))
          ∙ store-recorded_room size codes code room)
        (omega (arith, length-append codes (code ∷ []), room)))
  | no full ↦ rw (le→ltb (min (length codes) size) size (omega (arith, full))) (
      ap₂
        (λ array index. record {
          capacity = size;
          m_error_codes_container = array;
          m_index = index;
        })
        (store-recorded_over size codes code positive (omega (arith, full)))
        (omega (arith, length-append codes (code ∷ []), full)))
]

add_each-holding :
    (size : ℕ) (codes more : List ℤ)
    → 0 < size
    → add_each more (holding size codes) ≡ holding size (codes ++ more)
unfolding add_each
add_each-holding size codes [] positive = ap (holding size) (sym (append-nil codes))
add_each-holding size codes (code ∷ more) positive =
    ap (add_each more) (add_error-holding size codes code positive)
    ∙ add_each-holding size (codes ++ code ∷ []) more positive
    ∙ ap (holding size) (append_assoc codes (code ∷ []) more)

empty-holding : (size : ℕ) → error_codes_container size ≡ holding size []
unfolding error_codes_container holding recorded
empty-holding size = ground arith

-- Whatever codes a nonempty container is given, it holds them in order with zeros behind, while
-- they fit; once they do not, it holds as many as its size less one, then the code that says so. It
-- has errors exactly when it was given any.
pub add_each-recorded :
    (size : ℕ) (codes : List ℤ)
    → 0 < size
    → (get_array (add_each codes (error_codes_container size)) ≡ recorded size codes)
      × (has_errors (add_each codes (error_codes_container size)) ≡ not (length codes == 0))
unfolding holding has_errors
add_each-recorded size codes positive =
    rw (empty-holding size, add_each-holding size [] codes positive) (refl, ground arith)

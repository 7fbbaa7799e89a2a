-- ===== src/Devices/Text.antt =====
-- Texts as lists of character codes. `to_string` of a number is the C++ library's: a parameter of
use mathlib.Core.List.{append-nil, append_assoc}
-- the definitions that use it.
use Prim.Native.Char.{code}
use Prim.Native.String.{String}
use sycl_cts.Prelude.{
  List, [], ap, arith, length, length-append, take, take-append, ℕ, ◌++◌, ◌-◌, ◌∙◌, ◌∷◌, ◌≡◌,
}

abbrev pub Text : Type 0
Text = List ℕ

abbrev pub text : String → Text
text String.[] = []
text (String.◌∷◌ c s) = code c ∷ text s

-- `result.resize(result.size() - n)`
abbrev pub drop_last : ℕ → Text → Text
drop_last n s = take (length s - n) s

pub drop_last-append : (s t : Text) → drop_last (length t) (s ++ t) ≡ s
drop_last-append s t =
    rw (length-append s t) (ap (λ n. take n (s ++ t)) (omega arith) ∙ take-append s t)

-- The texts with a separator between each two.
unfoldable pub join : Text → List Text → Text
join separator [] = []
join separator (x ∷ []) = x
join separator (x ∷ y ∷ rest) = x ++ separator ++ join separator (y ∷ rest)

-- A loop that puts the separator behind each text.
unfoldable pub terminated : Text → List Text → Text
terminated separator [] = []
terminated separator (x ∷ xs) = x ++ separator ++ terminated separator xs

pub terminated-join :
    (separator x : Text) (xs : List Text)
    → terminated separator (x ∷ xs) ≡ join separator (x ∷ xs) ++ separator
unfolding join terminated
terminated-join separator x [] = simp append-nil
terminated-join separator x (y ∷ rest) =
    ap (λ t. x ++ separator ++ t) (terminated-join separator y rest) ∙ simp append_assoc

-- ===== src/Harness/GroupRange.antt =====
-- `work_group_range` of tests/common/get_group_range.h. What the device answers is an argument,
-- and so is `root rest d`, the floating-point `pow(rest, 1. / d)` cut to an integer.
-- The sizes stand from the last dimension down to the first.
use mathlib.Core.Option
use native.Mathlib.Nat.{mod-add-div', mul-le-mul}
use sycl_cts.Prelude.{
  ==_iff, Bool-cases, List, Option, [], ap, arith, if◌then◌else◌, inl, inr, length, min, none, some,
  suc, zero, ℕ, ◌%◌, ◌*◌, ◌++◌, ◌+◌, ◌/◌, ◌==◌, ◌∷◌, ◌≡◌, ◌≤◌,
}

-- `while (rest % pref_size != 0) --pref_size`. A division by 0 is `none`.
pub shrink : ℕ → ℕ → Option ℕ
shrink rest zero = none
shrink rest (suc pref) =
    let smaller = shrink rest pref in if rest % suc pref == 0 then some (suc pref) else smaller

-- The loop over `cur_D`, from the last dimension to the second: the sizes that it chooses, and
-- what it leaves for the first dimension. `limits` are the `max_work_item_sizes` of those.
pub choose_sizes : (ℕ → ℕ → ℕ) → List ℕ → ℕ → Option (List ℕ × ℕ)
unfolding shrink
choose_sizes root [] rest = some ([], rest)
choose_sizes root (limit ∷ limits) rest =
    elim (shrink rest (min (root rest (length limits + 2) + 1) limit)) [
      | none ↦ none
      | some pref ↦
          Option.map (λ (found : List ℕ × ℕ). (pref ∷ found.0, found.1))
            (choose_sizes root limits (rest / pref))
    ]

-- `first` is the limit of the first dimension, `limits` those of the others.
pub work_group_range : (ℕ → ℕ → ℕ) → ℕ → List ℕ → ℕ → ℕ → Option (List ℕ)
unfolding choose_sizes
work_group_range root first limits device_limit work_items_limit =
    Option.map (λ (found : List ℕ × ℕ). found.0 ++ min first found.1 ∷ [])
      (choose_sizes root limits (min device_limit work_items_limit))

pub work_items : List ℕ → ℕ
work_items [] = 1
work_items (n ∷ sizes) = n * work_items sizes

-- Each size is at least 1 and within its limit.
abbrev pub AreWithin : List ℕ → List ℕ → Type 0
AreWithin [] [] = Unit
AreWithin (n ∷ sizes) (limit ∷ limits) = (1 ≤ n) × (n ≤ limit) × AreWithin sizes limits
AreWithin [] (limit ∷ limits) = ⊥
AreWithin (n ∷ sizes) [] = ⊥

abbrev pub ArePositive : List ℕ → Type 0
ArePositive [] = Unit
ArePositive (n ∷ limits) = (1 ≤ n) × ArePositive limits

-- A size that the loop ends with divides the rest.
pub shrink-divides :
    (rest pref : ℕ)
    → 1 ≤ pref
    → (n : ℕ) × (shrink rest pref ≡ some n) × (1 ≤ n) × (n ≤ pref) × (rest % n ≡ 0)
unfolding shrink
shrink-divides rest zero h = absurd (omega arith)
shrink-divides rest (suc zero) h = (1, ground arith, omega arith, omega arith, omega arith)
shrink-divides rest (suc (suc p)) h = elim (Bool-cases (rest % suc (suc p) == 0)) [
  | inl e ↦ (suc (suc p), rw e, omega arith, omega arith, (==_iff (rest % suc (suc p)) 0).0 e)
  | inr e ↦
      let found = shrink-divides rest (suc p) (omega arith) in
      (found.0, rw e found.1, found.2, omega (arith, found.3), found.4)
]

-- The sizes and what is left multiply to the whole.
abbrev Chooses : List ℕ → ℕ → Option (List ℕ × ℕ) → Type 0
Chooses limits rest none = ⊥
Chooses limits rest (some (sizes, left)) =
    AreWithin sizes limits × (work_items sizes * left ≡ rest) × (1 ≤ left)

quotient_pos : (rest n : ℕ) → 1 ≤ rest → rest % n ≡ 0 → (rest / n * n ≡ rest) × (1 ≤ rest / n)
quotient_pos rest n h e = (whole, go (rest / n) whole)
  where
    whole : rest / n * n ≡ rest
    whole = omega (arith, mod-add-div' rest n)

    go : (q : ℕ) → q * n ≡ rest → 1 ≤ q
    go zero eq = absurd (omega arith)
    go (suc q) eq = omega arith

extend :
    (limit rest n : ℕ) (limits : List ℕ) (o : Option (List ℕ × ℕ))
    → 1 ≤ n
    → n ≤ limit
    → rest / n * n ≡ rest
    → Chooses limits (rest / n) o
    → Chooses (limit ∷ limits) rest (Option.map (λ (found : List ℕ × ℕ). (n ∷ found.0, found.1)) o)
unfolding work_items
extend limit rest n limits none p q e h = h
extend limit rest n limits (some (sizes, left)) p q e h =
    ((p, q, h.0), omega (arith, e, ap (λ (t : ℕ). t * n) h.1), h.2)

choose_sizes-shrink :
    (root : ℕ → ℕ → ℕ) (limit : ℕ) (limits : List ℕ) (rest n : ℕ)
    → shrink rest (min (root rest (length limits + 2) + 1) limit) ≡ some n
    → choose_sizes root (limit ∷ limits) rest
      ≡ Option.map
          (λ (found : List ℕ × ℕ). (n ∷ found.0, found.1))
          (choose_sizes root limits (rest / n))
unfolding choose_sizes
choose_sizes-shrink root limit limits rest n e = rw (e, choose_sizes)

choose_sizes-Chooses :
    (root : ℕ → ℕ → ℕ) (limits : List ℕ) (rest : ℕ)
    → ArePositive limits
    → 1 ≤ rest
    → Chooses limits rest (choose_sizes root limits rest)
unfolding choose_sizes work_items
choose_sizes-Chooses root [] rest p h = (tt, omega arith, h)
choose_sizes-Chooses root (limit ∷ limits) rest p h =
    let start : ℕ = min (root rest (length limits + 2) + 1) limit in
    let found = shrink-divides rest start (omega (arith, p.0)) in
    let whole = quotient_pos rest found.0 h found.4 in
    rw (choose_sizes-shrink root limit limits rest found.0 found.1) (
      extend limit rest found.0 limits (choose_sizes root limits (rest / found.0)) found.2
        (omega (arith, found.3)) whole.0
        (choose_sizes-Chooses root limits (rest / found.0) p.1 whole.1))

-- The sizes of a work-group of `total` items at most, each within its limit.
abbrev pub Fits : ℕ → List ℕ → ℕ → Option (List ℕ) → Type 0
Fits first limits total none = ⊥
Fits first limits total (some sizes) =
    AreWithin sizes (limits ++ first ∷ [])
    × (work_items sizes ≤ total)
    × (total ≤ first → work_items sizes ≡ total)

AreWithin-append :
    (sizes limits : List ℕ) (n limit : ℕ)
    → AreWithin sizes limits
    → 1 ≤ n
    → n ≤ limit
    → AreWithin (sizes ++ n ∷ []) (limits ++ limit ∷ [])
AreWithin-append [] [] n limit h p q = (p, q, tt)
AreWithin-append [] (l ∷ limits) n limit h p q = absurd h
AreWithin-append (s ∷ sizes) [] n limit h p q = absurd h
AreWithin-append (s ∷ sizes) (l ∷ limits) n limit h p q =
    (h.0, h.1, AreWithin-append sizes limits n limit h.2 p q)

work_items-append : (sizes : List ℕ) (n : ℕ) → work_items (sizes ++ n ∷ []) ≡ work_items sizes * n
unfolding work_items
work_items-append [] n = omega arith
work_items-append (s ∷ sizes) n = rw (work_items-append sizes n) (omega arith)

work_items_pos : (sizes limits : List ℕ) → AreWithin sizes limits → 1 ≤ work_items sizes
unfolding work_items
work_items_pos [] limits h = omega arith
work_items_pos (s ∷ sizes) [] h = absurd h
work_items_pos (s ∷ sizes) (l ∷ limits) h = mul-le-mul h.0 (work_items_pos sizes limits h.2)

last_size :
    (first total : ℕ) (limits : List ℕ) (o : Option (List ℕ × ℕ))
    → 1 ≤ first
    → Chooses limits total o
    → Fits first limits total
        (Option.map (λ (found : List ℕ × ℕ). found.0 ++ min first found.1 ∷ []) o)
last_size first total limits none p h = h
last_size first total limits (some (sizes, left)) p h = (
  AreWithin-append sizes limits (min first left) first h.0 (omega (arith, p, h.2)) (omega arith),
  rw (work_items-append sizes (min first left)) bound,
  λ small. rw (work_items-append sizes (min first left)) (exact small),
)
  where
    below : work_items sizes * min first left ≤ work_items sizes * left
    below = mul-le-mul (omega arith) (omega arith)

    bound : work_items sizes * min first left ≤ total
    bound = omega (arith, h.1, below)

    left_le : 1 * left ≤ work_items sizes * left
    left_le = mul-le-mul (work_items_pos sizes limits h.0) (omega arith)

    exact : total ≤ first → work_items sizes * min first left ≡ total
    exact small =
        let whole : min first left ≡ left = omega (arith, left_le, h.1, small) in rw whole h.1

-- For a device whose limits are at least 1, and whatever the floating-point root is, the range has
-- a size of at least 1 within its limit in each dimension, its work-group is within the device's
-- limit and the caller's, and it reaches the lower of them if that fits the first dimension.
pub work_group_range-Fits :
    (root : ℕ → ℕ → ℕ) (first : ℕ) (limits : List ℕ) (device_limit work_items_limit : ℕ)
    → 1 ≤ first
    → ArePositive limits
    → 1 ≤ device_limit
    → 1 ≤ work_items_limit
    → Fits first limits
        (min device_limit work_items_limit)
        (work_group_range root first limits device_limit work_items_limit)
unfolding work_group_range
work_group_range-Fits root first limits device_limit work_items_limit p ps q r =
    last_size first (min device_limit work_items_limit) limits
      (choose_sizes root limits (min device_limit work_items_limit)) p
      (choose_sizes-Chooses root limits (min device_limit work_items_limit) ps (omega arith))

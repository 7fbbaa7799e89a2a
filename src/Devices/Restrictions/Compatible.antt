-- ===== src/Devices/Restrictions/Compatible.antt =====
-- What `is_compatible` decides, and when it throws.
use mathlib.Core.Option
use native.Mathlib.Nat.{add-mul-mod_self_left, mod-add-div}
use mathlib.Core.List.{append-nil, append_assoc}
use sycl_cts.Machine.{modulus, w64}
use sycl_cts.Devices.Text.{Text, join, text}
use sycl_cts.Reference.ResultRef.{is_empty}
use sycl_cts.Prelude.{
  Bool, Bool-cases, List, Option, [], ap, arith, false, if◌then◌else◌, inl, inr, leb, none, not,
  refl, some, sym, take, true, ℕ, ◌%◌, ◌&&◌, ◌*◌, ◌++◌, ◌/◌, ◌<◌, ◌==◌, ◌||◌, ◌∙◌, ◌∷◌, ◌≡◌, ◌≤◌,
}
use sycl_cts.Devices.Aspects.{
  Aspect, AspectSet, IsOrdered, delimiter, insert, names_of, to_string-join,
}
use sycl_cts.Devices.Restrictions.{
  Device, KernelRestrictions, check_aspects, check_sub_group_size, check_work_group_size,
  final_info, find_size, is_compatible, missing_loop, product_loop, report_aspects, requested_size,
}

-- The aspects of a set that a device lacks.
unfoldable pub missing : Device → AspectSet → AspectSet
missing device [] = []
missing device (asp ∷ rest) =
    if device.has asp then missing device rest else asp ∷ missing device rest

-- What a device has to meet, the product of the sizes being the one that `size_t` holds.
abbrev pub meets : KernelRestrictions → Device → Bool
meets k device =
    is_empty (missing device k.m_aspects)
    && (not k.has_sub_group_size || find_size k.sub_group_size device.sub_group_sizes)
    && (k.work_group_size_dims == 0 || leb (requested_size k) device.max_work_group_size)

module _ (rank : Aspect → ℕ) (show : ℕ → Text) where
  -- Every element of a set stands below `n`.
  abbrev Below : ℕ → AspectSet → Type 0
  Below n [] = Unit
  Below n (a ∷ set) = (rank a < n) × Below n set

  insert-last :
      (asp : Aspect) (set : AspectSet)
      → Below (rank asp) set
      → insert rank asp set ≡ set ++ asp ∷ []
  unfolding insert
  insert-last asp [] h = refl
  insert-last asp (a ∷ set) h = ground (arith, insert-last asp set)

  Below-append :
      (n : ℕ) (set : AspectSet) (asp : Aspect)
      → Below n set
      → rank asp < n
      → Below n (set ++ asp ∷ [])
  Below-append n [] asp h k = (k, tt)
  Below-append n (a ∷ set) asp h k = (h.0, Below-append n set asp h.1 k)

  Below-le : (m n : ℕ) (set : AspectSet) → m ≤ n → Below m set → Below n set
  Below-le m n [] h k = tt
  Below-le m n (a ∷ set) h k = (omega (arith, k.0), Below-le m n set h k.1)

  -- What is found so far stands below what the loop has left.
  abbrev Ready : AspectSet → AspectSet → Type 0
  Ready found [] = Unit
  Ready found (a ∷ rest) = Below (rank a) found

  Ready-skip :
      (found : AspectSet) (a : Aspect) (rest : AspectSet)
      → IsOrdered rank (a ∷ rest)
      → Below (rank a) found
      → Ready found rest
  Ready-skip found a [] o b = tt
  Ready-skip found a (c ∷ rest) o b = Below-le (rank a) (rank c) found (omega (arith, o.0)) b

  Ready-append :
      (found : AspectSet) (a : Aspect) (rest : AspectSet)
      → IsOrdered rank (a ∷ rest)
      → Below (rank a) found
      → Ready (found ++ a ∷ []) rest
  Ready-append found a [] o b = tt
  Ready-append found a (c ∷ rest) o b =
      Below-append (rank c) found a (Below-le (rank a) (rank c) found (omega (arith, o.0)) b) o.0

  -- The loop finds the missing aspects, in the order of the set.
  missing_loop-missing :
      (device : Device) (found rest : AspectSet)
      → IsOrdered rank rest
      → Ready found rest
      → missing_loop rank show device found rest ≡ found ++ missing device rest
  unfolding missing_loop missing
  missing_loop-missing device found [] o r = simp append-nil
  missing_loop-missing device found (a ∷ rest) o r = elim (Bool-cases (device.has a)) [
    | inl e ↦ rw e (missing_loop-missing device found rest o.1 (Ready-skip found a rest o r))
    | inr e ↦
        rw (e, insert-last a found r)
          (missing_loop-missing device (found ++ a ∷ []) rest o.1 (Ready-append found a rest o r)
            ∙ append_assoc found (a ∷ []) (missing device rest))
  ]

  -- The verdict behind the check of the aspects.
  abbrev pub verdict : Option (Bool × Text) → Option Bool
  verdict o = Option.map (λ (checked : Bool × Text). checked.0) o

  Ready-nil : (set : AspectSet) → Ready [] set
  Ready-nil [] = tt
  Ready-nil (a ∷ set) = tt

  kept_verdict :
      (o : Option (List Text)) (f : Text → Text)
      → verdict (Option.map (λ names. (false, f names)) (Option.map (join delimiter) o))
        ≡ Option.map (λ names. false) o
  kept_verdict none f = refl
  kept_verdict (some names) f = refl

  report_aspects-verdict :
      (set : AspectSet) (info : Text)
      → verdict (report_aspects rank show set info)
        ≡ Option.map (λ names. is_empty set) (names_of set)
  unfolding report_aspects names_of
  report_aspects-verdict [] info = refl
  report_aspects-verdict (a ∷ set) info = rw (to_string-join a set).1 (
      kept_verdict (names_of (a ∷ set))
        λ names. info ++ text "incompatible with aspects: (" ++ names ++ text "); ")

  check_aspects-verdict :
      (k : KernelRestrictions) (device : Device) (info : Text)
      → IsOrdered rank k.m_aspects
      → verdict (check_aspects rank show k device info)
        ≡ Option.map
            (λ names. is_empty (missing device k.m_aspects))
            (names_of (missing device k.m_aspects))
  unfolding check_aspects
  check_aspects-verdict k device info o =
      rw (missing_loop-missing device [] k.m_aspects o (Ready-nil k.m_aspects))
        (report_aspects-verdict (missing device k.m_aspects) info)

  later_checks :
      (k : KernelRestrictions) (device : Device) (checked : Bool × Text)
      → (check_work_group_size rank show k device
          (check_sub_group_size rank show k device checked)).0
        ≡ (checked.0
            && (not k.has_sub_group_size || find_size k.sub_group_size device.sub_group_sizes)
            && (k.work_group_size_dims == 0 || leb (requested_size k) device.max_work_group_size))
  unfolding check_work_group_size check_sub_group_size
  later_checks k device (true, info) = ground arith
  later_checks k device (false, info) = ground arith

  final_verdict :
      (k : KernelRestrictions) (device : Device) (o : Option (Bool × Text))
      → verdict (
          Option.map
            (λ checked. final_info rank show (
              check_work_group_size rank show k device
                (check_sub_group_size rank show k device checked)))
            o)
        ≡ Option.map
            (λ passed.
              passed
              && (not k.has_sub_group_size || find_size k.sub_group_size device.sub_group_sizes)
              && (k.work_group_size_dims == 0 || leb (requested_size k) device.max_work_group_size))
            (verdict o)
  final_verdict k device none = refl
  final_verdict k device (some checked) = ap some (
      first_part
        (check_work_group_size rank show k device (check_sub_group_size rank show k device checked))
      ∙ later_checks k device checked)
    where
      first_part : (p : Bool × Text) → (final_info rank show p).0 ≡ p.0
      first_part (b, info) = refl

  -- For restrictions whose aspects stand in increasing order, as a `std::set` holds them,
  -- `is_compatible` throws exactly when the device lacks an aspect that has no name. Otherwise it
  -- decides whether the device has every aspect, offers the sub-group size that is asked for, if
  -- one is, and takes a work-group of the product of the sizes, if there are any.
  pub is_compatible-verdict :
      (k : KernelRestrictions) (device : Device) (info : Text)
      → IsOrdered rank k.m_aspects
      → verdict (is_compatible rank show k device info)
        ≡ Option.map (λ names. meets k device) (names_of (missing device k.m_aspects))
  unfolding is_compatible
  is_compatible-verdict k device info o =
      final_verdict k device (check_aspects rank show k device info)
      ∙ rw (check_aspects-verdict k device info o) (fused (names_of (missing device k.m_aspects)))
    where
      fused :
          (o : Option (List Text))
          → Option.map
              (λ passed.
                passed
                && (not k.has_sub_group_size || find_size k.sub_group_size device.sub_group_sizes)
                && (k.work_group_size_dims == 0
                    || leb (requested_size k) device.max_work_group_size))
              (Option.map (λ names. is_empty (missing device k.m_aspects)) o)
            ≡ Option.map (λ names. meets k device) o
      fused none = refl
      fused (some names) = refl

-- The exact product of the sizes.
unfoldable pub product : List ℕ → ℕ
product [] = 1
product (n ∷ sizes) = n * product sizes

product_loop-mod :
    (requested : ℕ) (sizes : List ℕ)
    → product_loop requested sizes % modulus w64 ≡ requested * product sizes % modulus w64
unfolding product_loop product
product_loop-mod requested [] = omega arith
product_loop-mod requested (n ∷ sizes) =
    product_loop-mod (requested * n % modulus w64) sizes
    ∙ mul-mod-mul (requested * n) (product sizes) (modulus w64)
    ∙ ap (λ t. t % modulus w64) (omega arith)
  where
    mul-mod-mul : (a b m : ℕ) → a % m * b % m ≡ a * b % m
    mul-mod-mul a b m =
        sym (add-mul-mod_self_left (a % m * b) m (a / m * b))
        ∙ ap (λ t. t % m) (omega (arith, ap (λ (t : ℕ). t * b) (mod-add-div a m)))

product_loop-lt :
    (requested : ℕ) (sizes : List ℕ)
    → requested < modulus w64
    → product_loop requested sizes < modulus w64
unfolding product_loop
product_loop-lt requested [] h = h
product_loop-lt requested (n ∷ sizes) h =
    product_loop-lt (requested * n % modulus w64) sizes (omega arith)

-- The size that is asked for is the exact product of the sizes modulo 2 ^ 64: it wraps around.
requested_size-mod :
    (k : KernelRestrictions)
    → requested_size k ≡ product (take k.work_group_size_dims k.work_group_size) % modulus w64
unfolding requested_size
requested_size-mod k =
    omega (arith, product_loop-mod 1 sizes, product_loop-lt 1 sizes (omega arith))
  where
    sizes : List ℕ
    sizes = take k.work_group_size_dims k.work_group_size

-- ===== src/Devices/Aspects.antt =====
-- util/aspect_set.h and aspect_set.cpp. `std::set<sycl::aspect>` is the list of its elements in
-- the order of their enumeration values, which are those of the SYCL implementation: `rank`.
use mathlib.Core.List.{append-nil, append_assoc}
use mathlib.Core.Option
use sycl_cts.Prelude.{
  Bool, Bool-cases, List, Option, Option-cases, [], ap, arith, false, if◌then◌else◌, inl, inr,
  length, ltb, ltb→lt, none, refl, some, ℕ, ◌++◌, ◌<◌, ◌==◌, ◌||◌, ◌∙◌, ◌∷◌, ◌≡◌,
}
use sycl_cts.Devices.Text.{
  Text, drop_last, drop_last-append, join, terminated, terminated-join, text,
}

-- `sycl::aspect`; `unnamed` stands for the aspects that the names leave out.
pub data Aspect : Type 0 where
  cpu gpu accelerator custom fp16 fp64 atomic64 image online_compiler online_linker : Aspect
  queue_profiling usm_device_allocations usm_host_allocations : Aspect
  usm_atomic_host_allocations usm_shared_allocations usm_atomic_shared_allocations : Aspect
  usm_system_allocations : Aspect
  unnamed : ℕ → Aspect

-- `none` is the exception `std::logic_error("Failed to map_name")`.
unfoldable pub map_name : Aspect → Option Text
map_name cpu = some (text "cpu")
map_name gpu = some (text "gpu")
map_name accelerator = some (text "accelerator")
map_name custom = some (text "custom")
map_name fp16 = some (text "fp16")
map_name fp64 = some (text "fp64")
map_name atomic64 = some (text "atomic64")
map_name image = some (text "image")
map_name online_compiler = some (text "online_compiler")
map_name online_linker = some (text "online_linker")
map_name queue_profiling = some (text "queue_profiling")
map_name usm_device_allocations = some (text "usm_device_allocations")
map_name usm_host_allocations = some (text "usm_host_allocations")
map_name usm_atomic_host_allocations = some (text "usm_atomic_host_allocations")
map_name usm_shared_allocations = some (text "usm_shared_allocations")
map_name usm_atomic_shared_allocations = some (text "usm_atomic_shared_allocations")
map_name usm_system_allocations = some (text "usm_system_allocations")
map_name (unnamed n) = none

abbrev pub AspectSet : Type 0
AspectSet = List Aspect

abbrev pub delimiter : Text
delimiter = text ", "

-- The loop of `to_string`, with the text so far.
pub append_names : Text → AspectSet → Option Text
append_names result [] = some result
append_names result (asp ∷ rest) = elim (map_name asp) [
  | none ↦ none
  | some name ↦ append_names (result ++ name ++ delimiter) rest
]

unfoldable pub to_string : AspectSet → Option Text
unfolding append_names map_name
to_string [] = some (text "none")
to_string (asp ∷ rest) =
    Option.map (λ result. drop_last (length delimiter) result) (append_names [] (asp ∷ rest))

module _ (rank : Aspect → ℕ) where
  -- `m_aspects.insert(asp)`
  unfoldable pub insert : Aspect → AspectSet → AspectSet
  insert asp [] = asp ∷ []
  insert asp (a ∷ set) =
      if rank asp == rank a
      then a ∷ set
      else if ltb (rank asp) (rank a)
      then asp ∷ a ∷ set
      else a ∷ insert asp set

  -- `m_aspects.insert(first, last)`
  unfoldable pub insert_all : AspectSet → AspectSet → AspectSet
  insert_all [] set = set
  insert_all (asp ∷ rest) set = insert_all rest (insert asp set)

  abbrev pub has_aspect : AspectSet → Aspect → Bool
  has_aspect [] a = false
  has_aspect (x ∷ xs) a = rank a == rank x || has_aspect xs a

  abbrev Above : ℕ → AspectSet → Type 0
  Above n [] = Unit
  Above n (a ∷ set) = n < rank a

  -- The elements stand in increasing order, so none stands twice.
  abbrev pub IsOrdered : AspectSet → Type 0
  IsOrdered [] = Unit
  IsOrdered (a ∷ set) = Above (rank a) set × IsOrdered set

  Above-insert :
      (n : ℕ) (asp : Aspect) (set : AspectSet)
      → n < rank asp
      → Above n set
      → Above n (insert asp set)
  unfolding insert
  Above-insert n asp [] h k = h
  Above-insert n asp (a ∷ set) h k = ground arith

  pub insert-IsOrdered :
      (asp : Aspect) (set : AspectSet) → IsOrdered set → IsOrdered (insert asp set)
  unfolding insert
  insert-IsOrdered asp [] h = (tt, tt)
  insert-IsOrdered asp (a ∷ set) h = elim (Bool-cases (rank asp == rank a)) [
    | inl e ↦ rw e h
    | inr e ↦ elim (Bool-cases (ltb (rank asp) (rank a))) [
      | inl l ↦ rw (e, l) (ltb→lt (rank asp) (rank a) l, h)
      | inr l ↦
          rw (e, l) (Above-insert (rank a) asp set (ground arith) h.0, insert-IsOrdered asp set h.1)
    ]
  ]

  pub has_aspect-insert :
      (asp a : Aspect) (set : AspectSet)
      → has_aspect (insert asp set) a ≡ (rank a == rank asp || has_aspect set a)
  unfolding insert
  has_aspect-insert asp a [] = ground arith
  has_aspect-insert asp a (x ∷ set) = ground (arith, has_aspect-insert asp a set)

  -- Adding a list of aspects to a set that stands in increasing order leaves it in increasing order,
  -- so that no aspect stands twice.
  insert_all-IsOrdered : (xs set : AspectSet) → IsOrdered set → IsOrdered (insert_all xs set)
  unfolding insert_all
  insert_all-IsOrdered [] set h = h
  insert_all-IsOrdered (x ∷ xs) set h =
      insert_all-IsOrdered xs (insert x set) (insert-IsOrdered x set h)

  pub has_aspect-insert_all :
      (xs set : AspectSet) (a : Aspect)
      → has_aspect (insert_all xs set) a ≡ (has_aspect xs a || has_aspect set a)
  unfolding insert_all
  has_aspect-insert_all [] set a = refl
  has_aspect-insert_all (x ∷ xs) set a =
      ground (arith, has_aspect-insert_all xs (insert x set) a, has_aspect-insert x a set)

-- The names of a set, if each of its aspects has one.
unfoldable pub names_of : AspectSet → Option (List Text)
names_of [] = some []
names_of (a ∷ set) = elim (map_name a) [
  | none ↦ none
  | some name ↦ Option.map (λ names. name ∷ names) (names_of set)
]

names_regroup :
    (result name : Text) (o : Option (List Text))
    → Option.map (λ names. (result ++ name ++ delimiter) ++ terminated delimiter names) o
      ≡ Option.map
          (λ names. result ++ terminated delimiter names)
          (Option.map (λ names. name ∷ names) o)
unfolding terminated
names_regroup result name none = refl
names_regroup result name (some names) = ap some (simp append_assoc)

append_names-names_of :
    (result : Text) (set : AspectSet)
    → append_names result set
      ≡ Option.map (λ names. result ++ terminated delimiter names) (names_of set)
unfolding append_names names_of terminated
append_names-names_of result [] = simp append-nil
append_names-names_of result (a ∷ set) = elim (Option-cases (map_name a)) [
  | inl e ↦ rw (e, append_names, names_of)
  | inr (name, e) ↦
      rw (e, append_names, names_of)
        (append_names-names_of (result ++ name ++ delimiter) set
          ∙ names_regroup result name (names_of set))
]

without_last :
    (name : Text) (o : Option (List Text))
    → Option.map
        (λ result. drop_last (length delimiter) result)
        (Option.map (λ names. terminated delimiter names) (Option.map (λ names. name ∷ names) o))
      ≡ Option.map (join delimiter) (Option.map (λ names. name ∷ names) o)
without_last name none = refl
without_last name (some names) = ap some (
    ap (drop_last (length delimiter)) (terminated-join delimiter name names)
    ∙ drop_last-append (join delimiter (name ∷ names)) delimiter)

-- The text of a nonempty set is the names of its aspects in order, a comma and a blank between
-- each two, and the conversion throws exactly when one of them has no name. The text of the empty
-- set is `none`.
pub to_string-join :
    (a : Aspect) (set : AspectSet)
    → (to_string [] ≡ some (text "none"))
      × (to_string (a ∷ set) ≡ Option.map (join delimiter) (names_of (a ∷ set)))
unfolding to_string names_of
to_string-join a set = (
  refl,
  elim (Option-cases (map_name a)) [
    | inl e ↦ rw (append_names-names_of [] (a ∷ set)) (rw (e, names_of))
    | inr (name, e) ↦
        rw (append_names-names_of [] (a ∷ set))
          (rw (e, names_of) (without_last name (names_of set)))
  ],
)

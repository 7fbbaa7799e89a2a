-- ===== src/Util/Singleton.antt =====
-- util/singleton.h. An object is the number of its construction; `constructed` counts them, and
-- `alive` are the ones that no destructor has run for. One thread uses the singleton.
use sycl_cts.Prelude.{List, Option, none, refl, some, ℕ, ◌+◌, ◌∷◌, ◌≡◌}

pub record Singleton : Type 0 where
  pub m_instance : Option ℕ
  pub constructed : ℕ
  pub alive : List ℕ

-- `m_instance.reset(new T())` of an empty pointer, and the object it points to.
unfoldable pub instance_of : Singleton → ℕ × Singleton
instance_of s = elim s.m_instance [
  | some object ↦ (object, s)
  | none ↦ (
    s.constructed,
    record {
      m_instance = some s.constructed;
      constructed = s.constructed + 1;
      alive = s.constructed ∷ s.alive;
    },
  )
]

-- `std::unique_ptr::release` gives the object up; no destructor runs.
unfoldable pub release : Singleton → Singleton
release s = record s { m_instance = none }

abbrev state : Option ℕ → ℕ → List ℕ → Singleton
state m_instance constructed alive = record {
  m_instance = m_instance;
  constructed = constructed;
  alive = alive;
}

instance_again :
    (o : Option ℕ) (constructed : ℕ) (alive : List ℕ)
    → (instance_of (instance_of (state o constructed alive)).1)
      ≡ instance_of (state o constructed alive)
unfolding instance_of
instance_again none constructed alive = refl
instance_again (some object) constructed alive = refl

-- `instance()` keeps giving one object, and constructs no other, until `release()`. Behind one it
-- gives the next object that it constructs, and the first is still alive.
instance_of-release :
    (s : Singleton)
    → (instance_of (instance_of s).1 ≡ instance_of s)
      × (((instance_of (release (instance_of s).1)).0 ≡ (instance_of s).1.constructed)
          × ((instance_of (release (instance_of s).1)).1.alive
              ≡ (instance_of s).1.constructed ∷ (instance_of s).1.alive))
unfolding instance_of release
instance_of-release s = (instance_again s.m_instance s.constructed s.alive, (refl, refl))

-- ===== src/Requirements/Faithful.antt =====
-- Iterators whose operations agree with positions in a sequence, and what the verifications of
-- util/named_requirement_verification find when they run them.
use sycl_cts.Prelude.{==_iff, ap, arith, false, not, refl, suc, sym, true, ℕ, ◌-◌, ◌==◌, ◌∙◌, ◌≡◌}
use sycl_cts.Requirements.Checks.{Operations}
use sycl_cts.Requirements.Iterators.{multipass}
use sycl_cts.Requirements.RandomAccess.{round_trip}

-- The operations follow the position of an iterator, whatever the state, and the elements do not
-- change.
pub record IsFaithful {S It V : Type 0} (ops : Operations S It V) (position : It → ℕ)
    (element : ℕ → V) : Type 0 where
  pub increment_position : (s : S) (i : It) → position (ops.increment s i).0 ≡ suc (position i)
  pub decrement_position : (s : S) (i : It) → position (ops.decrement s i).0 ≡ position i - 1
  pub value_element : (s : S) (i : It) → ops.value s i ≡ element (position i)
  pub equals_position : (s : S) (i j : It) → ops.equals s i j ≡ (position i == position j)
  pub differs_position : (s : S) (i j : It) → ops.differs s i j ≡ not (position i == position j)
  pub value_reflexive : (v : V) → ops.value_differs v v ≡ false

module _ {S It V : Type 0} (ops : Operations S It V) (position : It → ℕ) (element : ℕ → V)
    (faithful : IsFaithful ops position element) (s : S) (valid_iterator : It) where
  same_position : (s : S) (i j : It) → position i ≡ position j → ops.differs s i j ≡ false
  same_position s i j h =
      faithful.differs_position s i j ∙ ap not ((==_iff (position i) (position j)).1 h)

  same_value :
      (s t : S)
      → ops.value_differs (ops.value s valid_iterator) (ops.value t valid_iterator) ≡ false
  same_value s t =
      rw (faithful.value_element s valid_iterator, faithful.value_element t valid_iterator)
        (faithful.value_reflexive (element (position valid_iterator)))

  -- The multipass and round trip verifications raise no alarm on an iterator whose operations
  -- follow a position in a sequence: none of the conditions of codes 21 to 24 and 8 to 10 holds, in
  -- whatever state they start.
  pub faithful-passes :
      (((multipass ops s valid_iterator).values_differ ≡ false)
        × (((multipass ops s valid_iterator).iterators_differ ≡ false)
            × (((multipass ops s valid_iterator).increments_differ ≡ false)
                × ((multipass ops s valid_iterator).value_changes ≡ false))))
      × (((round_trip ops s valid_iterator).return_differs ≡ false)
          × (((round_trip ops s valid_iterator).returns_equal ≡ true)
              × ((round_trip ops s valid_iterator).returns_differ ≡ false)))
  unfolding multipass round_trip
  faithful-passes =
      let step = faithful.increment_position in
      let back = faithful.decrement_position in
      let up = ops.increment s valid_iterator in
      let again = ops.increment up.1 valid_iterator in
      let down = ops.decrement up.1 up.0 in
      let a = ops.increment down.1 valid_iterator in
      let b = ops.increment a.1 valid_iterator in
      let back_a = ops.decrement b.1 a.0 in
      let back_b = ops.decrement back_a.1 b.0 in
      let meet =
        back b.1 a.0
        ∙ ap (λ n. n - 1) (step down.1 valid_iterator ∙ sym (step a.1 valid_iterator))
        ∙ sym (back back_a.1 b.0) in
      (
        (
          same_value s s,
          (
            same_position s valid_iterator valid_iterator refl,
            (
              same_position again.1 up.0 again.0
                  (step s valid_iterator ∙ sym (step up.1 valid_iterator)),
              same_value again.1 (ops.increment again.1 valid_iterator).1,
            ),
          ),
        ),
        (
          same_position down.1 down.0 valid_iterator
              (omega (arith, back up.1 up.0, step s valid_iterator)),
          (
            faithful.equals_position back_b.1 back_a.0 back_b.0
                ∙ (==_iff (position back_a.0) (position back_b.0)).1 meet,
            same_position back_b.1 back_a.0 back_b.0 meet,
          ),
        ),
      )

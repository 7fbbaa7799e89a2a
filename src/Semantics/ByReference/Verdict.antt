-- ===== src/Semantics/ByReference/Verdict.antt =====
-- What the checks of reference semantics report.
use sycl_cts.Semantics.ByReference.Failing.{
  AllTrue, check_from-below, check_from-written, failing, failing-append, failing-nil,
}
use sycl_cts.Semantics.ByReference.{
  Class, both_ways, check_host_impl, check_host_impl_inequality, check_host_impl_move,
  check_host_unequal, copy_names, equality_names, hash_equality_helper, hash_inequality_helper,
  inequality_names, no_results, run_copy, run_equality, run_equality_hash, run_inequality,
  run_inequality_hash, run_move, run_traits, traits_names, write_from,
}
use sycl_cts.Devices.Text.{Text}
use sycl_cts.Prelude.{
  Bool, List, [], ap₂, arith, length, length-append, refl, sym, true, ◌++◌, ◌+◌, ◌↔◌, ◌∙◌, ◌≡◌, ◌≢◌,
}

abbrev pub impl_names : List Text
impl_names = traits_names ++ equality_names ++ equality_names ++ copy_names

abbrev pub host_names : List Text
host_names = impl_names ++ (inequality_names ++ inequality_names) ++ copy_names

module _ {ℓ} {A S : Type ℓ} (c : Class A S) where
  -- The results in the order in which the tests write them.
  abbrev pub impl_values : A → List Bool
  impl_values t = run_traits c ++ run_equality c t ++ run_equality_hash c t ++ run_copy c t

  abbrev pub host_values : A → A → List Bool
  host_values t0 t1 =
      impl_values t0 ++ (run_inequality c t0 t1 ++ run_inequality_hash c t0 t1) ++ (run_move c t0).0

  -- What the checks ask of an instance, its copies and what it is moved to, and of an unequal one.
  pub record HasReferenceSemantics (t0 t1 : A) : Type 0 where
    pub traits :
        (c.is_copy_constructible ≡ true)
        × (c.is_copy_assignable ≡ true)
        × (c.is_destructible ≡ true)
        × (c.is_move_constructible ≡ true)
        × (c.is_move_assignable ≡ true)
    pub reflexive : c.equal t0 t0 ≡ true
    pub copy_equal :
        (c.equal t0 (c.copy_construct t0) ≡ true) × (c.equal (c.copy_construct t0) t0 ≡ true)
    pub second_copy_equal :
        (c.equal t0 (c.copy_construct (c.copy_construct t0)) ≡ true)
        × (c.equal (c.copy_construct (c.copy_construct t0)) t0 ≡ true)
    pub hashes :
        (c.hash t0 ≡ c.hash (c.copy_construct t0))
        × (c.hash t0 ≡ c.hash (c.copy_construct (c.copy_construct t0)))
    pub copy_stores : c.check (c.store t0) (c.copy_construct t0) ≡ true
    pub unequal : (c.not_equal t0 t1 ≡ true) × (c.not_equal t1 t0 ≡ true)
    pub unequal_hashes : c.hash t0 ≢ c.hash t1
    pub move_stores :
        (c.check (c.store t0) (c.move_construct t0).0 ≡ true)
        × (c.check (c.store t0) (c.move_construct (c.move_construct t0).0).0 ≡ true)

  impl-failing : (t : A) → check_host_impl c t ≡ failing impl_names (impl_values t)
  unfolding check_host_impl run_traits run_equality run_equality_hash run_copy
  impl-failing t =
      let start = write_from 0 (run_traits c) no_results in
      let equality = write_from 5 (run_equality c t) start in
      let hashed = write_from 10 (run_equality_hash c t) equality in
      rw
        (
          failing-append (traits_names ++ equality_names ++ equality_names)
              (run_traits c ++ run_equality c t ++ run_equality_hash c t) copy_names (run_copy c t)
              refl,
          failing-append (traits_names ++ equality_names) (run_traits c ++ run_equality c t)
              equality_names (run_equality_hash c t) refl,
          failing-append traits_names (run_traits c) equality_names (run_equality c t) refl,
        )
        (ap₂ ◌++◌
          (ap₂ ◌++◌
            (ap₂ ◌++◌
              (check_from-below 0 15 traits_names (run_copy c t) hashed (omega arith)
                ∙ check_from-below 0 10 traits_names (run_equality_hash c t) equality (omega arith)
                ∙ check_from-below 0 5 traits_names (run_equality c t) start (omega arith)
                ∙ check_from-written 0 traits_names (run_traits c) no_results refl)
              (check_from-below 5 15 equality_names (run_copy c t) hashed (omega arith)
                ∙ check_from-below 5 10 equality_names (run_equality_hash c t) equality
                    (omega arith)
                ∙ check_from-written 5 equality_names (run_equality c t) start refl))
            (check_from-below 10 15 equality_names (run_copy c t) hashed (omega arith)
              ∙ check_from-written 10 equality_names (run_equality_hash c t) equality refl))
          (check_from-written 15 copy_names (run_copy c t) hashed refl))

  inequality-failing :
      (t0 t1 : A)
      → check_host_impl_inequality c t0 t1
        ≡ failing
            (inequality_names ++ inequality_names)
            (run_inequality c t0 t1 ++ run_inequality_hash c t0 t1)
  unfolding check_host_impl_inequality run_inequality run_inequality_hash
  inequality-failing t0 t1 =
      let first = write_from 0 (run_inequality c t0 t1) no_results in
      rw
        (failing-append inequality_names (run_inequality c t0 t1) inequality_names
          (run_inequality_hash c t0 t1) refl)
        (ap₂ ◌++◌
          (check_from-below 0 1 inequality_names (run_inequality_hash c t0 t1) first (omega arith)
            ∙ check_from-written 0 inequality_names (run_inequality c t0 t1) no_results refl)
          (check_from-written 1 inequality_names (run_inequality_hash c t0 t1) first refl))

  move-failing : (t : A) → (check_host_impl_move c t).0 ≡ failing copy_names (run_move c t).0
  unfolding check_host_impl_move run_move
  move-failing t = check_from-written 0 copy_names (run_move c t).0 no_results refl

  length-impl_values : (t : A) → length impl_names ≡ length (impl_values t)
  unfolding run_traits run_equality run_equality_hash run_copy
  length-impl_values t = refl

  length-inequality_values :
      (t0 t1 : A)
      → length (inequality_names ++ inequality_names)
        ≡ length (run_inequality c t0 t1 ++ run_inequality_hash c t0 t1)
  unfolding run_inequality run_inequality_hash
  length-inequality_values t0 t1 = refl

  length-host_values : (t0 t1 : A) → length host_names ≡ length (host_values t0 t1)
  unfolding run_traits run_equality run_equality_hash run_copy run_inequality run_inequality_hash
      run_move
  length-host_values t0 t1 = refl

  report-failing :
      (t0 t1 : A) → (check_host_unequal c t0 t1).0 ≡ failing host_names (host_values t0 t1)
  unfolding check_host_unequal
  report-failing t0 t1 =
      ap₂ ◌++◌ (ap₂ ◌++◌ (impl-failing t0) (inequality-failing t0 t1)) (move-failing t0)
      ∙ ap₂ ◌++◌
          (sym (
            failing-append impl_names (impl_values t0) (inequality_names ++ inequality_names)
              (run_inequality c t0 t1 ++ run_inequality_hash c t0 t1) (length-impl_values t0)))
          refl
      ∙ sym (
          failing-append (impl_names ++ (inequality_names ++ inequality_names))
            (impl_values t0 ++ (run_inequality c t0 t1 ++ run_inequality_hash c t0 t1)) copy_names
            (run_move c t0).0
            (length-append impl_names (inequality_names ++ inequality_names)
              ∙ ap₂ ◌+◌ (length-impl_values t0) (length-inequality_values t0 t1)
              ∙ sym (
                  length-append (impl_values t0)
                    (run_inequality c t0 t1 ++ run_inequality_hash c t0 t1))))

  AllTrue-HasReferenceSemantics :
      (t0 t1 : A) → AllTrue (host_values t0 t1) ↔ HasReferenceSemantics t0 t1
  unfolding run_traits run_equality run_equality_hash run_copy run_inequality run_inequality_hash
      run_move both_ways hash_equality_helper hash_inequality_helper
  AllTrue-HasReferenceSemantics t0 t1 = (λ h. ground arith, λ h. ground arith)

  -- The check of two unequal instances reports, in order, the text of each test that fails. It reports
  -- nothing exactly if the class has the traits, the first instance equals itself and its copies in
  -- both directions and by hash, its copies and what it is moved to hold what was stored, and the
  -- instances are unequal in both directions and by hash.
  pub check_host_unequal-report :
      (t0 t1 : A)
      → ((check_host_unequal c t0 t1).0 ≡ failing host_names (host_values t0 t1))
        × ((check_host_unequal c t0 t1).0 ≡ [] ↔ HasReferenceSemantics t0 t1)
  check_host_unequal-report t0 t1 =
      let report = report-failing t0 t1 in
      let silent = failing-nil host_names (host_values t0 t1) (length-host_values t0 t1) in
      let all = AllTrue-HasReferenceSemantics t0 t1 in
      (report, (λ e. all.0 (silent.0 (sym report ∙ e)), λ h. report ∙ silent.1 (all.1 h)))

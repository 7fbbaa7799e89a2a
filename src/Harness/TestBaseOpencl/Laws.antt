-- ===== src/Harness/TestBaseOpencl/Laws.antt =====
-- Which OpenCL objects are live after a test.
use sycl_cts.Prelude.{
  Bool, List, [], arith, if◌then◌else◌, not, ℕ, ◌&&◌, ◌++◌, ◌+◌, ◌-◌, ◌<◌, ◌==◌, ◌∷◌, ◌≡◌,
}
use sycl_cts.Harness.TestBaseOpencl.{
  Call, Driver, TestBaseOpencl, base_cleanup, build_program, call, cl_create, cl_release, cleanup,
  compile_program, create_buffer, create_image, create_kernel, create_program,
  create_program_with_binary, create_sampler, destroy, load_program, open_buffer, open_image,
  open_kernel, open_sampler, release_all, remove_handle, run_calls, run_test, setup,
  test_base_opencl,
}

-- How often a handle stands in a list.
unfoldable pub occurrences : ℕ → List ℕ → ℕ
occurrences h [] = 0
occurrences h (x ∷ xs) = (if h == x then 1 else 0) + occurrences h xs

-- The handles that the members of a test hold.
unfoldable pub held : ℕ → TestBaseOpencl → ℕ
held h s =
    occurrences h s.m_open_buffers
    + occurrences h s.m_open_images
    + occurrences h s.m_open_kernels
    + occurrences h s.m_open_programs
    + occurrences h (s.m_cl_command_queue ∷ s.m_cl_context ∷ [])

-- The handles that a call creates and no member keeps: a program that does not compile or build,
-- and a sampler.
unfoldable pub dropped : Call → TestBaseOpencl → List ℕ
dropped (compile_program created compiled) s =
    if created && not compiled then s.driver.next_handle ∷ [] else []
dropped (build_program created built) s =
    if created && not built then s.driver.next_handle ∷ [] else []
dropped (load_program opened created built) s =
    if opened && (created && not built) then s.driver.next_handle ∷ [] else []
dropped (open_sampler created) s = if created then s.driver.next_handle ∷ [] else []
dropped (open_kernel created) s = []
dropped (open_buffer created) s = []
dropped (open_image created) s = []

unfoldable pub dropped_by : List Call → TestBaseOpencl → List ℕ
dropped_by [] s = []
dropped_by (c ∷ rest) s = dropped c s ++ dropped_by rest (call c s).1

occurrences-append :
    (h : ℕ) (xs ys : List ℕ) → occurrences h (xs ++ ys) ≡ occurrences h xs + occurrences h ys
unfolding occurrences
occurrences-append h [] ys = omega arith
occurrences-append h (x ∷ xs) ys = omega (arith, occurrences-append h xs ys)

occurrences-remove_handle :
    (h x : ℕ) (xs : List ℕ)
    → occurrences h (remove_handle x xs) ≡ occurrences h xs - (if h == x then 1 else 0)
unfolding occurrences remove_handle
occurrences-remove_handle h x [] = ground arith
occurrences-remove_handle h x (y ∷ ys) = ground (arith, occurrences-remove_handle h x ys)

occurrences-release_all :
    (h : ℕ) (xs : List ℕ) (d : Driver)
    → occurrences h (release_all xs d).live ≡ occurrences h d.live - occurrences h xs
unfolding occurrences release_all cl_release
occurrences-release_all h [] d = omega arith
occurrences-release_all h (x ∷ xs) d =
    omega
      (arith, occurrences-release_all h xs (cl_release x d), occurrences-remove_handle h x d.live)

-- `cleanup` gives back what the members hold.
cleanup-live :
    (h : ℕ) (s : TestBaseOpencl)
    → occurrences h (cleanup s).driver.live ≡ occurrences h s.driver.live - held h s
unfolding cleanup held cl_release occurrences
cleanup-live h s =
    let d₁ = release_all s.m_open_buffers s.driver in
    let d₂ = release_all s.m_open_images d₁ in
    let d₃ = cl_release s.m_cl_command_queue d₂ in
    let d₄ = cl_release s.m_cl_context d₃ in
    let d₅ = release_all s.m_open_kernels d₄ in
    omega (
      arith,
      occurrences-release_all h s.m_open_buffers s.driver,
      occurrences-release_all h s.m_open_images d₁,
      occurrences-remove_handle h s.m_cl_command_queue d₂.live,
      occurrences-remove_handle h s.m_cl_context d₃.live,
      occurrences-release_all h s.m_open_kernels d₄,
      occurrences-release_all h s.m_open_programs d₅,
    )

-- A call adds to the live handles what it adds to the members, and what it drops.
call-live :
    (h : ℕ) (c : Call) (s : TestBaseOpencl)
    → occurrences h (call c s).1.driver.live + held h s
      ≡ occurrences h s.driver.live + held h (call c s).1 + occurrences h (dropped c s)
unfolding call held dropped create_program create_program_with_binary create_kernel create_sampler
    create_buffer create_image cl_create occurrences
call-live h (compile_program created compiled) s =
    ground (arith, occurrences-append h s.m_open_programs (s.driver.next_handle ∷ []))
call-live h (build_program created built) s =
    ground (arith, occurrences-append h s.m_open_programs (s.driver.next_handle ∷ []))
call-live h (load_program opened created built) s =
    ground (arith, occurrences-append h s.m_open_programs (s.driver.next_handle ∷ []))
call-live h (open_kernel created) s =
    ground (arith, occurrences-append h s.m_open_kernels (s.driver.next_handle ∷ []))
call-live h (open_sampler created) s = ground arith
call-live h (open_buffer created) s =
    ground (arith, occurrences-append h s.m_open_buffers (s.driver.next_handle ∷ []))
call-live h (open_image created) s =
    ground (arith, occurrences-append h s.m_open_images (s.driver.next_handle ∷ []))

run_calls-live :
    (h : ℕ) (calls : List Call) (s : TestBaseOpencl)
    → occurrences h (run_calls calls s).driver.live + held h s
      ≡ occurrences h s.driver.live
        + held h (run_calls calls s)
        + occurrences h (dropped_by calls s)
unfolding run_calls dropped_by occurrences
run_calls-live h [] s = omega arith
run_calls-live h (c ∷ rest) s = omega (
  arith,
  call-live h c s,
  run_calls-live h rest (call c s).1,
  occurrences-append h (dropped c s) (dropped_by rest (call c s).1),
)

setup-live :
    (h : ℕ) (is_opencl has_device context_created queue_created : Bool) (d : Driver)
    → 0 < h
    → occurrences h
        (setup is_opencl has_device context_created queue_created
          (test_base_opencl d)).1.driver.live
      ≡ occurrences h d.live
        + held h (setup is_opencl has_device context_created queue_created (test_base_opencl d)).1
unfolding setup test_base_opencl held cl_create occurrences
setup-live h is_opencl has_device context_created queue_created d positive = ground arith

-- The handles that no member keeps after a test.
unfoldable pub dropped_in_test : Bool → Bool → Bool → Bool → List Call → Driver → List ℕ
dropped_in_test is_opencl has_device context_created queue_created calls d =
    let prepared = setup is_opencl has_device context_created queue_created (test_base_opencl d) in
    if prepared.0 then dropped_by calls prepared.1 else []

run_test-live :
    (h : ℕ) (is_opencl has_device context_created queue_created : Bool) (calls : List Call)
    (d : Driver)
    → 0 < h
    → occurrences h
        (run_test is_opencl has_device context_created queue_created calls
          (test_base_opencl d)).driver.live
      ≡ occurrences h d.live
        + held h
            (run_test is_opencl has_device context_created queue_created calls (test_base_opencl d))
        + occurrences h (dropped_in_test is_opencl has_device context_created queue_created calls d)
unfolding run_test dropped_in_test occurrences
run_test-live h is_opencl has_device context_created queue_created calls d positive =
    let prepared = setup is_opencl has_device context_created queue_created (test_base_opencl d) in
    ground (
      arith,
      setup-live h is_opencl has_device context_created queue_created d positive,
      run_calls-live h calls prepared.1,
    )

-- After a test, of whatever calls and with whatever answers of the driver, a call of `cleanup`
-- would leave live what was so before, the programs that did not compile or build, and the
-- samplers. The destructor leaves live also every object that the members hold: it gives none back.
pub life_cycle-live :
    (h : ℕ) (is_opencl has_device context_created queue_created : Bool) (calls : List Call)
    (d : Driver)
    → 0 < h
    → (occurrences h
          (cleanup (
            run_test is_opencl has_device context_created queue_created calls
              (test_base_opencl d))).driver.live
        ≡ occurrences h d.live
          + occurrences h
              (dropped_in_test is_opencl has_device context_created queue_created calls d))
      × (occurrences h
            (destroy (
              run_test is_opencl has_device context_created queue_created calls
                (test_base_opencl d))).driver.live
          ≡ occurrences h d.live
            + occurrences h
                (dropped_in_test is_opencl has_device context_created queue_created calls d)
            + held h (
                run_test is_opencl has_device context_created queue_created calls
                  (test_base_opencl d)))
unfolding destroy base_cleanup
life_cycle-live h is_opencl has_device context_created queue_created calls d positive =
    let s =
      run_test is_opencl has_device context_created queue_created calls (test_base_opencl d) in
    let after =
      run_test-live h is_opencl has_device context_created queue_created calls d positive in
    (omega (arith, cleanup-live h s, after), omega (arith, after))

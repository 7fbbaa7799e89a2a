-- ===== src/Harness/TestBaseOpencl.antt =====
-- The OpenCL objects of a test: util/test_base.h and test_base.cpp, util/test_base_opencl.h and
-- test_base_opencl.cpp. OpenCL is a driver that hands out handles: a successful `clCreate...`
-- returns one, a failed one returns 0, the null handle, and creates nothing, and a release gives
-- one back. Whether a call succeeds is an argument of the operation. The host memory of buffers is
-- owned by shared pointers, and a log entry changes no state.
pub mod Laws
use sycl_cts.Prelude.{Bool, List, [], false, if◌then◌else◌, not, true, ℕ, ◌++◌, ◌+◌, ◌==◌, ◌∷◌}

pub record Driver : Type 0 where
  -- The next handle to hand out, and the ones that are handed out and not given back.
  pub next_handle : ℕ
  pub live : List ℕ

-- `clCreate...` and the error code that it sets.
unfoldable pub cl_create : Bool → Driver → ℕ × Driver
cl_create succeeds d =
    if succeeds
    then (d.next_handle, record { next_handle = d.next_handle + 1; live = d.next_handle ∷ d.live })
    else (0, d)

pub remove_handle : ℕ → List ℕ → List ℕ
remove_handle h [] = []
remove_handle h (x ∷ xs) = if h == x then xs else x ∷ remove_handle h xs

-- `clRelease...`
unfoldable pub cl_release : ℕ → Driver → Driver
cl_release h d = record d { live = remove_handle h d.live }

pub record TestBaseOpencl : Type 0 where
  pub m_cl_context : ℕ
  pub m_cl_command_queue : ℕ
  pub m_open_kernels : List ℕ
  pub m_open_programs : List ℕ
  pub m_open_buffers : List ℕ
  pub m_open_images : List ℕ
  pub driver : Driver

unfoldable pub test_base_opencl : Driver → TestBaseOpencl
test_base_opencl d = record {
  m_cl_context = 0;
  m_cl_command_queue = 0;
  m_open_kernels = [];
  m_open_programs = [];
  m_open_buffers = [];
  m_open_images = [];
  driver = d;
}

-- `is_opencl` is the backend of the queue, `has_device` that the context has a device; the others
-- are the driver's answers.
unfoldable pub setup : Bool → Bool → Bool → Bool → TestBaseOpencl → Bool × TestBaseOpencl
setup is_opencl has_device context_created queue_created s =
    let context = cl_create context_created s.driver in
    let queue = cl_create queue_created context.1 in
    if not is_opencl
    then (false, s)
    else if not has_device
    then (false, s)
    else if not context_created
    then (false, record s { m_cl_context = context.0; driver = context.1 })
    else (
      queue_created,
      record s { m_cl_context = context.0; m_cl_command_queue = queue.0; driver = queue.1 },
    )

-- create_compiled_program and create_built_program: the second step compiles or builds.
unfoldable pub create_program : Bool → Bool → TestBaseOpencl → Bool × TestBaseOpencl
create_program created built s =
    let program = cl_create created s.driver in
    if not created
    then (false, record s { driver = program.1 })
    else if not built
    then (false, record s { driver = program.1 })
    else (
      true,
      record s { m_open_programs = s.m_open_programs ++ program.0 ∷ []; driver = program.1 },
    )

-- The file that holds the binary is read first.
unfoldable pub create_program_with_binary :
    Bool → Bool → Bool → TestBaseOpencl → Bool × TestBaseOpencl
create_program_with_binary opened created built s =
    if not opened then (false, s) else create_program created built s

unfoldable pub create_kernel : Bool → TestBaseOpencl → Bool × TestBaseOpencl
create_kernel created s =
    let kernel = cl_create created s.driver in
    if not created
    then (false, record s { driver = kernel.1 })
    else (true, record s { m_open_kernels = s.m_open_kernels ++ kernel.0 ∷ []; driver = kernel.1 })

unfoldable pub create_sampler : Bool → TestBaseOpencl → Bool × TestBaseOpencl
create_sampler created s =
    let sampler = cl_create created s.driver in (created, record s { driver = sampler.1 })

unfoldable pub create_buffer : Bool → TestBaseOpencl → Bool × TestBaseOpencl
create_buffer created s =
    let buffer = cl_create created s.driver in
    if not created
    then (false, record s { driver = buffer.1 })
    else (true, record s { m_open_buffers = s.m_open_buffers ++ buffer.0 ∷ []; driver = buffer.1 })

unfoldable pub create_image : Bool → TestBaseOpencl → Bool × TestBaseOpencl
create_image created s =
    let image = cl_create created s.driver in
    if not created
    then (false, record s { driver = image.1 })
    else (true, record s { m_open_images = s.m_open_images ++ image.0 ∷ []; driver = image.1 })

unfoldable pub release_all : List ℕ → Driver → Driver
release_all [] d = d
release_all (h ∷ rest) d = release_all rest (cl_release h d)

unfoldable pub cleanup : TestBaseOpencl → TestBaseOpencl
cleanup s = record s {
  m_open_buffers = [];
  m_open_images = [];
  m_open_kernels = [];
  m_open_programs = [];
  driver = release_all s.m_open_programs (
      release_all s.m_open_kernels (
        cl_release s.m_cl_context (
          cl_release s.m_cl_command_queue
            (release_all s.m_open_images (release_all s.m_open_buffers s.driver)))));
}

-- The calls that a test's `run` makes, with the driver's answers.
pub data Call : Type 0 where
  compile_program : Bool → Bool → Call
  build_program : Bool → Bool → Call
  load_program : Bool → Bool → Bool → Call
  open_kernel : Bool → Call
  open_sampler : Bool → Call
  open_buffer : Bool → Call
  open_image : Bool → Call

unfoldable pub call : Call → TestBaseOpencl → Bool × TestBaseOpencl
call (compile_program created compiled) s = create_program created compiled s
call (build_program created built) s = create_program created built s
call (load_program opened created built) s = create_program_with_binary opened created built s
call (open_kernel created) s = create_kernel created s
call (open_sampler created) s = create_sampler created s
call (open_buffer created) s = create_buffer created s
call (open_image created) s = create_image created s

-- `run` of a test.
unfoldable pub run_calls : List Call → TestBaseOpencl → TestBaseOpencl
run_calls [] s = s
run_calls (c ∷ rest) s = run_calls rest (call c s).1

-- `if (this->setup(log)) this->run(log);`
unfoldable pub run_test : Bool → Bool → Bool → Bool → List Call → TestBaseOpencl → TestBaseOpencl
run_test is_opencl has_device context_created queue_created calls s =
    let prepared = setup is_opencl has_device context_created queue_created s in
    if prepared.0 then run_calls calls prepared.1 else prepared.1

-- The destructor of test_base_opencl is empty, and that of test_base calls `cleanup`. Inside it the
-- object is a test_base, so the virtual call is to test_base::cleanup, which is empty.
unfoldable pub base_cleanup : TestBaseOpencl → TestBaseOpencl
base_cleanup s = s

unfoldable pub destroy : TestBaseOpencl → TestBaseOpencl
destroy s = base_cleanup s

-- ===== src/Lib.antt =====
-- SYCL CTS: the reference functions and the helpers of the SYCL 2020 conformance test suite.
--
-- A test of the suite submits a kernel to the SYCL implementation under test and compares what it
-- returns with a value that the suite computes itself. The parts modelled here are the ones that
-- decide a verdict without the implementation:
--
-- - Reference: util/math_reference.h, math_reference.cpp and math_helper.h, the integer functions
--   that results are compared with, and `verify` of tests/math_builtin_api/math_builtin.h.
--   Saturate has add_sat and sub_sat, Average hadd and rhadd, Order abs, abs_diff, clamp, max and
--   min, Count clz, ctz and popcount, Upsample upsample, MulHi mul_hi and mad_hi, Mad24 mad24 and
--   mul24, MadSat and MadSatLong mad_sat, Rotate and RotateSigned rotate, Select any, all, select
--   and bitselect,
--   Relational the comparisons of floating-point values, NextAfter the nextafter of halves, on
--   their bits, Common sign, step, mix and smoothstep, and Geometric maxmag, minmag, dot, length,
--   normalize and cross. Elementwise has the functions that run a scalar function over the elements
--   of a vec or an marray, Overloads the overloads whose loops are written out, ResultRef the values
--   that they return, with the elements at which a result is undefined, and Verify the comparison.
--   Accuracy is util/accuracy.h, the unit in the last place.
-- - Devices: util/aspect_set, util/kernel_restrictions and util/device_set, which choose the devices
--   that a kernel can run on, and the report of util/device_manager on the device of a run. A set of
--   devices is filtered by aspects or by restrictions, and restrictions report the aspects that are
--   missing by their names.
-- - Harness: SectionName is tests/common/section_name_builder.h, GroupRange get_group_range.h,
--   CtsRange the ranges of get_cts_object.h, TypeCoverage type_coverage.h, ValueOperations
--   value_operations.h, FixedArray is util/array.h, and TestBaseOpencl util/test_base.h and
--   util/test_base_opencl.h with their .cpp files, the OpenCL objects of a test from its constructor
--   to its destructor. AsyncCopy is tests/common/async_work_group_copy.h: a buffer is what stands at
--   each index behind its pointer, and the copies are parameters.
-- - Requirements: util/named_requirement_verification, which the tests of accessors and kernel
--   bundles call on iterators. ErrorCodes and Messages are common.h, TypeTraits the traits of
--   util/type_traits.h that it asks, Checks the verifications of equality_comparable.h,
--   legacy_iterator.h and legacy_output_iterator.h, Iterators those of legacy_input_iterator.h and
--   legacy_forward_iterator.h, RandomAccess those of legacy_bidirectional_iterator.h and
--   legacy_random_access_iterator.h. A verification is the list of its conditions with their codes;
--   Report says what a list of them reports, and Verdicts follows the reports through the chain.
-- - Util: Random is rand for bytes of util/math_helper.cpp, KernelName util/kernel_names.h, TypeName
--   util/type_names.h, and Singleton util/singleton.h.
--
-- - Fences: tests/atomic_fence/atomic_fence.cpp. Capabilities has the queries of the device, Kernel the
--   kernel of run_atomic_fence: its items take their steps in the order of a list of turns, and a turn
--   says whether an atomic read gives the flag's first value and what a read that races gives. Safety
--   is about the verdict, Progress about the end of the items.
-- - Semantics: ByReference is tests/common/semantics_reference.h, ByValue semantics_by_value.h.
--
-- Machine has the integer types. A template over `T` takes the width of `T` as an argument, 8, 16,
-- 32 or 64 bits, and is two functions where the code distinguishes signed types. Unsigned values are
-- numbers below `2 ^ n`, signed values are integers in two's complement; each store into a type is
-- taken modulo `2 ^ n`. Where a signed operation of the source overflows (sub_sat, rotate, mul_hi and
-- mad_sat at the width of int or more), the model wraps around, as the compilers in use do for these
-- functions or may do: C++ leaves it undefined.
--
-- Loops are recursion on the rounds that are left, the bound that the source's loop condition has,
-- so no fuel runs out: the 256 tries of a reader of the fence test, n rounds for the digits of a type or the elements of a vector, one round for
-- each element that a ranged `for` visits. The search of a divisor in GroupRange counts down from the
-- size that it starts at, and a division by zero would be `none`.
--
-- An exception is `none`. Texts are lists of character codes. Parameters stand for what is not in
-- the repository: the order of the enumeration values of sycl::aspect, the queries of a device,
-- what a compiler knows of types and expressions, the operations of an iterator under test with the
-- state that its copies may share, the answers of the OpenCL driver, the fences and atomic accesses of
-- the implementation under test, the copies that it makes, the class whose semantics are checked, the
-- random number generator, std::to_string of a number, the tests of a floating-point type, the
-- floating-point root in GroupRange, and the long double comparisons of mad_sat, of which IsAccurate
-- says that they hold no overflow where there is none.
--
-- An iterator's comparisons and its dereference read that state, an increment or a decrement changes
-- it, and the operands of a comparison are taken from the left. An exception that ends the run of an
-- OpenCL test is a shorter list of calls.
--
-- What does not compile is not modelled: for an iterator without value_type or difference_type the
-- verifications of a forward and of a random access iterator do not compile, and the verdict that the
-- model has for it stands for no run of the code. With NDEBUG the assertions of get_fixed_size are
-- off, which is an argument of the model.
--
-- Not modelled: the other floating-point reference functions, most of which are calls of the
-- standard library and of oclmath, a copy of the mathematics of the OpenCL conformance tests; the
-- list of devices, the texts of exceptions and the log; the other tests, whose assertions are about
-- the implementation under test.
pub mod Prelude
pub mod Machine
pub mod Reference
pub mod Requirements
pub mod Util
pub mod Devices
pub mod Fences
pub mod Harness
pub mod Semantics

-- ===== src/Harness.antt =====
-- The helpers of tests/common and util/array.h that the tests are written with.
pub mod SectionName
pub mod GroupRange
pub mod CtsRange
pub mod FixedArray
pub mod TypeCoverage
pub mod ValueOperations
pub mod TestBaseOpencl
pub mod AsyncCopy
mod Tests

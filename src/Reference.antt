-- ===== src/Reference.antt =====
-- The reference functions of util/math_reference and util/math_helper, and their comparison with
-- what a device computes.
pub mod ResultRef
pub mod Products
pub mod Saturate
pub mod Average
pub mod Order
pub mod Count
pub mod Upsample
pub mod MulHi
pub mod Mad24
pub mod MadSat
pub mod MadSatLong
pub mod Elementwise
pub mod Verify
pub mod Relational
pub mod Rotate
pub mod RotateSigned
pub mod NextAfter
pub mod Geometric
pub mod Common
pub mod Accuracy
pub mod Overloads
pub mod Select
mod Tests
mod FloatTests

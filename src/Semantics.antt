-- ===== src/Semantics.antt =====
-- The checks of reference and value semantics in tests/common.
pub mod ByReference
pub mod ByValue
mod Tests

-- ===== src/Requirements.antt =====
-- The named requirements of iterators that the tests verify:
-- util/named_requirement_verification and the type traits it asks, of util/type_traits.h.
pub mod ErrorCodes
pub mod TypeTraits
pub mod Messages
pub mod Checks
pub mod Report
pub mod Verdicts
pub mod Hierarchy
pub mod Reportable
pub mod Faithful
mod Tests
pub mod Iterators
pub mod RandomAccess

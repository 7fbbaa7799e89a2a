-- ===== src/Fences.antt =====
-- tests/atomic_fence: message passing between work-items by fences.
pub mod Capabilities
pub mod Kernel
mod Tests

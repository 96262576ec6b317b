-- ===== src/Memory.antt =====
-- The kernel's memory management (src/kernel/memory).
pub mod Mapping
pub mod Pages
pub mod Paging
mod Tests

-- ===== src/Kernel.antt =====
-- The kernel's objects and what it does with them: src/kernel/service, src/kernel/syscalls and the
-- subscriptions of src/kernel/interrupts.
pub mod State
pub mod Schedule
pub mod Events
pub mod Services
pub mod Calls
pub mod Load
pub mod Machine
pub mod Order
mod Tests

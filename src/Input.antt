-- ===== src/Input.antt =====
-- The services that read keyboards and mice, and the console: src/userland/keyboard, ps2kb,
-- ps2mouse, mouse, ioManager, vga and pit.
pub mod Keyboard
pub mod Keys
pub mod Pointer
pub mod Console
pub mod Screen
mod Tests

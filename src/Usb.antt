-- ===== src/Usb.antt =====
-- The usb service: the rings of transfer blocks of src/userland/usb/xhci/trbRing.c and what
-- src/userland/usb/xhci/commands.c puts into them, and the descriptors of src/userland/usb/main.c.
pub mod Interfaces
pub mod Ring
pub mod Xhci
mod Tests

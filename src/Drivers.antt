-- ===== src/Drivers.antt =====
-- Programs that drive a device through the ports of the processor.
pub mod Ports
pub mod Ps2
pub mod Pic

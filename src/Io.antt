-- ===== src/Io.antt =====
-- kernel/io.c on x86: windows into the ports and the memory of devices.
pub mod Window
pub mod Access
pub mod Builds
pub mod Ports
mod Tests

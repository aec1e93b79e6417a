-- ===== src/Driver.antt =====
-- Drivers of kernel/driver that buffer characters between an interrupt handler and its readers.
pub mod Ring
pub mod Serial
pub mod Keyboard
mod Tests

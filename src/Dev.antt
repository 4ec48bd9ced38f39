-- ===== src/Dev.antt =====
-- sys/dev: the device drivers.
pub mod Pci
pub mod Rtl8139
pub mod Hpet
pub mod Fb
mod Tests

-- ===== src/Amd64.antt =====
-- sys/amd64: the processor's tables, interrupt controllers and cores.
pub mod Io
pub mod Idt
pub mod Apic
pub mod Cores
pub mod Segments
mod Tests

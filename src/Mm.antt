-- ===== src/Mm.antt =====
-- sys/mm: the physical and the virtual memory manager.
pub mod Pmm
pub mod Vmm
pub mod Heap
mod Tests
mod VmmTests
mod HeapTests

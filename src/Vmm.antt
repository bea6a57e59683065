-- ===== src/Vmm.antt =====
-- The virtual memory manager, kernel/vmm.cc.
pub mod Vme
pub mod Mmap
pub mod Munmap
pub mod PageTable
pub mod HeapBreak
pub mod PageIn
pub mod UserRange
pub mod Fini
pub mod Fork
mod Tests

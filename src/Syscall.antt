-- ===== src/Syscall.antt =====
-- The system calls of kernel/syscall.cc and the tables that they keep.
pub mod Word
pub mod Sem
pub mod Process
pub mod UserBuffer
pub mod Fd
pub mod Fork
pub mod Dispatch
mod Tests

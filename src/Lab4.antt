-- ===== src/Lab4.antt =====
-- Lab4: the kernel with a kernel page table for each process.
pub mod World
pub mod Memory
pub mod PageTable
pub mod UserMemory
pub mod KernelMemory
pub mod Proc
pub mod ProcMemory
pub mod Exec
pub mod Scheduler
mod Tests

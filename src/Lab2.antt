-- ===== src/Lab2.antt =====
-- Lab2: the kernel with the system calls `trace` and `sysinfo`.
pub mod Kalloc
pub mod Syscall
pub mod Proc

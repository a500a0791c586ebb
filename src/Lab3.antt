-- ===== src/Lab3.antt =====
-- Lab3: the per-CPU page allocator (Lab3/kernel/kalloc.c) and the buffer cache
-- (Lab3/kernel/bio.c) with the rings of its buckets.
pub mod Kalloc
pub mod Ring
pub mod Bio

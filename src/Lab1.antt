-- ===== src/Lab1.antt =====
-- Lab1: user programs.
pub mod Primes
pub mod Xargs
pub mod Find
mod Tests

-- ===== src/Smp.antt =====
-- clib/smp.h and clib/smp.c: the lock for several CPUs, taken as a spin lock.
pub mod Lock
pub mod Ghost
pub mod Others
pub mod Handover
pub mod Moves
pub mod Releases
pub mod Exclusion
pub mod Headers
pub mod Assertions

-- ===== src/Tests.antt =====
-- Concrete runs of the code, and the theorems at concrete inputs.
mod Bits
mod Bitmaps
mod Fifos
mod Hashes
mod Smps
mod Pools
mod SparseVecs
mod Streams
mod Zvecs

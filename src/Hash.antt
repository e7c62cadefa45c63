-- ===== src/Hash.antt =====
-- clib/hash.h and clib/hash.c: hash tables from words to values.
pub mod Allocated
pub mod Bucket
pub mod Table
pub mod Sum
pub mod Loads
pub mod SumReads
pub mod Keys
pub mod KeyFunctions
pub mod KeyLaws
pub mod Pairs
pub mod Located
pub mod Put
pub mod Lookup
pub mod View
pub mod Refine
pub mod Listing
pub mod Fill
pub mod Resize
pub mod Operations
pub mod Maps
pub mod Reads

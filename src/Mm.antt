-- ===== src/Mm.antt =====
-- mm.c, the allocator.
pub mod Block
pub mod FreeList
pub mod Heap
pub mod Policy
pub mod Alloc
pub mod Free
pub mod Client
pub mod Session
pub mod Check

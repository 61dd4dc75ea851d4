-- ===== src/BootAlloc.antt =====
-- kernel/memory/boot_alloc.c: the boot-time physical memory allocator. The children hold the code
-- and, below each part of it, what is proved of that part.
pub mod Range
pub mod View
pub mod Carve
pub mod Find
pub mod Alloc
pub mod Grow
mod Tests

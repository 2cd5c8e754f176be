-- ===== src/Memory.antt =====
-- Memory management, kernel/src/memory: the BIOS map, the frame allocator over it, the kernel heap, the
-- identity map of paging, the check of the address layout, and the physical memory that all of them
-- read and write.
pub mod Ram
pub mod Map
pub mod Frame
pub mod Layout
pub mod Heap
pub mod Paging

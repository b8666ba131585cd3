-- ===== src/Mm.antt =====
-- src/kernel/mm.c: the page allocator and the kernel heap.
pub mod Heap
pub mod Pmm

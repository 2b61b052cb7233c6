-- ===== src/Mm.antt =====
-- Kernel memory: core/mm.
pub mod Phys
pub mod Heap
pub mod Area
pub mod Brk

-- ===== src/Memory.antt =====
-- The memory managers of kernel/Core: physical pages, the heap, and the firmware's memory map.
pub mod Physical
pub mod Malloc
pub mod Map
pub mod Logical
pub mod Boot

-- ===== src/Containers.antt =====
-- The containers of the kernel: kernel/Containers.
pub mod RingBuffer
pub mod Array
pub mod Dictionary
pub mod Strings
pub mod Linked

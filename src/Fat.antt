-- ===== src/Fat.antt =====
-- The file system driver kernel/FS/FAT.cpp.
pub mod Table
pub mod Name
pub mod Layout
pub mod Volume
pub mod Directory
pub mod Entries
pub mod File
pub mod Stream
pub mod Create
pub mod Format

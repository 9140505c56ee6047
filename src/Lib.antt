-- ===== src/Lib.antt =====
-- A verification library for babyOSv, a small operating system for 32-bit PCs. It models the parts of
-- the kernel whose behaviour is not in the hardware: containers, memory managers, threads with what they
-- wait on, the terminal, keyboard and mouse, block devices, and the file systems.
--
-- The parts. The physical memory manager hands out pages, and the heap cuts what `Logical::Alloc` maps
-- into blocks; containers, threads and the file system live in these blocks. The scheduler keeps its
-- threads in an array and a list, signals call the scheduler, and a mutex stands alone. The file system
-- keeps the file allocation table of a volume in memory and follows the chains of clusters in it;
-- directories and files read and write the clusters through a cache. The virtual file systems call a mounted
-- file system through the record of its operations, and a partition calls the driver of its device. Keyboard
-- and mouse turn the bytes of their controller into events and raise signals.
--
-- The files, each named for the code it is about:
--   Base                   lists, Boolean tests, 32-bit arithmetic, and how a call ends (Base/Outcome:
--                          with a value, in a failed `ASSERT`, or in an access out of bounds)
--   Containers/RingBuffer  kernel/Containers/RingBuffer.hpp: the class as a record with the array as a
--                          function of the index; Spec is the bounded queue that it is compared with
--   Containers/Array       kernel/Containers/Array.hpp: the buffer as a function of the index; Insert and
--                          Remove compare the calls with operations on lists
--   Containers/Dictionary  kernel/Containers/Dictionary.hpp, over the model of the array; Lookup is about keys
--                          that are there, Absent and Single about others
--   Digits                 the operator `|` on numbers
--   Memory/Physical        kernel/Core/Memory_Physical.cpp: `memoryBitmap` as a list of bits, set while a
--                          page is free; Regions, Alloc and Pages are about the calls, Ownership about any
--                          sequence of them by clients
--   Memory/Logical         kernel/Core/Memory_Logical.cpp: the page directory and its tables as functions of
--                          the index; Mapping and Space are about the calls
--   Memory/Malloc          kernel/Core/Memory.cpp, `Alloc` to `Size`: the list of free blocks from
--                          `mallocPage` and the set of used ones; Cover counts the blocks over each byte
--   Memory/Map             kernel/Core/Memory.cpp, `SortEntries`: the list of entries; Sorting, Ending
--   Memory/Boot            kernel/Core/Memory.cpp, `FixEntries` and `CreateMemoryMap`: the entries of the memory
--                          map, given to the physical memory; Fixing
--   Fat/Table              kernel/FS/FAT.cpp, `GetNextCluster`, `SetCluster`, `AddCluster`: the table as a
--                          function from the offset to the byte; Entry, Allocation and Chain
--   Fat/Name, Fat/Layout   kernel/FS/FAT.cpp, the file names and the sectors of a volume
--   Fat/Volume             kernel/FS/FAT.cpp, `GetCache`, `FlushCache`, `FreeCache`, `Flush`, and `SetCluster`
--                          and `AddCluster` with their writes: the state of a mounted volume with its
--                          disk; View is what the code sees of a cluster, Steps and Saved are about it
--   Fat/Directory          kernel/FS/FAT.cpp, `DirectoryOpenRoot` to `DirectoryFollow`; Reading
--   Fat/Entries            kernel/FS/FAT.cpp, `ExtendDirectoryIfNoFreeEntries` to `FileCreate`; Full
--   Fat/File, Fat/Stream   kernel/FS/FAT.cpp, files: Fat/File for opening, closing and writing, Lost about
--                          writing; Fat/Stream for reading and moving, Amount and Seeking about those
--   Fat/Create             kernel/FS/FAT.cpp, `DirectoryCreate`
--   Fat/Format             kernel/FS/FAT.cpp, `Probe` and `FormatFAT`, over the model of Block; Formatted
--   Libc                   kernel/libc.cpp, the functions on characters and on memory; Copying
--   Threads/Scheduler      kernel/Core/Thread.cpp and Signal.cpp: `currentThread`, `threads`,
--                          `threadsQueue`, and a signal's `raised` and `waitingThreads`; Turns, Waiting and
--                          Lost are about sequences of calls
--   Threads/Mutex          kernel/Core/Mutex.cpp: one atomic round of `Lock` and one `Unlock` are steps
--   Terminal               kernel/Core/Terminal.cpp: the cursor, and the screen memory as a function of the
--                          offset; Cursor
--   Terminal/Format        the same file, `PrintInternal` and its callers; Numbers reads digits back
--   Input/Mouse            kernel/Input/Mouse.cpp, `FIFOAdd`: the bytes of a packet; Packets
--   Input/Keyboard         kernel/Input/Keyboard.cpp and `Handle` of PS2.cpp: `keysMap` as a function of the
--                          key; Held
--   Containers/Linked      kernel/Containers/List.hpp, the links: the items by their address; Queue and Runs
--   Containers/Strings     kernel/Containers/String.hpp: the characters in either buffer
--   FilePath               kernel/FS/Path.cpp: the names of a path; Components compares them with their text
--   Vfs                    kernel/FS/VFS.cpp and FS/FS.hpp: the operations of a file system are a record FsInfo;
--                          Changing is `DirectoryChange`, Files the calls on files; Mounting and Listing are
--                          about any file systems
--   Block                  kernel/Block/Block.cpp: devices, partitions and the boot record; Disk is what a
--                          driver promises, Sectors and Scanning are about drivers that keep to it
-- A file Tests beside the code's model has runs on concrete inputs.
--
-- Numbers. A `u32` is a native number; additions and subtractions that can wrap around are written with
-- add32 and sub32, and offsets that the code keeps in a `u16` are taken modulo 2 ^ 16. `nullptr` is 0.
--
-- Loops are recursion on a list, on the number of rounds the code's own bounds give, or on fuel.
-- `Remove` of an array has fuel for one round for each element; the heap's `Alloc` runs over the
-- addresses that `Logical::Alloc` will return; the walk along a chain of clusters takes the number of
-- steps as an argument, and `SortEntries` the number of rounds. The loops over the entries of a
-- directory and over a chain of clusters, and the loops of the VFS over entries, have fuel for their
-- rounds. For the walk, for `Remove`, for the searches of a dictionary, for `SortEntries`, for the
-- calls of `FileRead` inside itself, and for reading the root directory of a volume and the list of
-- mount points a theorem says how many are enough; for `FileCreate` one says when none are.
--
-- Parameters. The disk of a volume is a function from the sector and the offset to the byte; a read
-- gives what was written last to a sector that takes writes; the code ignores the results of both. What
-- `Logical::Alloc` returns is, for the heap, a list of addresses in its state; the theorems that need
-- it say that the next page is usable. What new memory holds is an argument of `resize`, and what the
-- stack holds one of `directory_create`; the address of a new item is an argument of `push_back`. The
-- tables of keys, which the build generates, are a record Layout. A mounted file system is a value of
-- FsInfo, for which there are no laws. The driver of a device is a value of BlockDeviceDriver. The
-- theorems on sectors, on the boot record and on formatting are about drivers with the record Disk: a
-- read gives what was written last, and a write changes only its sector. The driver for ATA disks does
-- not write yet, and keeps to that only where nothing is written.
--
-- Not modelled: assembly, inline assembly but for the mutex, registers and stacks of threads, drivers
-- and the video card, interrupts, the shell, and of FAT `FormatRoot`, `Format` and `Mount`.
mod Base
mod Digits
pub mod Containers
pub mod Memory
pub mod Libc
pub mod Fat
pub mod Threads
pub mod Terminal
pub mod Input
pub mod FilePath
pub mod Vfs
pub mod Block

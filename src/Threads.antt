-- ===== src/Threads.antt =====
-- Threads and what they wait on: kernel/Core/Thread.cpp, Signal.cpp and Mutex.cpp.
pub mod Scheduler
pub mod Mutex

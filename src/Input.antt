-- ===== src/Input.antt =====
-- The input devices of the kernel: kernel/Input.
pub mod Mouse
pub mod Keyboard

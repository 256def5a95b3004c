-- ===== src/Buffer.antt =====
-- include/detail/buffer.h and src/detail/buffer.cpp.
pub mod Vint
pub mod Block
pub mod Manager
pub mod Static

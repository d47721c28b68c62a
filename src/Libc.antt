-- ===== src/Libc.antt =====
-- The C library of lib/libc.
pub mod Move
pub mod Str
pub mod StrLaws
mod Tests

-- ===== src/User.antt =====
-- The user library: pipes (user/lib/pipe.c).
pub mod Pipe
pub mod Fd
pub mod History
pub mod Shell
mod Tests

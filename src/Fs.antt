-- ===== src/Fs.antt =====
-- The file system server: the block cache, the free-block bitmap and the files of fs/fs.c.
pub mod Block
pub mod File
pub mod Dir
pub mod Serv
pub mod Init
mod Tests

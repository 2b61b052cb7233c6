-- ===== src/Fs.antt =====
-- Files: core/fs.
pub mod Pipe
pub mod File
pub mod Ramdisk
pub mod Vfs
pub mod Mount

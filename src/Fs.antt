-- ===== src/Fs.antt =====
-- The file system of src/kernel/fs.c.
pub mod Layout
pub mod Bitmap
pub mod Content
pub mod Icache
pub mod Directory
pub mod Path
pub mod Bcache
pub mod Dinode

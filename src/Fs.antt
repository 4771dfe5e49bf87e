-- ===== src/Fs.antt =====
-- fs.c: the file system on the log, from the bitmap of free blocks up to path names.
pub mod State
pub mod Bitmap
pub mod Inode
pub mod Content
pub mod Dir
pub mod Path
pub mod Bits
pub mod Room
pub mod Marks
pub mod Search
pub mod Alloc
pub mod Cache
pub mod Skip
pub mod Names
pub mod FileBytes
pub mod Read
pub mod Example
pub mod Lookup
pub mod Hole
pub mod Bytes
pub mod Kept
pub mod Chunk
pub mod Write
mod Tests

-- ===== src/Sysfile.antt =====
-- sysfile.c and the parts of file.c that work on inodes: the file system calls, on files, inodes and the log
-- together.
pub mod State
pub mod Descriptors
pub mod Transfer
pub mod Link
pub mod Open
pub mod Dup
pub mod Read
mod Tests

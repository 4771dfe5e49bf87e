-- ===== src/Vm.antt =====
-- vm.c: two-level page tables, user memory, and the kernel mappings. The children hold the functions
-- and the proofs about them.
pub mod Walk
pub mod Region
pub mod User
pub mod Grow
pub mod Tables
pub mod Entries
pub mod Find
pub mod Pages
pub mod Mapping
mod Tests

-- ===== src/Lib.antt =====
-- The kernel and user library of a teaching system (xv6) with a virtual-memory project, as functions
-- on explicit states. What each part of the program is in these files:
--
--   mmu.h, memlayout.h, types.h    Mmu: the address and page-table-entry macros, with `uint` wrap-around
--                                  written out; Mmu/Laws: how they fit together
--   (memory)                       Memory: the 32-bit words of each page, at kernel virtual addresses
--   kalloc.c                       Kalloc: `kmem` with its free list threaded through the pages, kalloc,
--                                  kfree, freerange, kinit1 and kinit2; Kalloc/FreeList, Kalloc/Range and
--                                  Kalloc/History prove them
--   vm.c                           Vm/Walk: walkpgdir and mappages; Vm/Region: allocuvm, deallocuvm, freevm,
--                                  setupkvm, copyuvm; Vm/User: inituvm, clearpteu, uva2ka, copyout;
--                                  Vm/Grow: growproc of proc.c and sys_sbrk of sysproc.c;
--                                  Vm/Tables, Vm/Find, Vm/Entries, Vm/Pages and Vm/Mapping prove the walk and
--                                  the mapping
--
--   proc.c, proc.h                 Proc: the process table; Proc/Table, Proc/Reparent, Proc/Exit, Proc/Wait and
--                                  Proc/Pids prove it
--   syscall.c                      Syscall: the argument checks; Syscall/Pointers proves them
--   spinlock.c                     Spinlock: acquire, release, pushcli and popcli; Spinlock/Nesting and
--                                  Spinlock/Owner prove them
--   sleeplock.c                    Sleeplock: locks held across sleeps; Sleeplock/Holder proves one holder
--   log.c                          Log: the redo log; Log/Absorb, Log/Steps, Log/Reserve, Log/Install, Log/Commit and
--                                  Log/Recover prove it, over Blocks, which says what bio.c promises
--   bio.c, buf.h                   Bio: the list of buffers, bget and brelse; Bio/Cache proves bget
--   file.c, file.h                 File: the table of open files; File/Holders and File/Counts prove its counts
--   pipe.c                         Pipe: the byte ring of a pipe; Pipe/Ring, Pipe/Transfer, Pipe/Session and
--                                  Pipe/Close prove it
--   fs.c, fs.h                     Fs, on Log: Fs/State holds the state and the layout of the disk, Fs/Bitmap balloc
--                                  and bfree, Fs/Content bmap, itrunc, readi and writei, Fs/Inode the inode cache,
--                                  Fs/Dir directories, Fs/Path skipelem and namex; Fs/Marks, Fs/Search and Fs/Alloc
--                                  prove the allocator, Fs/Cache iget, Fs/Skip and Fs/Names skipelem, Fs/FileBytes
--                                  bmap, Fs/Read readi, Fs/Hole bmap of direct blocks, Fs/Kept, Fs/Chunk
--                                  and Fs/Write writei, and Fs/Lookup dirlookup
--   sysfile.c, and file.c on inodes  Sysfile, on Fs, Log and File: Sysfile/State lifts their routines to the state of
--                                  a process; Sysfile/Descriptors, Sysfile/Transfer, Sysfile/Link and
--                                  Sysfile/Open hold the calls; Sysfile/Dup proves sys_dup and sys_close, and
--                                  Sysfile/Read fileread
--   console.c                      Console: the input buffer; Console/Queue says what it promises, Console/Erasing,
--                                  Console/Typing and Console/Reading prove it; Console/Print: cprintf
--   ulib.c                         Ulib: the string routines of user programs
--   printf.c                       Printf: printint and printf; Printf/Decimal proves printint against atoi
--   grep.c                         Grep: the matcher; Grep/Pattern says what patterns mean, and Grep/Decide proves
--                                  that the matcher decides it
--   string.c                       Strings: memory and string routines; Strings/Move, Strings/Compare,
--                                  Strings/Copy and Strings/Length prove them
--
-- A routine over a state S has the type M S A of Base/Monad: it returns a value and the new state,
-- panics with the message of the source, faults (a null pointer), or runs out of fuel. vm.c works on
-- the state of kalloc.c, since both work on the same memory.
--
-- Locks: a critical section under a spin lock is one step. The lock itself is a flag that says whether
-- this CPU holds it: to acquire a held lock and to release a free one are the panics of spinlock.c.
--
-- Sleeping: a routine that sleeps runs up to there, and the result says that it sleeps; when it is woken, the
-- same routine goes on with what it has left to do. wakeup is recorded in the state.
--
-- Fuel: a loop over addresses of pages has one round for each of the 2 ^ 20 pages of the address space
-- (2 ^ 19 below KERNBASE for allocuvm), and one to leave it.
--
-- Crashes: Blocks keeps the earlier contents of the disk, one for each write, so a crash is the choice of one.
--
-- The linker's symbols `end` and `data` are the parameters kernel_end and data_start.
--
-- Not modelled: assembly, boot code, device drivers, the tests and small user commands; nor, so far,
-- traps, exec and its system call, fork, the user heap and the shell.
pub mod Base
pub mod Mmu
pub mod Memory
pub mod Kalloc
pub mod Vm
pub mod Pipe
pub mod Strings
pub mod Blocks
pub mod Log
pub mod Proc
pub mod Spinlock
pub mod Syscall
pub mod Bio
pub mod File
pub mod Sleeplock
pub mod Fs
pub mod Grep
pub mod Ulib
pub mod Console
pub mod Sysfile
pub mod Printf

-- ===== src/Fs/Example.antt =====
-- A small file system for the tests.
use os_2024_project_vm.Base.{ℕ, zero, suc, ◌*◌, ◌<◌, false, true, arith, []}
use os_2024_project_vm.Memory.{update}
use os_2024_project_vm.Blocks.{Block}
use os_2024_project_vm.Fs.State.{SuperBlock, Inode, Fs, bsize}
use os_2024_project_vm.Fs.FileBytes.{HasBlock}

abbrev pub empty_inode : Inode
empty_inode = record {
  dev = 0;
  inum = 0;
  ref = 0;
  locked = false;
  valid = false;
  type = 0;
  major = 0;
  minor = 0;
  nlink = 0;
  size = 0;
  addrs = λ k. 0;
}

-- a file of 700 bytes in the blocks 7 and 8
abbrev pub a_file : Inode
a_file = record empty_inode {
  dev = 1;
  inum = 2;
  ref = 1;
  valid = true;
  type = 2;
  nlink = 1;
  size = 700;
  addrs = update (update (λ k. 0) 0 7) 1 8;
}

abbrev pub a_super_block : SuperBlock
a_super_block = record {
  size = 40;
  nblocks = 30;
  ninodes = 16;
  nlog = 3;
  logstart = 2;
  inodestart = 3;
  bmapstart = 5;
}

-- The blocks 0 to 8 are in use; every word of block 7 is 0x01010101.
abbrev pub a_disk : ℕ → Block
a_disk = update (update (λ b i. 0) 5 (update (λ i. 0) 0 511)) 7 (λ i. 0x01010101)

abbrev pub an_fs : Fs
an_fs = record {
  sb = a_super_block;
  log = record {
    locked = false;
    start = 2;
    size = 31;
    outstanding = 1;
    committing = false;
    lh = record { n = 0; block = λ i. 0 };
    woken = 0;
    blocks = record { view = a_disk; disk = a_disk; past = []; pinned = λ b. false };
  };
  inodes = update (λ i. empty_inode) 0 a_file;
}

pub an_fs-HasBlock : (bn : ℕ) → bn * bsize < 700 → HasBlock 0 an_fs bn
an_fs-HasBlock zero l = (omega arith, λ e. absurd (omega (arith, e)), λ m. absurd (omega arith))
an_fs-HasBlock (suc zero) l =
    (omega arith, λ e. absurd (omega (arith, e)), λ m. absurd (omega arith))
an_fs-HasBlock (suc (suc bn)) l = absurd (omega arith)

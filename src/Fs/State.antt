-- ===== src/Fs/State.antt =====
-- fs.h: the layout of the disk, and the state that fs.c works on. A block is its 128 little-endian words: bit
-- `k` of byte `i` is bit `8 * (i % 4) + k` of word `i / 4`.
use os_2024_project_vm.Base.{
  ℕ, zero, suc, ◌+◌, ◌*◌, ◌/◌, ◌%◌, Bool, ok, panic, fault, out_of_fuel, M,
}
use os_2024_project_vm.Memory.{update}
use os_2024_project_vm.Blocks.{Block}
use os_2024_project_vm.Log.{Log, log_write}

abbrev pub bsize : ℕ
bsize = 512

-- bits of the bitmap in a block
abbrev pub bpb : ℕ
bpb = 4096

-- inodes in a block, of 16 words each
abbrev pub ipb : ℕ
ipb = 8

abbrev pub ndirect : ℕ
ndirect = 12

abbrev pub nindirect : ℕ
nindirect = 128

abbrev pub maxfile : ℕ
maxfile = ndirect + nindirect

abbrev pub dirsiz : ℕ
dirsiz = 14

abbrev pub ninode : ℕ
ninode = 50

-- `struct superblock`
pub record SuperBlock : Type 0 where
  pub size : ℕ
  pub nblocks : ℕ
  pub ninodes : ℕ
  pub nlog : ℕ
  pub logstart : ℕ
  pub inodestart : ℕ
  pub bmapstart : ℕ

-- `struct inode`; `locked` is whether its sleep lock is held. A short is a number below 2 ^ 16.
pub record Inode : Type 0 where
  pub dev : ℕ
  pub inum : ℕ
  pub ref : ℕ
  pub locked : Bool
  pub valid : Bool
  pub type : ℕ
  pub major : ℕ
  pub minor : ℕ
  pub nlink : ℕ
  pub size : ℕ
  pub addrs : ℕ → ℕ

-- The super block, the log with the blocks under it, and `icache`. An inode is its index in the cache. Every
-- section under icache.lock is one step, so the lock has no field.
pub record Fs : Type 0 where
  pub sb : SuperBlock
  pub log : Log
  pub inodes : ℕ → Inode

abbrev pub iblock : ℕ → SuperBlock → ℕ
iblock i sb = i / ipb + sb.inodestart

abbrev pub bblock : ℕ → SuperBlock → ℕ
bblock b sb = b / bpb + sb.bmapstart

-- bread: what the block of the buffer holds.
abbrev pub bread : ℕ → Fs → Block
bread b s = s.log.blocks.view b

-- The data of the buffer of block `b` become `d`.
abbrev pub set_data : ℕ → Block → Fs → Fs
set_data b d s = record s {
  log = record s.log { blocks = record s.log.blocks { view = update s.log.blocks.view b d } };
}

abbrev pub on_log : {A : Type 0} → M Log A → M Fs A
on_log m s = elim (m s.log) [
  | ok (a, l) ↦ ok (a, record s { log = l })
  | panic e ↦ panic e
  | fault ↦ fault
  | out_of_fuel ↦ out_of_fuel
]

-- The data of a buffer are changed to `d`, and log_write is called.
unfoldable pub write_buf : ℕ → Block → M Fs (Unit {0})
write_buf b d s = on_log (log_write b) (set_data b d s)

abbrev pub set_inode : ℕ → Inode → Fs → Fs
set_inode ip i s = record s { inodes = update s.inodes ip i }

-- Bit `k` of a word, and the word with that bit set or cleared.
unfoldable pub bit_of : ℕ → ℕ → ℕ
bit_of w zero = w % 2
bit_of w (suc k) = bit_of (w / 2) k

unfoldable pub set_bit : ℕ → ℕ → ℕ
set_bit w zero = w / 2 * 2 + 1
set_bit w (suc k) = set_bit (w / 2) k * 2 + w % 2

unfoldable pub clear_bit : ℕ → ℕ → ℕ
clear_bit w zero = w / 2 * 2
clear_bit w (suc k) = clear_bit (w / 2) k * 2 + w % 2

-- Byte `k` of a block, and the block with that byte replaced.
unfoldable pub byte_of : ℕ → ℕ → ℕ
byte_of w zero = w % 256
byte_of w (suc k) = byte_of (w / 256) k

unfoldable pub put_byte_of : ℕ → ℕ → ℕ → ℕ
put_byte_of w zero v = w / 256 * 256 + v
put_byte_of w (suc k) v = put_byte_of (w / 256) k v * 256 + w % 256

abbrev pub byte_at : Block → ℕ → ℕ
byte_at d i = byte_of (d (i / 4)) (i % 4)

abbrev pub set_byte_at : Block → ℕ → ℕ → Block
set_byte_at d i v = update d (i / 4) (put_byte_of (d (i / 4)) (i % 4) v)

-- An assignment to fields of the inode.
abbrev pub set_fields : ℕ → (Inode → Inode) → M Fs (Unit {0})
set_fields ip f s = ok (tt, set_inode ip (f (s.inodes ip)) s)

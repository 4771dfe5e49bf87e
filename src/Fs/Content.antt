-- ===== src/Fs/Content.antt =====
-- fs.c: inodes on the disk, and the content of inodes.
use os_2024_project_vm.Base.{
  ℕ, zero, suc, ◌+◌, ◌-◌, ◌*◌, ◌/◌, ◌%◌, ◌^◌, Bool, not, ◌||◌, ok, panic, out_of_fuel, M, pure,
  ◌>>=◌, ◌>>◌, ltb, leb, ◌==◌, if◌then◌else◌, min,
}
use os_2024_project_vm.Memory.{update}
use os_2024_project_vm.Blocks.{Block}
use os_2024_project_vm.Mmu.{uint}
use os_2024_project_vm.Strings.{Bytes}
use os_2024_project_vm.Fs.State.{
  Inode, Fs, bsize, ipb, ndirect, nindirect, maxfile, iblock, bread, write_buf, byte_at,
  set_byte_at, set_fields,
}
use os_2024_project_vm.Fs.Bitmap.{balloc, bfree}

-- `struct dinode`: the 16 words from `o` on, and back. Two shorts share a word.
unfoldable pub load_dinode : Block → ℕ → Inode → Inode
load_dinode d o i = record i {
  type = d o % 2 ^ 16;
  major = d o / 2 ^ 16 % 2 ^ 16;
  minor = d (o + 1) % 2 ^ 16;
  nlink = d (o + 1) / 2 ^ 16 % 2 ^ 16;
  size = d (o + 2);
  addrs = λ k. d (o + 3 + k);
}

unfoldable pub store_addrs : ℕ → (ℕ → ℕ) → ℕ → Block → Block
store_addrs zero addrs o d = d
store_addrs (suc k) addrs o d = update (store_addrs k addrs o d) (o + k) (addrs k)

unfoldable pub store_dinode : Inode → ℕ → Block → Block
store_dinode i o d = store_addrs (ndirect + 1) i.addrs (o + 3) (
    update (update (update d o (i.type + i.major * 2 ^ 16)) (o + 1) (i.minor + i.nlink * 2 ^ 16))
      (o + 2) i.size)

-- `(struct dinode*)bp->data + inum%IPB`
abbrev pub dinode_at : ℕ → ℕ
dinode_at inum = inum % ipb * 16

unfoldable pub iupdate : ℕ → M Fs (Unit {0})
iupdate ip s =
    let i = s.inodes ip in
    let b = iblock i.inum s.sb in write_buf b (store_dinode i (dinode_at i.inum) (bread b s)) s

abbrev pub set_addr : ℕ → ℕ → Inode → Inode
set_addr k a i = record i { addrs = update i.addrs k a }

-- The branch of bmap for a direct block.
unfoldable pub bmap_direct : ℕ → ℕ → M Fs ℕ
bmap_direct ip bn s =
    if (s.inodes ip).addrs bn == 0
    then (do addr ← balloc; set_fields ip (set_addr bn addr); pure addr) s
    else ok ((s.inodes ip).addrs bn, s)

-- The entry `bn` of the indirect block `addr`. `bp` stands for the buffer across balloc, which does not
-- evict it.
unfoldable pub bmap_entry : ℕ → ℕ → M Fs ℕ
bmap_entry addr bn s =
    if bread addr s bn == 0
    then (do a ← balloc; (λ t. write_buf addr (update (bread addr t) bn a) t); pure a) s
    else ok (bread addr s bn, s)

unfoldable pub bmap : ℕ → ℕ → M Fs ℕ
bmap ip bn =
    if ltb bn ndirect
    then bmap_direct ip bn
    else (if ltb (bn - ndirect) nindirect
        then (do addr ← bmap_direct ip ndirect; bmap_entry addr (bn - ndirect))
        else (λ s. panic "bmap: out of range"))

-- The loops of itrunc over direct blocks from `i` on, and over the entries of the indirect block `addr` from
-- `j` on. `bp` stands for the buffer across bfree, which does not evict it.
unfoldable pub free_direct : ℕ → ℕ → ℕ → M Fs (Unit {0})
free_direct ip zero i s = ok (tt, s)
free_direct ip (suc left) i s =
    let rest = free_direct ip left (i + 1) in
    if (s.inodes ip).addrs i == 0
    then rest s
    else (do bfree ((s.inodes ip).addrs i); set_fields ip (set_addr i 0); rest) s

unfoldable pub free_indirect : ℕ → ℕ → ℕ → M Fs (Unit {0})
free_indirect addr zero j s = ok (tt, s)
free_indirect addr (suc left) j s =
    let rest = free_indirect addr left (j + 1) in
    if bread addr s j == 0 then rest s else (bfree (bread addr s j) >> rest) s

unfoldable pub free_table : ℕ → M Fs (Unit {0})
free_table ip s =
    let addr = (s.inodes ip).addrs ndirect in
    if addr == 0
    then ok (tt, s)
    else (do free_indirect addr nindirect 0; bfree addr; set_fields ip (set_addr ndirect 0)) s

unfoldable pub itrunc : ℕ → M Fs (Unit {0})
itrunc ip = do
  free_direct ip ndirect 0
  free_table ip
  set_fields ip (λ i. record i { size = 0 })
  iupdate ip

-- T_DEV of stat.h
abbrev pub t_dev : ℕ
t_dev = 3

-- What readi and writei return: -1, a count, or what the device of `major` returns.
pub data Io : Type 0 where
  fails : Io
  counts : ℕ → Io
  device : (major : ℕ) → Io

-- `memmove(dst, data + o, m)` and `memmove(data + o, src, m)`
unfoldable pub copy_out : ℕ → Block → ℕ → Bytes → ℕ → Bytes
copy_out zero d o mem dst = mem
copy_out (suc m) d o mem dst = copy_out m d (o + 1) (update mem dst (byte_at d o)) (dst + 1)

unfoldable pub copy_in : ℕ → Bytes → ℕ → ℕ → Block → Block
copy_in zero mem src o d = d
copy_in (suc m) mem src o d = copy_in m mem (src + 1) (o + 1) (set_byte_at d o (mem src))

-- The loop of readi with `n - tot` bytes left, into the memory `mem`; a round copies a byte or more.
unfoldable pub readi_loop : ℕ → ℕ → ℕ → ℕ → ℕ → Bytes → M Fs Bytes
readi_loop zero ip off left dst mem s = out_of_fuel
readi_loop (suc rounds) ip off left dst mem s =
    let m = min left (bsize - off % bsize) in
    let step = (do
      addr ← bmap ip (off / bsize)
      (λ t.
          readi_loop rounds ip (off + m) (left - m) (dst + m)
            (copy_out m (bread addr t) (off % bsize) mem dst) t)) in
    if left == 0 then ok (mem, s) else step s

-- `has_device` is whether the table of devices has a read function (writei: a write function) for a major
-- number; it is filled by console.c.
module _ (has_device : ℕ → Bool) where
  -- A major number of 2 ^ 15 or more is negative.
  abbrev pub no_device : ℕ → Bool
  no_device major = leb (2 ^ 15) major || leb 10 major || not (has_device major)

  -- The memory of the caller after the call.
  unfoldable pub readi : ℕ → Bytes → ℕ → ℕ → ℕ → M Fs (Io × Bytes)
  readi ip mem dst off n s =
      let i = s.inodes ip in
      let count = if ltb i.size (uint (off + n)) then i.size - off else n in
      if i.type == t_dev
      then (if no_device i.major then ok ((fails, mem), s) else ok ((device i.major, mem), s))
      else (if ltb i.size off || ltb (uint (off + n)) off
          then ok ((fails, mem), s)
          else (do mem' ← readi_loop (count + 1) ip off count dst mem; pure (counts count, mem')) s)

  unfoldable pub writei_loop : ℕ → ℕ → ℕ → ℕ → ℕ → Bytes → M Fs (Unit {0})
  writei_loop zero ip off left src mem s = out_of_fuel
  writei_loop (suc rounds) ip off left src mem s =
      let m = min left (bsize - off % bsize) in
      let step = (do
        addr ← bmap ip (off / bsize)
        (λ t. write_buf addr (copy_in m mem src (off % bsize) (bread addr t)) t)
        writei_loop rounds ip (off + m) (left - m) (src + m) mem) in
      if left == 0 then ok (tt, s) else step s

  -- The end of writei: the file has grown.
  unfoldable pub grow : ℕ → ℕ → M Fs (Unit {0})
  grow ip off s =
      if ltb (s.inodes ip).size off
      then (do set_fields ip (λ i. record i { size = off }); iupdate ip) s
      else ok (tt, s)

  unfoldable pub writei : ℕ → Bytes → ℕ → ℕ → ℕ → M Fs Io
  writei ip mem src off n s =
      let i = s.inodes ip in
      if i.type == t_dev
      then (if no_device i.major then ok (fails, s) else ok (device i.major, s))
      else (if ltb i.size off || ltb (uint (off + n)) off || ltb (maxfile * bsize) (uint (off + n))
          then ok (fails, s)
          else (do
            writei_loop (n + 1) ip off n src mem
            (if ltb 0 n then grow ip (off + n) else pure tt)
            pure (counts n))
              s)

-- ===== src/Fs/Inode.antt =====
-- fs.c: the inode cache, and inodes on the disk. An inode is its index in the cache, and `none` the null
-- pointer. A sleep lock that this process would wait for while it holds it itself is out_of_fuel.
use os_2024_project_vm.Base.{
  ℕ, zero, suc, ◌+◌, ◌-◌, ◌%◌, ◌^◌, Bool, true, false, not, ◌&&◌, ◌||◌, Option, none, some, ok,
  panic, out_of_fuel, M, pure, ◌>>◌, ltb, ◌==◌, if◌then◌else◌,
}
use os_2024_project_vm.Memory.{update}
use os_2024_project_vm.Blocks.{Block}
use os_2024_project_vm.Fs.State.{
  SuperBlock, Inode, Fs, ninode, iblock, bread, write_buf, set_inode, set_fields,
}
use os_2024_project_vm.Fs.Content.{itrunc, iupdate, load_dinode, dinode_at}

-- `struct superblock` as the first words of block 1
unfoldable pub readsb : Fs → SuperBlock
readsb s =
    let d = bread 1 s in
    record {
      size = d 0;
      nblocks = d 1;
      ninodes = d 2;
      nlog = d 3;
      logstart = d 4;
      inodestart = d 5;
      bmapstart = d 6;
    }

unfoldable pub init_locks : ℕ → (ℕ → Inode) → ℕ → Inode
init_locks zero inodes = inodes
init_locks (suc i) inodes =
    update (init_locks i inodes) i record (init_locks i inodes i) { locked = false }

unfoldable pub iinit : Fs → Fs
iinit s = record s { sb = readsb s; inodes = init_locks ninode s.inodes }

-- What the loop of iget finds: the inode in the cache, or the first empty slot.
pub data Slot : Type 0 where
  cached : ℕ → Slot
  empty_slot : ℕ → Slot
  full : Slot

abbrev pub slot_of : Option ℕ → Slot
slot_of none = full
slot_of (some ip) = empty_slot ip

-- `ip->ref > 0 && ip->dev == dev && ip->inum == inum`
abbrev pub is_inode : Inode → ℕ → ℕ → Bool
is_inode i dev inum = ltb 0 i.ref && (i.dev == dev) && (i.inum == inum)

-- `if(empty == 0 && ip->ref == 0) empty = ip`
abbrev pub remember : Option ℕ → Inode → ℕ → Option ℕ
remember (some e) i ip = some e
remember none i ip = if i.ref == 0 then some ip else none

unfoldable pub find_inode : (ℕ → Inode) → ℕ → ℕ → ℕ → ℕ → Option ℕ → Slot
find_inode inodes dev inum zero ip empty = slot_of empty
find_inode inodes dev inum (suc left) ip empty =
    let rest = find_inode inodes dev inum left (ip + 1) (remember empty (inodes ip) ip) in
    if is_inode (inodes ip) dev inum then cached ip else rest

unfoldable pub iget_slot : ℕ → ℕ → Slot → M Fs ℕ
iget_slot dev inum (cached ip) = do set_fields ip (λ i. record i { ref = i.ref + 1 }); pure ip
iget_slot dev inum (empty_slot ip) = do
  set_fields ip (λ i. record i { dev = dev; inum = inum; ref = 1; valid = false })
  pure ip
iget_slot dev inum full = λ s. panic "iget: no inodes"

unfoldable pub iget : ℕ → ℕ → M Fs ℕ
iget dev inum s = iget_slot dev inum (find_inode s.inodes dev inum ninode 0 none) s

unfoldable pub idup : ℕ → M Fs ℕ
idup ip = do set_fields ip (λ i. record i { ref = i.ref + 1 }); pure ip

-- memset of the 16 words of a dinode
unfoldable pub clear_words : ℕ → ℕ → Block → Block
clear_words zero o d = d
clear_words (suc k) o d = update (clear_words k o d) (o + k) 0

-- The body of the loop of ialloc for a free inode.
unfoldable pub take_inode : ℕ → ℕ → ℕ → M Fs ℕ
take_inode dev type inum = do
  (λ s.
      let b = iblock inum s.sb in
      let o = dinode_at inum in write_buf b (update (clear_words 16 o (bread b s)) o type) s)
  iget dev inum

-- The loop of ialloc from `inum` on.
unfoldable pub ialloc_loop : ℕ → ℕ → ℕ → ℕ → M Fs ℕ
ialloc_loop zero dev type inum s = panic "ialloc: no inodes"
ialloc_loop (suc left) dev type inum s =
    let rest = ialloc_loop left dev type (inum + 1) s in
    if bread (iblock inum s.sb) s (dinode_at inum) % 2 ^ 16 == 0
    then take_inode dev type inum s
    else rest

unfoldable pub ialloc : ℕ → ℕ → M Fs ℕ
ialloc dev type s = ialloc_loop (s.sb.ninodes - 1) dev type 1 s

abbrev pub acquire_inode : ℕ → M Fs (Unit {0})
acquire_inode ip s =
    if (s.inodes ip).locked then out_of_fuel else set_fields ip (λ i. record i { locked = true }) s

abbrev pub release_inode : ℕ → M Fs (Unit {0})
release_inode ip = set_fields ip (λ i. record i { locked = false })

-- The part of ilock after acquiresleep.
unfoldable pub fill_inode : ℕ → M Fs (Unit {0})
fill_inode ip s =
    let i = s.inodes ip in
    let d = bread (iblock i.inum s.sb) s in
    let i' = record (load_dinode d (dinode_at i.inum) i) { valid = true } in
    if i.valid
    then ok (tt, s)
    else (if i'.type == 0 then panic "ilock: no type" else ok (tt, set_inode ip i' s))

unfoldable pub ilock : Option ℕ → M Fs (Unit {0})
ilock none s = panic "ilock"
ilock (some ip) s =
    if ltb (s.inodes ip).ref 1 then panic "ilock" else (acquire_inode ip >> fill_inode ip) s

unfoldable pub iunlock : Option ℕ → M Fs (Unit {0})
iunlock none s = panic "iunlock"
iunlock (some ip) s =
    if not (s.inodes ip).locked || ltb (s.inodes ip).ref 1
    then panic "iunlock"
    else release_inode ip s

-- The part of iput with the inode locked: the last reference to an inode without links frees it.
unfoldable pub free_inode : ℕ → M Fs (Unit {0})
free_inode ip s =
    let i = s.inodes ip in
    if i.valid && (i.nlink == 0) && (i.ref == 1)
    then (do
      itrunc ip
      set_fields ip (λ j. record j { type = 0 })
      iupdate ip
      set_fields ip (λ j. record j { valid = false }))
        s
    else ok (tt, s)

-- A count of 0, which the code would make -1, stays 0.
unfoldable pub iput : ℕ → M Fs (Unit {0})
iput ip = do
  acquire_inode ip
  free_inode ip
  release_inode ip
  set_fields ip (λ i. record i { ref = i.ref - 1 })

unfoldable pub iunlockput : ℕ → M Fs (Unit {0})
iunlockput ip = iunlock (some ip) >> iput ip

-- `struct stat`
pub record Stat : Type 0 where
  pub type : ℕ
  pub dev : ℕ
  pub ino : ℕ
  pub nlink : ℕ
  pub size : ℕ

unfoldable pub stati : Inode → Stat
stati i = record { type = i.type; dev = i.dev; ino = i.inum; nlink = i.nlink; size = i.size }

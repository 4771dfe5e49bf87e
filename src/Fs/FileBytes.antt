-- ===== src/Fs/FileBytes.antt =====
-- fs.c: the blocks and the bytes of a file.
use os_2024_project_vm.Base.{
  ℕ, zero, suc, ◌+◌, ◌-◌, ◌/◌, ◌%◌, ◌≤◌, ◌<◌, ◌≡◌, ◌≢◌, inl, inr, refl, ap, true, false, ◌&&◌, ok,
  panic, arith, ltb, leb, ==_ne, Bool-cases, ◌>>=◌, if◌then◌else◌,
}
use os_2024_project_vm.Memory.{update}
use os_2024_project_vm.Blocks.{Block}
use os_2024_project_vm.Strings.{Bytes}
use os_2024_project_vm.Fs.State.{Fs, bsize, ndirect, nindirect, maxfile, bread, byte_at}
use os_2024_project_vm.Fs.Content.{bmap_direct, bmap_entry, bmap, copy_out}

-- The block number of block `bn` of a file, 0 for none.
abbrev pub addr_of : ℕ → ℕ → Fs → ℕ
addr_of ip bn s =
    if ltb bn ndirect
    then (s.inodes ip).addrs bn
    else bread ((s.inodes ip).addrs ndirect) s (bn - ndirect)

-- The file has its block `bn`.
abbrev pub HasBlock : ℕ → Fs → ℕ → Type 0
HasBlock ip s bn =
    (bn < maxfile) × (addr_of ip bn s ≢ 0) × (ndirect ≤ bn → (s.inodes ip).addrs ndirect ≢ 0)

-- Byte `o` of the file.
abbrev pub file_byte : ℕ → Fs → ℕ → ℕ
file_byte ip s o = byte_at (bread (addr_of ip (o / bsize) s) s) (o % bsize)

pub bmap_direct-ok :
    (ip bn : ℕ) (s : Fs)
    → (s.inodes ip).addrs bn ≢ 0
    → bmap_direct ip bn s ≡ ok ((s.inodes ip).addrs bn, s)
unfolding bmap_direct
bmap_direct-ok ip bn s ne = rw (==_ne ((s.inodes ip).addrs bn) 0 ne) refl

bmap_entry-ok :
    (addr bn : ℕ) (s : Fs) → bread addr s bn ≢ 0 → bmap_entry addr bn s ≡ ok (bread addr s bn, s)
unfolding bmap_entry
bmap_entry-ok addr bn s ne = rw (==_ne (bread addr s bn) 0 ne) refl

-- bmap of a block that the file has returns its number and changes nothing, and beyond the last block that a
-- file can have it panics.
pub bmap-HasBlock :
    (ip bn : ℕ) (s : Fs)
    → (HasBlock ip s bn → bmap ip bn s ≡ ok (addr_of ip bn s, s))
      × (maxfile ≤ bn → bmap ip bn s ≡ panic "bmap: out of range")
unfolding bmap
bmap-HasBlock ip bn s = elim (Bool-cases (ltb bn ndirect)) [
  | inl e ↦ rw e (λ (low, there, table). bmap_direct-ok ip bn s there, λ le. absurd (ground arith))
  | inr e ↦ (
    λ (low, there, table).
        rw (e, fits low, ◌>>=◌, bmap_direct-ok ip ndirect s (table (ground arith)))
          (bmap_entry-ok ((s.inodes ip).addrs ndirect) (bn - ndirect) s (λ z. there (rw e z))),
    λ le. rw (e, beyond le) refl,
  )
]
  where
    fits : bn < maxfile → ltb (bn - ndirect) nindirect ≡ true
    fits lt = ground arith

    beyond : maxfile ≤ bn → ltb (bn - ndirect) nindirect ≡ false
    beyond le = ground arith

pub copy_out_lem :
    (m : ℕ) (d : Block) (o : ℕ) (mem : Bytes) (dst a : ℕ)
    → copy_out m d o mem dst a
      ≡ (if leb dst a && ltb a (dst + m) then byte_at d (o + (a - dst)) else mem a)
unfolding copy_out
copy_out_lem zero d o mem dst a = ground arith
copy_out_lem (suc m) d o mem dst a =
    ground (arith, copy_out_lem m d (o + 1) (update mem dst (byte_at d o)) (dst + 1) a, next, here)
  where
    next : dst < a → byte_at d (o + 1 + (a - (dst + 1))) ≡ byte_at d (o + (a - dst))
    next lt = ap (byte_at d) (omega arith)

    here : dst ≡ a → byte_at d o ≡ byte_at d (o + (a - dst))
    here e = ap (byte_at d) (omega arith)

-- A piece of a block is a piece of the file.
pub file_byte-chunk :
    (ip : ℕ) (s : Fs) (off i : ℕ)
    → off % bsize + i < bsize
    → byte_at (bread (addr_of ip (off / bsize) s) s) (off % bsize + i) ≡ file_byte ip s (off + i)
file_byte-chunk ip s off i lt = rw (block off i lt, offset off i lt) refl
  where
    block : (off i : ℕ) → off % bsize + i < bsize → (off + i) / bsize ≡ off / bsize
    block off i lt = omega arith

    offset : (off i : ℕ) → off % bsize + i < bsize → (off + i) % bsize ≡ off % bsize + i
    offset off i lt = omega arith

-- ===== src/Sysfile/Read.antt =====
-- file.c: fileread of a file on the disk.
use os_2024_project_vm.Base.{
  ℕ, ◌+◌, ◌-◌, ◌*◌, ◌^◌, ◌≤◌, ◌<◌, ◌≡◌, ◌≢◌, refl, sym, ap, ◌∙◌, inl, inr, Bool, true, false, some,
  ok, arith, ltb, leb, ◌&&◌, ◌==◌, ==_refl, Bool-cases, ◌>>=◌, ◌>>◌, if◌then◌else◌,
}
use mathlib.Core.Path.{subst}
use os_2024_project_vm.Memory.{update}
use os_2024_project_vm.Mmu.{uint}
use os_2024_project_vm.Strings.{Bytes}
use os_2024_project_vm.File.{fd_inode}
use os_2024_project_vm.Fs.State.{Fs, bsize, set_inode}
use os_2024_project_vm.Fs.Content.{counts, readi, t_dev}
use os_2024_project_vm.Fs.Inode.{ilock, iunlock, acquire_inode, fill_inode}
use os_2024_project_vm.Fs.FileBytes.{HasBlock, file_byte}
use os_2024_project_vm.Fs.Read.{with_bytes, to_read, readi-Reads}
use os_2024_project_vm.Sysfile.State.{Kernel, Env, on_fs}
use os_2024_project_vm.Sysfile.Transfer.{count, file, advance, read_inode, fileread}

-- The file system with inode `ip` locked or not.
abbrev with_lock : Bool → ℕ → Fs → Fs
with_lock b ip s = set_inode ip (record (s.inodes ip) { locked = b }) s

module _ (ip : ℕ) (s : Fs) where
  ilock-ok :
      (s.inodes ip).locked ≡ false
      → ltb (s.inodes ip).ref 1 ≡ false
      → (s.inodes ip).valid ≡ true
      → ilock (some ip) s ≡ ok (tt, with_lock true ip s)
  unfolding ilock fill_inode
  ilock-ok free e v =
      rw (ilock, e, ◌>>=◌, ◌>>◌, acquire_inode, free, fill_inode, ==_refl ip, v) refl

  iunlock-ok :
      (s.inodes ip).locked ≡ true
      → ltb (s.inodes ip).ref 1 ≡ false
      → iunlock (some ip) s ≡ ok (tt, with_lock false ip s)
  unfolding iunlock
  iunlock-ok held e = rw (iunlock, held, e) refl

  -- A locked inode has the content it had.
  locked_inode : (b : Bool) → (with_lock b ip s).inodes ip ≡ record (s.inodes ip) { locked = b }
  locked_inode b = rw (==_refl ip) refl

  HasBlock-locked : (bn : ℕ) → HasBlock ip s bn → HasBlock ip (with_lock true ip s) bn
  HasBlock-locked bn (low, there, table) = (low, rw (==_refl ip) there, rw (==_refl ip) table)

  file_byte-locked : (o : ℕ) → file_byte ip (with_lock true ip s) o ≡ file_byte ip s o
  file_byte-locked o = rw (==_refl ip) refl

  size_locked : ((with_lock true ip s).inodes ip).size ≡ (s.inodes ip).size
  size_locked = ap (λ i. i.size) (locked_inode true)

  type_locked : ((with_lock true ip s).inodes ip).type ≡ (s.inodes ip).type
  type_locked = ap (λ i. i.type) (locked_inode true)

  -- readi with the inode locked
  readi-locked :
      (has_read : ℕ → Bool) (mem : Bytes) (addr off n : ℕ)
      → (s.inodes ip).type ≢ t_dev
      → ((bn : ℕ) → bn * bsize < (s.inodes ip).size → HasBlock ip s bn)
      → off ≤ (s.inodes ip).size
      → off + n < 2 ^ 32
      → (mem' : Bytes) × (readi has_read ip mem addr off n (with_lock true ip s)
          ≡ ok ((counts (to_read (s.inodes ip).size off n), mem'), with_lock true ip s))
        × ((a : ℕ)
            → mem' a
              ≡ with_bytes (file_byte ip s) off addr (to_read (s.inodes ip).size off n) mem a)
  readi-locked has_read mem addr off n ty has le lt =
      let t = with_lock true ip s in
      let (mem', returned, bytes) =
        (readi-Reads has_read ip mem addr off n t (λ h. ty (sym type_locked ∙ h))
            (λ bn l. HasBlock-locked bn (has bn (subst (λ k. bn * bsize < k) size_locked l)))
            (omega arith) (omega arith)).2
          (subst (λ k. off ≤ k) (sym size_locked) le) lt in
      (
        mem',
        returned ∙ ap (λ k. ok ((counts (to_read k off n), mem'), t)) size_locked,
        λ a.
            bytes a
            ∙ ap (λ k. with_bytes (file_byte ip t) off addr (to_read k off n) mem a) size_locked
            ∙ ap
                (λ v.
                  if leb addr a && ltb a (addr + to_read (s.inodes ip).size off n)
                  then v
                  else mem a)
                (file_byte-locked (off + (a - addr))),
      )

-- The state after `c` bytes were read: the offset has moved, and the memory is `mem'`.
abbrev pub after_read : ℕ → ℕ → Fs → Bytes → Kernel → Kernel
after_read f c u mem' s = record s {
  fs = u;
  ftable = record s.ftable {
    files = update s.ftable.files f (record (file f s) { off = uint ((file f s).off + c) });
  };
  mem = mem';
}

read_inode-ok :
    (e : Env) (f ip addr n c : ℕ) (s : Kernel) (t u : Fs) (mem' : Bytes)
    → ilock (some ip) s.fs ≡ ok (tt, t)
    → readi e.has_read ip s.mem addr (file f s).off n t ≡ ok ((counts c, mem'), t)
    → iunlock (some ip) t ≡ ok (tt, u)
    → read_inode e f ip addr n s ≡ ok (count c, after_read f c u mem' s)
unfolding read_inode advance
read_inode-ok e f ip addr n c s t u mem' locks reads unlocks =
    rw (read_inode, ◌>>=◌, ◌>>◌, on_fs, locks, reads, unlocks) refl

fileread-inode :
    (e : Env) (f ip addr n : ℕ) (s : Kernel)
    → (file f s).readable ≡ true
    → (file f s).kind ≡ fd_inode ip
    → fileread e f addr n s ≡ read_inode e f ip addr n s
unfolding fileread
fileread-inode e f ip addr n s r k = rw (fileread, r, k) refl

-- The file system is as it was, up to the way inodes are written down.
abbrev pub SameFs : Fs → Fs → Type 0
SameFs s s' = (s'.sb ≡ s.sb) × (s'.log ≡ s.log) × ((j : ℕ) → s'.inodes j ≡ s.inodes j)

unlocked-SameFs :
    (ip : ℕ) (s : Fs)
    → (s.inodes ip).locked ≡ false
    → SameFs s (with_lock false ip (with_lock true ip s))
unlocked-SameFs ip s free = (
  refl,
  refl,
  λ j. elim (Bool-cases (ip == j)) [
    | inl e ↦
        rw (e, ==_refl ip)
          (rw (sym (same ip j e)) (ap (λ b. record (s.inodes ip) { locked = b }) (sym free)))
    | inr e ↦ rw e refl
  ],
)
  where
    same : (a b : ℕ) → a == b ≡ true → a ≡ b
    same a b e = ground arith

-- The file `f` is open for reading on the inode `ip`, which is referenced, valid, not locked, no device, and
-- has every block below its size.
abbrev pub IsReadable : ℕ → ℕ → Kernel → Type 0
IsReadable f ip s =
    ((file f s).readable ≡ true)
    × ((file f s).kind ≡ fd_inode ip)
    × ((s.fs.inodes ip).locked ≡ false)
    × (0 < (s.fs.inodes ip).ref)
    × ((s.fs.inodes ip).valid ≡ true)
    × ((s.fs.inodes ip).type ≢ t_dev)
    × ((bn : ℕ) → bn * bsize < (s.fs.inodes ip).size → HasBlock ip s.fs bn)

-- fileread of such a file, for an offset within the file and a range whose end is a word, returns the number
-- of bytes from the offset up to the end of the file, the count at most; it puts just these bytes of the file
-- at the address, moves the offset of the file on by their number, and leaves the file system, the lock of the
-- inode included, the other files and the other memory as they were.
pub fileread-Reads :
    (e : Env) (f ip addr n : ℕ) (s : Kernel)
    → IsReadable f ip s
    → (file f s).off ≤ (s.fs.inodes ip).size
    → (file f s).off + n < 2 ^ 32
    → (u : Fs) × (mem' : Bytes) × (fileread e f addr n s
        ≡ ok (
          count (to_read (s.fs.inodes ip).size (file f s).off n),
          after_read f (to_read (s.fs.inodes ip).size (file f s).off n) u mem' s,
        ))
      × SameFs s.fs u
      × ((a : ℕ)
          → mem' a
            ≡ with_bytes
                (file_byte ip s.fs)
                (file f s).off
                addr
                (to_read (s.fs.inodes ip).size (file f s).off n)
                s.mem
                a)
fileread-Reads e f ip addr n s (readable, kind, free, used, valid, ty, has) le lt =
    let t = with_lock true ip s.fs in
    let (mem', returned, bytes) =
      readi-locked ip s.fs e.has_read s.mem addr (file f s).off n ty has le lt in
    (
      with_lock false ip t,
      mem',
      fileread-inode e f ip addr n s readable kind
          ∙ read_inode-ok e f ip addr n (to_read (s.fs.inodes ip).size (file f s).off n) s t
              (with_lock false ip t) mem'
              (ilock-ok ip s.fs free (has_ref (s.fs.inodes ip).ref used) valid) returned
              (iunlock-ok ip t (ap (λ i. i.locked) (locked_inode ip s.fs true)) (
                ap (λ i. ltb i.ref 1) (locked_inode ip s.fs true)
                ∙ has_ref (s.fs.inodes ip).ref used)),
      unlocked-SameFs ip s.fs free,
      bytes,
    )
  where
    has_ref : (n : ℕ) → 0 < n → ltb n 1 ≡ false
    has_ref n l = ground arith

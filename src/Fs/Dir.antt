-- ===== src/Fs/Dir.antt =====
-- fs.c: directories. `de` is where the local variable `struct dirent de` stands in the memory: two bytes of
-- inode number and DIRSIZ of name.
use os_2024_project_vm.Base.{
  ℕ, zero, suc, ◌+◌, ◌*◌, ◌/◌, ◌%◌, Bool, true, false, not, ◌&&◌, Option, none, some, ok, panic,
  out_of_fuel, M, pure, ◌>>=◌, ◌>>◌, ltb, ◌==◌, if◌then◌else◌,
}
use os_2024_project_vm.Base.Int.{ℤ, pos, negsuc}
use os_2024_project_vm.Memory.{update}
use os_2024_project_vm.Mmu.{uint}
use os_2024_project_vm.Strings.{Bytes, strncmp, strncpy}
use os_2024_project_vm.Fs.State.{Fs, dirsiz}
use os_2024_project_vm.Fs.Content.{Io, counts, readi, writei}
use os_2024_project_vm.Fs.Inode.{iget, iput}

-- T_DIR of stat.h
abbrev pub t_dir : ℕ
t_dir = 1

unfoldable pub namecmp : Bytes → ℕ → ℕ → ℤ
namecmp mem s t = strncmp dirsiz mem s t

abbrev pub is_zero : ℤ → Bool
is_zero (pos n) = n == 0
is_zero (negsuc n) = false

abbrev pub same_name : Bytes → ℕ → ℕ → Bool
same_name mem s t = is_zero (namecmp mem s t)

-- `de.inum`
abbrev pub entry_inum : Bytes → ℕ → ℕ
entry_inum mem de = mem de % 256 + 256 * (mem (de + 1) % 256)

-- `== sizeof(de)`
abbrev pub is_entry : Io → Bool
is_entry (counts n) = n == 16
is_entry r = false

module _ (has_device : ℕ → Bool) (de : ℕ) where
  -- The loop of dirlookup from `off` on: the inode and its offset. `mem` holds the name, and `de`.
  unfoldable pub dirlookup_loop : ℕ → ℕ → Bytes → ℕ → ℕ → M Fs (Option (ℕ × ℕ))
  dirlookup_loop zero dp mem name off s = out_of_fuel
  dirlookup_loop (suc rounds) dp mem name off s =
      let round = (do
        r ← readi has_device dp mem de off 16
        (λ t.
            let mem' = r.1 in
            let rest = dirlookup_loop rounds dp mem' name (uint (off + 16)) in
            if not (is_entry r.0)
            then panic "dirlookup read"
            else (if not (entry_inum mem' de == 0) && same_name mem' name (de + 2)
                then (do ip ← iget (t.inodes dp).dev (entry_inum mem' de); pure (some (ip, off))) t
                else rest t))) in
      if ltb off (s.inodes dp).size then round s else ok (none, s)

  -- A round for each entry, the last one perhaps cut off, and one to leave the loop.
  unfoldable pub dirlookup : ℕ → Bytes → ℕ → M Fs (Option (ℕ × ℕ))
  dirlookup dp mem name s =
      if not ((s.inodes dp).type == t_dir)
      then panic "dirlookup not DIR"
      else dirlookup_loop ((s.inodes dp).size / 16 + 2) dp mem name 0 s

  -- The loop of dirlink that looks for an empty entry: its offset, and the memory.
  unfoldable pub find_empty : ℕ → ℕ → Bytes → ℕ → M Fs (ℕ × Bytes)
  find_empty zero dp mem off s = out_of_fuel
  find_empty (suc rounds) dp mem off s =
      let round = (do
        r ← readi has_device dp mem de off 16
        (λ t.
            let rest = find_empty rounds dp r.1 (uint (off + 16)) in
            if not (is_entry r.0)
            then panic "dirlink read"
            else (if entry_inum r.1 de == 0 then ok ((off, r.1), t) else rest t))) in
      if ltb off (s.inodes dp).size then round s else ok ((off, mem), s)

  -- strncpy of the name, and `de.inum = inum`, which keeps 16 bits
  abbrev pub make_entry : Bytes → ℕ → ℕ → Bytes
  make_entry mem name inum =
      let m = strncpy dirsiz mem (de + 2) name in
      update (update m de (inum % 256)) (de + 1) (inum / 256 % 256)

  -- Its last part: the entry is written at `off`. The result is whether dirlink returns 0.
  unfoldable pub write_entry : ℕ → Bytes → ℕ → ℕ → ℕ → M Fs Bool
  write_entry dp mem name inum off = do
    r ← writei has_device dp (make_entry mem name inum) de off 16
    (if is_entry r then pure true else (λ s. panic "dirlink"))

  unfoldable pub dirlink : ℕ → Bytes → ℕ → ℕ → M Fs Bool
  dirlink dp mem name inum = do
    present ← dirlookup dp mem name
    elim present [
      | some found ↦ (do iput found.0; pure false)
      | none ↦ (do
        e ← (λ s. find_empty ((s.inodes dp).size / 16 + 2) dp mem 0 s)
        write_entry dp e.1 name inum e.0)
    ]

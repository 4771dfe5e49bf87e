-- ===== src/Fs/Path.antt =====
-- fs.c: path names, as strings in the memory.
use os_2024_project_vm.Base.{
  ℕ, zero, suc, ◌+◌, ◌-◌, Bool, true, false, not, ◌&&◌, Option, none, some, ok, panic, fault,
  out_of_fuel, M, pure, ◌>>=◌, ◌>>◌, leb, ◌==◌, if◌then◌else◌,
}
use os_2024_project_vm.Memory.{update}
use os_2024_project_vm.Strings.{Bytes, memmove}
use os_2024_project_vm.Fs.State.{Fs, dirsiz}
use os_2024_project_vm.Fs.Inode.{iget, idup, ilock, iunlock, iput, iunlockput}
use os_2024_project_vm.Fs.Dir.{dirlookup, t_dir}

-- '/'
abbrev pub slash : ℕ
slash = 47

-- `while(*path == '/') path++`, for a string with `fuel` bytes at most; `none` is a run that goes on.
unfoldable pub skip_slashes : ℕ → Bytes → ℕ → Option ℕ
skip_slashes zero mem path = none
skip_slashes (suc fuel) mem path =
    let rest = skip_slashes fuel mem (path + 1) in if mem path == slash then rest else some path

-- `while(*path != '/' && *path != 0) path++`
unfoldable pub skip_element : ℕ → Bytes → ℕ → Option ℕ
skip_element zero mem path = none
skip_element (suc fuel) mem path =
    let rest = skip_element fuel mem (path + 1) in
    if not (mem path == slash) && not (mem path == 0) then rest else some path

-- The element from `s` up to `path` goes to `name`.
unfoldable pub copy_name : Bytes → ℕ → ℕ → ℕ → Bytes
copy_name mem name s path =
    let len = path - s in
    if leb dirsiz len
    then memmove mem name s dirsiz
    else update (memmove mem name s len) (name + len) 0

-- The last two loops of skipelem, on an element from `s` on.
unfoldable pub take_element : ℕ → ℕ → ℕ → M Bytes (Option ℕ)
take_element fuel s name mem = elim (skip_element fuel mem s) [
  | none ↦ out_of_fuel
  | some path ↦
      let mem' = copy_name mem name s path in
      elim (skip_slashes fuel mem' path) [ none ↦ out_of_fuel | some next ↦ ok (some next, mem') ]
]

-- The result is `none` where the code returns 0.
unfoldable pub skipelem : ℕ → ℕ → ℕ → M Bytes (Option ℕ)
skipelem fuel path name mem = elim (skip_slashes fuel mem path) [
  | none ↦ out_of_fuel
  | some s ↦ if mem s == 0 then ok (none, mem) else take_element fuel s name mem
]

abbrev pub rootdev : ℕ
rootdev = 1

abbrev pub rootino : ℕ
rootino = 1

-- The body of the loop of namex for the element in `name`, with `next` the loop from the inode of that
-- element on.
unfoldable pub walk_element :
    (ℕ → Bool)
    → ℕ
    → Bool
    → ℕ
    → ℕ
    → Bytes
    → ℕ
    → (ℕ → M Fs (Option ℕ × Bytes))
    → M Fs (Option ℕ × Bytes)
walk_element has_device de parent path name mem ip next = do
  ilock (some ip)
  (λ s.
      let found = (do
        r ← dirlookup has_device de ip mem name
        iunlockput ip
        elim r [ none ↦ pure (none, mem) | some e ↦ next e.0 ]) in
      if not ((s.inodes ip).type == t_dir)
      then (do iunlockput ip; pure (none, mem)) s
      else (if parent && (mem path == 0)
          then (do iunlock (some ip); pure (some ip, mem)) s
          else found s))

-- What comes after the loop.
unfoldable pub end_walk : Bool → Bytes → ℕ → M Fs (Option ℕ × Bytes)
end_walk parent mem ip = if parent then (do iput ip; pure (none, mem)) else pure (some ip, mem)

-- `fuel` is more than the length of the path: a round takes a byte of it.
unfoldable pub namex_loop :
    (ℕ → Bool) → ℕ → ℕ → ℕ → Bool → ℕ → ℕ → Bytes → ℕ → M Fs (Option ℕ × Bytes)
namex_loop has_device de zero fuel parent path name mem ip s = out_of_fuel
namex_loop has_device de (suc rounds) fuel parent path name mem ip s =
    elim (skipelem fuel path name mem) [
      | ok (none, mem') ↦ end_walk parent mem' ip s
      | ok (some path', mem') ↦
          walk_element has_device de parent path' name mem' ip
            (namex_loop has_device de rounds fuel parent path' name mem') s
      | panic e ↦ panic e
      | fault ↦ fault
      | out_of_fuel ↦ out_of_fuel
    ]

-- `cwd` is the current directory of the process. The inode, and the memory with the last element in `name`.
unfoldable pub namex : (ℕ → Bool) → ℕ → ℕ → Bool → ℕ → ℕ → ℕ → Bytes → M Fs (Option ℕ × Bytes)
namex has_device de fuel parent path name cwd mem = do
  ip ← (if mem path == slash then iget rootdev rootino else idup cwd)
  namex_loop has_device de fuel fuel parent path name mem ip

-- `name` is a local variable.
unfoldable pub namei : (ℕ → Bool) → ℕ → ℕ → ℕ → ℕ → ℕ → Bytes → M Fs (Option ℕ)
namei has_device de fuel path name cwd mem = do
  r ← namex has_device de fuel false path name cwd mem
  pure r.0

unfoldable pub nameiparent : (ℕ → Bool) → ℕ → ℕ → ℕ → ℕ → ℕ → Bytes → M Fs (Option ℕ × Bytes)
nameiparent has_device de fuel path name cwd mem = namex has_device de fuel true path name cwd mem

-- ===== src/Sysfile/Link.antt =====
-- sysfile.c: sys_link and sys_unlink. A path `none` is one that argstr refuses; the result is whether the call
-- returns 0, and else it returns -1.
use os_2024_project_vm.Base.{
  ℕ, zero, suc, ◌+◌, ◌-◌, ◌/◌, ◌%◌, ◌^◌, Bool, true, false, not, ◌||◌, Option, none, some, ok,
  panic, out_of_fuel, M, pure, ◌>>=◌, ◌>>◌, ltb, leb, ◌==◌, if◌then◌else◌,
}
use os_2024_project_vm.Strings.{Bytes, memset}
use os_2024_project_vm.Mmu.{uint}
use os_2024_project_vm.Fs.State.{Inode, Fs, set_fields}
use os_2024_project_vm.Fs.Content.{iupdate, readi, writei}
use os_2024_project_vm.Fs.Inode.{ilock, iunlock, iput, iunlockput}
use os_2024_project_vm.Fs.Dir.{t_dir, same_name, entry_inum, is_entry, dirlookup, dirlink}
use os_2024_project_vm.Sysfile.State.{
  Kernel, Env, on_fs, inode, begin_trans, end_trans, find_path, find_parent, put_and_end,
}

-- `ip->nlink++` and `ip->nlink--` of a short, and iupdate
unfoldable pub more_links : ℕ → M Kernel (Unit {0})
more_links ip = do
  on_fs (set_fields ip (λ i. record i { nlink = (i.nlink + 1) % 2 ^ 16 }))
  on_fs (iupdate ip)

unfoldable pub fewer_links : ℕ → M Kernel (Unit {0})
fewer_links ip = do
  on_fs (set_fields ip (λ i. record i { nlink = (i.nlink + (2 ^ 16 - 1)) % 2 ^ 16 }))
  on_fs (iupdate ip)

-- The label `bad` of sys_link.
unfoldable pub undo_link : ℕ → M Kernel Bool
undo_link ip = do on_fs (ilock (some ip)); fewer_links ip; put_and_end ip; pure false

-- The entry for `ip` in the locked directory `dp`, and the end of sys_link.
unfoldable pub link_entry : Env → ℕ → ℕ → M Kernel Bool
link_entry e ip dp = do
  linked ← (λ s.
      if not ((inode dp s).dev == (inode ip s).dev)
      then ok (false, s)
      else on_fs (dirlink e.has_read e.de dp s.mem e.name (inode ip s).inum) s)
  on_fs (iunlockput dp)
  (if linked then (do on_fs (iput ip); end_trans; pure true) else undo_link ip)

unfoldable pub link_in : Env → ℕ → Option ℕ → M Kernel Bool
link_in e ip none = undo_link ip
link_in e ip (some dp) = do on_fs (ilock (some dp)); link_entry e ip dp

unfoldable pub link_file : Env → ℕ → ℕ → M Kernel Bool
link_file e new ip s =
    if (inode ip s).type == t_dir
    then (do put_and_end ip; pure false) s
    else (do more_links ip; on_fs (iunlock (some ip)); dp ← find_parent e new; link_in e ip dp) s

unfoldable pub link_old : Env → ℕ → Option ℕ → M Kernel Bool
link_old e new none = do end_trans; pure false
link_old e new (some ip) = do on_fs (ilock (some ip)); link_file e new ip

unfoldable pub sys_link : Env → Option ℕ → Option ℕ → M Kernel Bool
sys_link e (some old) (some new) = do begin_trans; ip ← find_path e old; link_old e new ip
sys_link e _ _ = pure false

-- The loop of isdirempty from `off` on.
unfoldable pub dir_empty_loop : Env → ℕ → ℕ → Bytes → ℕ → M Fs Bool
dir_empty_loop e zero dp mem off s = out_of_fuel
dir_empty_loop e (suc rounds) dp mem off s =
    let round = (do
      r ← readi e.has_read dp mem e.de off 16
      (λ t.
          let rest = dir_empty_loop e rounds dp r.1 (uint (off + 16)) in
          if not (is_entry r.0)
          then panic "isdirempty: readi"
          else (if not (entry_inum r.1 e.de == 0) then ok (false, t) else rest t))) in
    if ltb off (s.inodes dp).size then round s else ok (true, s)

unfoldable pub isdirempty : Env → ℕ → Bytes → M Fs Bool
isdirempty e dp mem s = dir_empty_loop e ((s.inodes dp).size / 16 + 2) dp mem 32 s

-- The label `bad` of sys_unlink.
unfoldable pub unlink_fails : ℕ → M Kernel Bool
unlink_fails dp = do put_and_end dp; pure false

-- The entry at `off` is cleared, and the counts of links go down.
unfoldable pub clear_entry : Env → ℕ → ℕ → ℕ → M Kernel Bool
clear_entry e dp ip off = do
  r ← (λ s. on_fs (writei e.has_write dp (memset s.mem e.de 0 16) e.de off 16) s)
  (if is_entry r then pure tt else (λ s. panic "unlink: writei"))
  (λ s. if (inode ip s).type == t_dir then fewer_links dp s else ok (tt, s))
  on_fs (iunlockput dp)
  fewer_links ip
  put_and_end ip
  pure true

-- `ip->nlink < 1` of a short
abbrev pub no_links : Inode → Bool
no_links i = (i.nlink == 0) || leb (2 ^ 15) i.nlink

unfoldable pub unlink_inode : Env → ℕ → ℕ → ℕ → M Kernel Bool
unlink_inode e dp ip off = do
  on_fs (ilock (some ip))
  empty ← (λ s.
      if no_links (inode ip s)
      then panic "unlink: nlink < 1"
      else (if (inode ip s).type == t_dir then on_fs (isdirempty e ip s.mem) s else ok (true, s)))
  (if empty then clear_entry e dp ip off else (do on_fs (iunlockput ip); unlink_fails dp))

unfoldable pub unlink_found : Env → ℕ → Option (ℕ × ℕ) → M Kernel Bool
unlink_found e dp none = unlink_fails dp
unlink_found e dp (some (ip, off)) = unlink_inode e dp ip off

unfoldable pub unlink_in : Env → Option ℕ → M Kernel Bool
unlink_in e none = do end_trans; pure false
unlink_in e (some dp) = do
  on_fs (ilock (some dp))
  (λ s.
      let found = (do r ← on_fs (dirlookup e.has_read e.de dp s.mem e.name); unlink_found e dp r) in
      if same_name s.mem e.name e.dot || same_name s.mem e.name e.dotdot
      then unlink_fails dp s
      else found s)

unfoldable pub sys_unlink : Env → Option ℕ → M Kernel Bool
sys_unlink e none = pure false
sys_unlink e (some path) = do begin_trans; dp ← find_parent e path; unlink_in e dp

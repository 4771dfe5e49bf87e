-- ===== src/Sysfile/Open.antt =====
-- sysfile.c: create, sys_open, sys_mkdir, sys_mknod and sys_chdir. A path `none` is one that argstr refuses,
-- and a result `none` or `false` is -1, or 0 for create.
use os_2024_project_vm.Base.{
  ℕ, ◌%◌, ◌^◌, Bool, true, false, not, ◌&&◌, ◌||◌, Option, none, some, ok, panic, M, pure, ◌>>=◌,
  ◌>>◌, ◌==◌, if◌then◌else◌, bit_and,
}
use os_2024_project_vm.Memory.{update}
use os_2024_project_vm.File.{filealloc, fd_inode}
use os_2024_project_vm.Fs.State.{set_fields}
use os_2024_project_vm.Fs.Content.{iupdate, t_dev}
use os_2024_project_vm.Fs.Inode.{ialloc, ilock, iunlock, iput, iunlockput}
use os_2024_project_vm.Fs.Dir.{t_dir, dirlookup, dirlink}
use os_2024_project_vm.Sysfile.State.{
  Kernel, Env, on_fs, on_ftable, inode, begin_trans, end_trans, find_path, find_parent, put_and_end,
}
use os_2024_project_vm.Sysfile.Descriptors.{fdalloc, close_file}
use os_2024_project_vm.Sysfile.Link.{more_links}

-- T_FILE of stat.h
abbrev pub t_file : ℕ
t_file = 2

-- fcntl.h
abbrev pub o_rdonly : ℕ
o_rdonly = 0

abbrev pub o_wronly : ℕ
o_wronly = 1

abbrev pub o_rdwr : ℕ
o_rdwr = 2

abbrev pub o_create : ℕ
o_create = 0x200

-- `omode & flag`, as a test
abbrev pub has_flag : ℕ → ℕ → Bool
has_flag omode flag = not (bit_and omode flag == 0)

-- create where the directory `dp` has the name already, for `ip`.
unfoldable pub create_found : ℕ → ℕ → ℕ → M Kernel (Option ℕ)
create_found type dp ip = do
  on_fs (iunlockput dp)
  on_fs (ilock (some ip))
  (λ s.
      if (type == t_file) && ((inode ip s).type == t_file)
      then ok (some ip, s)
      else (do on_fs (iunlockput ip); pure none) s)

abbrev pub or_panic : Bool → M Kernel (Unit {0})
or_panic true = pure tt
or_panic false = λ s. panic "create dots"

-- The entries . and .. of a new directory `ip` in `dp`: the second is not made when the first fails.
unfoldable pub create_dots : Env → ℕ → ℕ → M Kernel (Unit {0})
create_dots e dp ip = do
  more_links dp
  first ← (λ s. on_fs (dirlink e.has_read e.de ip s.mem e.dot (inode ip s).inum) s)
  or_panic first
  second ← (λ s. on_fs (dirlink e.has_read e.de ip s.mem e.dotdot (inode dp s).inum) s)
  or_panic second

unfoldable pub create_new : Env → ℕ → ℕ → ℕ → ℕ → M Kernel (Option ℕ)
create_new e type major minor dp = do
  ip ← (λ s. on_fs (ialloc (inode dp s).dev type) s)
  on_fs (ilock (some ip))
  on_fs (set_fields ip (λ i. record i { major = major; minor = minor; nlink = 1 }))
  on_fs (iupdate ip)
  (if type == t_dir then create_dots e dp ip else pure tt)
  linked ← (λ s. on_fs (dirlink e.has_read e.de dp s.mem e.name (inode ip s).inum) s)
  (if linked then pure tt else (λ s. panic "create: dirlink"))
  on_fs (iunlockput dp)
  pure (some ip)

unfoldable pub create_in : Env → ℕ → ℕ → ℕ → Option ℕ → M Kernel (Option ℕ)
create_in e type major minor none = pure none
create_in e type major minor (some dp) = do
  on_fs (ilock (some dp))
  r ← (λ s. on_fs (dirlookup e.has_read e.de dp s.mem e.name) s)
  elim r [ some found ↦ create_found type dp found.0 | none ↦ create_new e type major minor dp ]

unfoldable pub create : Env → ℕ → ℕ → ℕ → ℕ → M Kernel (Option ℕ)
create e path type major minor = do dp ← find_parent e path; create_in e type major minor dp

-- The assignments to the fields of the new file.
unfoldable pub set_file : ℕ → ℕ → ℕ → M Kernel (Unit {0})
set_file f ip omode s =
    let x = record (s.ftable.files f) {
      kind = fd_inode ip;
      off = 0;
      readable = not (has_flag omode o_wronly);
      writable = has_flag omode o_wronly || has_flag omode o_rdwr;
    } in
    ok (tt, record s { ftable = record s.ftable { files = update s.ftable.files f x } })

-- sys_open from where `f` is allocated for the locked `ip`, and `fd` for it.
unfoldable pub open_fd : ℕ → ℕ → ℕ → Option ℕ → M Kernel (Option ℕ)
open_fd ip omode f none = do c ← close_file f; put_and_end ip; pure none
open_fd ip omode f (some fd) = do
  on_fs (iunlock (some ip))
  end_trans
  set_file f ip omode
  pure (some fd)

unfoldable pub open_file : ℕ → ℕ → Option ℕ → M Kernel (Option ℕ)
open_file ip omode none = do put_and_end ip; pure none
open_file ip omode (some f) = do fd ← fdalloc f; open_fd ip omode f fd

unfoldable pub open_inode : ℕ → ℕ → M Kernel (Option ℕ)
open_inode ip omode = do f ← on_ftable filealloc; open_file ip omode f

-- sys_open of what create or namei returned.
unfoldable pub open_created : ℕ → Option ℕ → M Kernel (Option ℕ)
open_created omode none = do end_trans; pure none
open_created omode (some ip) = open_inode ip omode

unfoldable pub open_found : ℕ → Option ℕ → M Kernel (Option ℕ)
open_found omode none = do end_trans; pure none
open_found omode (some ip) = do
  on_fs (ilock (some ip))
  (λ s.
      if ((inode ip s).type == t_dir) && not (omode == o_rdonly)
      then (do put_and_end ip; pure none) s
      else open_inode ip omode s)

unfoldable pub sys_open : Env → Option ℕ → ℕ → M Kernel (Option ℕ)
sys_open e none omode = pure none
sys_open e (some path) omode = do
  begin_trans
  (if has_flag omode o_create
      then (do ip ← create e path t_file 0 0; open_created omode ip)
      else (do ip ← find_path e path; open_found omode ip))

-- The end of sys_mkdir and sys_mknod.
unfoldable pub end_create : Option ℕ → M Kernel Bool
end_create none = do end_trans; pure false
end_create (some ip) = do put_and_end ip; pure true

unfoldable pub sys_mkdir : Env → Option ℕ → M Kernel Bool
sys_mkdir e path = do
  begin_trans
  ip ← elim path [ none ↦ pure none | some p ↦ create e p t_dir 0 0 ]
  end_create ip

-- The shorts of the int arguments.
unfoldable pub sys_mknod : Env → Option ℕ → ℕ → ℕ → M Kernel Bool
sys_mknod e path major minor = do
  begin_trans
  ip ← elim path [ none ↦ pure none | some p ↦ create e p t_dev (major % 2 ^ 16) (minor % 2 ^ 16) ]
  end_create ip

unfoldable pub chdir_to : Option ℕ → M Kernel Bool
chdir_to none = do end_trans; pure false
chdir_to (some ip) = do
  on_fs (ilock (some ip))
  (λ s.
      if not ((inode ip s).type == t_dir)
      then (do put_and_end ip; pure false) s
      else (do
        on_fs (iunlock (some ip))
        (λ t. on_fs (iput t.cwd) t)
        end_trans
        (λ t. ok (true, record t { cwd = ip })))
          s)

unfoldable pub sys_chdir : Env → Option ℕ → M Kernel Bool
sys_chdir e path = do
  begin_trans
  ip ← elim path [ none ↦ pure none | some p ↦ find_path e p ]
  chdir_to ip

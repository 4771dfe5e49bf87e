-- ===== src/Sysfile/State.antt =====
-- The state of the file system calls of one process, and the lifting of fs.c, file.c and log.c to it.
use os_2024_project_vm.Base.{ℕ, Bool, Option, ok, panic, fault, out_of_fuel, M, pure, ◌>>=◌, ◌>>◌}
use os_2024_project_vm.Strings.{Bytes}
use os_2024_project_vm.Log.{begun, asleep, begin_op, end_op}
use os_2024_project_vm.Fs.State.{Inode, Fs, on_log}
use os_2024_project_vm.Fs.Inode.{iunlockput}
use os_2024_project_vm.Fs.Path.{namei, nameiparent}
use os_2024_project_vm.File.{Ftable}

-- `ofile` and `cwd` are those of myproc(); `mem` is the memory that paths and buffers stand in.
pub record Kernel : Type 0 where
  pub fs : Fs
  pub ftable : Ftable
  pub ofile : ℕ → Option ℕ
  pub cwd : ℕ
  pub mem : Bytes

-- What the calls use of other parts: which devices have a read and a write function and what these return,
-- `none` for -1; where local variables of the kernel stand, the directory entry `de` and the buffer `name`,
-- and the constants "." and ".."; and `fuel`, more than the length of a path.
pub record Env : Type 0 where
  pub has_read : ℕ → Bool
  pub has_write : ℕ → Bool
  pub device_result : ℕ → Option ℕ
  pub de : ℕ
  pub name : ℕ
  pub dot : ℕ
  pub dotdot : ℕ
  pub fuel : ℕ

abbrev pub on_fs : {A : Type 0} → M Fs A → M Kernel A
on_fs m s = elim (m s.fs) [
  | ok (a, t) ↦ ok (a, record s { fs = t })
  | panic e ↦ panic e
  | fault ↦ fault
  | out_of_fuel ↦ out_of_fuel
]

abbrev pub on_ftable : {A : Type 0} → M Ftable A → M Kernel A
on_ftable m s = elim (m s.ftable) [
  | ok (a, t) ↦ ok (a, record s { ftable = t })
  | panic e ↦ panic e
  | fault ↦ fault
  | out_of_fuel ↦ out_of_fuel
]

abbrev pub set_mem : Bytes → M Kernel (Unit {0})
set_mem mem s = ok (tt, record s { mem = mem })

abbrev pub inode : ℕ → Kernel → Inode
inode ip s = s.fs.inodes ip

-- A begin_op that sleeps waits for other processes, which the model does not have.
unfoldable pub begin_trans : M Kernel (Unit {0})
begin_trans =
    on_fs (on_log begin_op) >>= λ r. λ s. elim r [ begun ↦ ok (tt, s) | asleep ↦ out_of_fuel ]

unfoldable pub end_trans : M Kernel (Unit {0})
end_trans = on_fs (on_log end_op)

unfoldable pub find_path : Env → ℕ → M Kernel (Option ℕ)
find_path e path s = on_fs (namei e.has_read e.de e.fuel path e.name s.cwd s.mem) s

-- nameiparent, with the last element of the path in `name`
unfoldable pub find_parent : Env → ℕ → M Kernel (Option ℕ)
find_parent e path = do
  r ← (λ s. on_fs (nameiparent e.has_read e.de e.fuel path e.name s.cwd s.mem) s)
  set_mem r.1
  pure r.0

-- The end of a call that fails, with `ip` locked.
unfoldable pub put_and_end : ℕ → M Kernel (Unit {0})
put_and_end ip = do on_fs (iunlockput ip); end_trans

-- ===== src/Sysfile/Transfer.antt =====
-- file.c: fileread, filewrite and filestat, and the system calls for them in sysfile.c.
use os_2024_project_vm.Base.{
  ℕ, zero, suc, ◌+◌, ◌-◌, ◌*◌, ◌/◌, Bool, true, false, not, Option, none, some, ok, panic,
  out_of_fuel, M, pure, ◌>>=◌, ◌>>◌, ◌==◌, if◌then◌else◌, min,
}
use os_2024_project_vm.Memory.{update}
use os_2024_project_vm.Mmu.{uint}
use os_2024_project_vm.Log.{maxopblocks}
use os_2024_project_vm.File.{File, fd_none, fd_pipe, fd_inode}
use os_2024_project_vm.Fs.Content.{Io, fails, counts, device, readi, writei}
use os_2024_project_vm.Fs.Inode.{Stat, stati, ilock, iunlock}
use os_2024_project_vm.Sysfile.State.{Kernel, Env, on_fs, set_mem, begin_trans, end_trans}
use os_2024_project_vm.Sysfile.Descriptors.{argfd}

-- -1, a count, or what piperead or pipewrite of the pipe returns.
pub data Result : Type 0 where
  error : Result
  count : ℕ → Result
  by_pipe : (pipe n : ℕ) → Result

abbrev pub result_of : Option ℕ → Result
result_of none = error
result_of (some n) = count n

abbrev pub file : ℕ → Kernel → File
file f s = s.ftable.files f

-- The int that readi and writei return, `none` for -1.
abbrev pub io_result : Env → Io → Option ℕ
io_result e fails = none
io_result e (counts n) = some n
io_result e (device major) = e.device_result major

-- `if(r > 0) f->off += r`
unfoldable pub advance : ℕ → Option ℕ → M Kernel (Unit {0})
advance f none s = ok (tt, s)
advance f (some r) s =
    let x = record (file f s) { off = uint ((file f s).off + r) } in
    ok (tt, record s { ftable = record s.ftable { files = update s.ftable.files f x } })

unfoldable pub read_inode : Env → ℕ → ℕ → ℕ → ℕ → M Kernel Result
read_inode e f ip addr n = do
  on_fs (ilock (some ip))
  r ← (λ s. on_fs (readi e.has_read ip s.mem addr (file f s).off n) s)
  set_mem r.1
  advance f (io_result e r.0)
  on_fs (iunlock (some ip))
  pure (result_of (io_result e r.0))

unfoldable pub fileread : Env → ℕ → ℕ → ℕ → M Kernel Result
fileread e f addr n s = if not (file f s).readable then ok (error, s) else elim (file f s).kind [
  | fd_pipe p ↦ ok (by_pipe p n, s)
  | fd_inode ip ↦ read_inode e f ip addr n s
  | fd_none ↦ panic "fileread"
]

-- The bytes that a transaction of filewrite writes at most.
abbrev pub max_write : ℕ
max_write = (maxopblocks - 1 - 1 - 2) / 2 * 512

-- A round of the loop of filewrite: the int that writei returns for `n1` bytes from `addr` on.
unfoldable pub write_chunk : Env → ℕ → ℕ → ℕ → ℕ → M Kernel (Option ℕ)
write_chunk e f ip addr n1 = do
  begin_trans
  on_fs (ilock (some ip))
  r ← (λ s. on_fs (writei e.has_write ip s.mem addr (file f s).off n1) s)
  advance f (io_result e r)
  on_fs (iunlock (some ip))
  end_trans
  pure (io_result e r)

-- The rest of the round, with `rest` the loop after it: whether all bytes were written.
unfoldable pub check_chunk : ℕ → M Kernel Bool → Option ℕ → M Kernel Bool
check_chunk n1 rest none = pure false
check_chunk n1 rest (some r) = if r == n1 then rest else (λ s. panic "short filewrite")

-- The loop with `left` bytes to write; a round writes a byte or more.
unfoldable pub write_inode : Env → ℕ → ℕ → ℕ → ℕ → ℕ → M Kernel Bool
write_inode e zero f ip addr left s = out_of_fuel
write_inode e (suc rounds) f ip addr left s =
    let n1 = min left max_write in
    let rest = write_inode e rounds f ip (addr + n1) (left - n1) in
    if left == 0 then ok (true, s) else (write_chunk e f ip addr n1 >>= check_chunk n1 rest) s

unfoldable pub filewrite : Env → ℕ → ℕ → ℕ → M Kernel Result
filewrite e f addr n s = if not (file f s).writable then ok (error, s) else elim (file f s).kind [
  | fd_pipe p ↦ ok (by_pipe p n, s)
  | fd_inode ip ↦
      (do all ← write_inode e (n + 1) f ip addr n; pure (if all then count n else error)) s
  | fd_none ↦ panic "filewrite"
]

-- The `struct stat` that is filled in, or `none` for -1.
unfoldable pub filestat : ℕ → M Kernel (Option Stat)
filestat f s = elim (file f s).kind [
  | fd_inode ip ↦
      (do
        on_fs (ilock (some ip))
        st ← (λ t. ok (stati (t.fs.inodes ip), t))
        on_fs (iunlock (some ip))
        pure (some st))
        s
  | _ ↦ ok (none, s)
]

-- `p` is what argptr gives for the buffer, `none` for -1.
unfoldable pub sys_read : Env → ℕ → Option ℕ → ℕ → M Kernel Result
sys_read e arg none n s = ok (error, s)
sys_read e arg (some p) n s = elim (argfd arg s) [
  | none ↦ ok (error, s)
  | some f ↦ fileread e f p n s
]

unfoldable pub sys_write : Env → ℕ → Option ℕ → ℕ → M Kernel Result
sys_write e arg none n s = ok (error, s)
sys_write e arg (some p) n s = elim (argfd arg s) [
  | none ↦ ok (error, s)
  | some f ↦ filewrite e f p n s
]

unfoldable pub sys_fstat : ℕ → Option ℕ → M Kernel (Option Stat)
sys_fstat arg none s = ok (none, s)
sys_fstat arg (some st) s = elim (argfd arg s) [ none ↦ ok (none, s) | some f ↦ filestat f s ]

-- ===== src/Sysfile/Descriptors.antt =====
-- sysfile.c: file descriptors. A result `none` is -1.
use os_2024_project_vm.Base.{
  ℕ, zero, suc, ◌+◌, Option, none, some, ok, M, pure, ◌>>=◌, ◌>>◌, leb, if◌then◌else◌,
}
use os_2024_project_vm.Memory.{update}
use os_2024_project_vm.File.{
  filedup, fileclose, Closing, still_open, nothing_left, closes_pipe, puts_inode,
}
use os_2024_project_vm.Fs.Inode.{iput}
use os_2024_project_vm.Sysfile.State.{Kernel, on_fs, on_ftable, begin_trans, end_trans}

abbrev pub nofile : ℕ
nofile = 16

-- `fd` is the argument as a word; the int is negative from 2 ^ 31 on, and then beyond NOFILE as a word.
unfoldable pub argfd : ℕ → Kernel → Option ℕ
argfd fd s = if leb nofile fd then none else s.ofile fd

-- The loop of fdalloc from descriptor `fd` on.
unfoldable pub find_fd : (ℕ → Option ℕ) → ℕ → ℕ → Option ℕ
find_fd ofile zero fd = none
find_fd ofile (suc left) fd =
    let rest = find_fd ofile left (fd + 1) in elim (ofile fd) [ none ↦ some fd | some f ↦ rest ]

abbrev pub set_fd : ℕ → Option ℕ → Kernel → Kernel
set_fd fd f s = record s { ofile = update s.ofile fd f }

unfoldable pub fdalloc : ℕ → M Kernel (Option ℕ)
fdalloc f s = elim (find_fd s.ofile nofile 0) [
  | none ↦ ok (none, s)
  | some fd ↦ ok (some fd, set_fd fd (some f) s)
]

unfoldable pub dup_to : ℕ → Option ℕ → M Kernel (Option ℕ)
dup_to f none = pure none
dup_to f (some fd) = on_ftable (filedup f) >>= λ g. pure (some fd)

unfoldable pub sys_dup : ℕ → M Kernel (Option ℕ)
sys_dup arg s = elim (argfd arg s) [ none ↦ ok (none, s) | some f ↦ (fdalloc f >>= dup_to f) s ]

-- What fileclose does after the table. A pipe is only named: pipe.c keeps its own state.
unfoldable pub let_go : Closing → M Kernel (Unit {0})
let_go still_open = pure tt
let_go nothing_left = pure tt
let_go (closes_pipe p w) = pure tt
let_go (puts_inode ip) = do begin_trans; on_fs (iput ip); end_trans

unfoldable pub close_file : ℕ → M Kernel Closing
close_file f = do c ← on_ftable (fileclose f); let_go c; pure c

-- The result is how the file was closed, or `none` for -1.
unfoldable pub sys_close : ℕ → M Kernel (Option Closing)
sys_close arg s = elim (argfd arg s) [
  | none ↦ ok (none, s)
  | some f ↦ (do c ← close_file f; pure (some c)) (set_fd arg none s)
]

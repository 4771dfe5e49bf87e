-- ===== src/Sysfile/Tests.antt =====
-- File system calls on a small system.
use os_2024_project_vm.Base.{ℕ, ◌≡◌, refl, true, false, none, some, ok, arith, ◌==◌, if◌then◌else◌}
use os_2024_project_vm.Memory.{update}
use os_2024_project_vm.Strings.{Bytes}
use os_2024_project_vm.File.{fd_none, fd_inode}
use os_2024_project_vm.Fs.State.{Fs}
use os_2024_project_vm.Fs.Example.{an_fs, an_fs-HasBlock}
use os_2024_project_vm.Fs.FileBytes.{file_byte}
use os_2024_project_vm.Fs.Read.{with_bytes}
use os_2024_project_vm.Sysfile.State.{Kernel, Env}
use os_2024_project_vm.Sysfile.Descriptors.{argfd}
use os_2024_project_vm.Sysfile.Transfer.{count, fileread}
use os_2024_project_vm.Sysfile.Dup.{DupsAndCloses, sys_dup-sys_close}
use os_2024_project_vm.Sysfile.Read.{IsReadable, SameFs, after_read, fileread-Reads}

-- Descriptor 0 is file 5, which is open on inode 0 at offset 600.
abbrev a_system : Kernel
a_system = record {
  fs = an_fs;
  ftable = record {
    locked = false;
    files = λ f.
        if f == 5
        then record { kind = fd_inode 0; ref = 1; readable = true; writable = false; off = 600 }
        else record { kind = fd_none; ref = 0; readable = false; writable = false; off = 0 };
  };
  ofile = update (λ fd. none) 0 (some 5);
  cwd = 0;
  mem = λ a. 0;
}

abbrev an_env : Env
an_env = record {
  has_read = λ m. false;
  has_write = λ m. false;
  device_result = λ m. none;
  de = 1000;
  name = 1100;
  dot = 1200;
  dotdot = 1210;
  fuel = 20;
}

a_system-argfd : argfd 0 a_system ≡ some 5
unfolding argfd
a_system-argfd = refl

sys_dup-sys_close_example : DupsAndCloses 0 5 a_system
sys_dup-sys_close_example = sys_dup-sys_close 0 5 a_system a_system-argfd refl (omega arith)

a_system-IsReadable : IsReadable 5 0 a_system
a_system-IsReadable =
    (refl, refl, refl, omega arith, refl, λ e. absurd (omega (arith, e)), an_fs-HasBlock)

fileread-Reads_example :
    (u : Fs) × (mem' : Bytes) × (fileread an_env 5 2000 200 a_system
      ≡ ok (count 100, after_read 5 100 u mem' a_system))
    × SameFs an_fs u
    × ((a : ℕ) → mem' a ≡ with_bytes (file_byte 0 an_fs) 600 2000 100 (λ a. 0) a)
fileread-Reads_example =
    fileread-Reads an_env 5 0 2000 200 a_system a_system-IsReadable (omega arith) (omega arith)

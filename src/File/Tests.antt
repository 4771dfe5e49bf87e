-- ===== src/File/Tests.antt =====
-- A file is opened and closed.
use os_2024_project_vm.Base.{◌≡◌, refl, false, true, some, ok, [], ◌∷◌, arith}
use os_2024_project_vm.File.{
  Ftable, fd_none, fd_pipe, filealloc, acquire_ftable, release_ftable, find_unused, Closing,
  fileclose, with_ref,
}
use os_2024_project_vm.File.Holders.{Closed, filled}
use os_2024_project_vm.File.Counts.{starts, opens, fills, closes_with_last}

abbrev no_files : Ftable
no_files = record {
  locked = false;
  files = λ i. record { kind = fd_none; ref = 0; readable = false; writable = false; off = 0 };
}

first_opened : filealloc no_files ≡ ok (some 0, with_ref 0 1 no_files)
unfolding filealloc acquire_ftable release_ftable find_unused
first_opened = refl

-- The only holder of a file on a pipe, open for writing, closes it.
abbrev a_pipe : Ftable
a_pipe = filled 0 (fd_pipe 3) false true 0 (with_ref 0 1 no_files)

closes_with_last_example :
    (a : Closing) × (t' : Ftable) × (fileclose 0 a_pipe ≡ ok (a, t'))
    × Closed 0 (0 ∷ []) a_pipe a t'
closes_with_last_example =
    closes_with_last no_files a_pipe (0 ∷ []) 0 refl (λ g l. refl)
      (fills 0 (fd_pipe 3) false true 0 (opens 0 starts first_opened) (omega arith)) (omega arith)
      (omega arith)

-- ===== src/File.antt =====
-- file.c: the table of open files and its counts of references. A file is its index in the table.
pub mod Holders
pub mod Counts
mod Tests
use os_2024_project_vm.Base.{
  ℕ, zero, suc, ◌+◌, ◌-◌, ◌*◌, Bool, true, false, not, ◌&&◌, ◌||◌, Option, none, some, Outcome, ok,
  panic, M, pure, ◌>>=◌, ◌>>◌, ltb, leb, ◌==◌, if◌then◌else◌,
}
use os_2024_project_vm.Memory.{update}

abbrev pub nfile : ℕ
nfile = 100

-- `type`, with the pointer that goes with it.
pub data FileKind : Type 0 where
  fd_none : FileKind
  fd_pipe : (pipe : ℕ) → FileKind
  fd_inode : (ip : ℕ) → FileKind

-- `struct file`
pub record File : Type 0 where
  pub kind : FileKind
  pub ref : ℕ
  pub readable : Bool
  pub writable : Bool
  pub off : ℕ

pub record Ftable : Type 0 where
  pub locked : Bool
  pub files : ℕ → File

unfoldable pub acquire_ftable : M Ftable (Unit {0})
acquire_ftable t = if t.locked then panic "acquire" else ok (tt, record t { locked = true })

unfoldable pub release_ftable : M Ftable (Unit {0})
release_ftable t = if t.locked then ok (tt, record t { locked = false }) else panic "release"

-- The loop of filealloc from file `i` on: the first without references.
unfoldable pub find_unused : (ℕ → File) → ℕ → ℕ → Option ℕ
find_unused files zero i = none
find_unused files (suc count) i =
    let rest = find_unused files count (i + 1) in if (files i).ref == 0 then some i else rest

abbrev pub with_ref : ℕ → ℕ → Ftable → Ftable
with_ref f n t = record t { files = update t.files f (record (t.files f) { ref = n }) }

unfoldable pub filealloc : M Ftable (Option ℕ)
filealloc = do
  acquire_ftable
  r ← (λ t. elim (find_unused t.files nfile 0) [
    | none ↦ ok (none, t)
    | some f ↦ ok (some f, with_ref f 1 t)
  ])
  release_ftable
  pure r

unfoldable pub filedup : ℕ → M Ftable ℕ
filedup f = do
  acquire_ftable
  (λ t.
      if ltb (t.files f).ref 1
      then panic "filedup"
      else ok (tt, with_ref f ((t.files f).ref + 1) t))
  release_ftable
  pure f

-- What fileclose goes on with after the table: nothing, pipeclose with the end, or iput in a transaction.
pub data Closing : Type 0 where
  still_open : Closing
  nothing_left : Closing
  closes_pipe : (pipe : ℕ) → (writable : Bool) → Closing
  puts_inode : (ip : ℕ) → Closing

unfoldable pub close_last : File → Closing
close_last ff = elim ff.kind [
  | fd_none ↦ nothing_left
  | fd_pipe p ↦ closes_pipe p ff.writable
  | fd_inode i ↦ puts_inode i
]

unfoldable pub fileclose : ℕ → M Ftable Closing
fileclose f = do
  acquire_ftable
  r ← (λ t.
      if ltb (t.files f).ref 1
      then panic "fileclose"
      else (if ltb 0 ((t.files f).ref - 1)
          then ok (still_open, with_ref f ((t.files f).ref - 1) t)
          else ok (
            close_last (t.files f),
            record t { files = update t.files f (record (t.files f) { ref = 0; kind = fd_none }) },
          )))
  release_ftable
  pure r

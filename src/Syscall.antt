-- ===== src/Syscall.antt =====
-- syscall.c: the checks on the arguments of a system call. `sz` is the size of the calling
-- process, `mem` the bytes of its memory, `esp` its stack pointer; an int is kept as its unsigned word.
pub mod Pointers
mod Tests
use os_2024_project_vm.Base.{
  ℕ, zero, suc, ◌+◌, ◌-◌, ◌*◌, ◌^◌, Bool, true, false, not, ◌&&◌, ◌||◌, Option, none, some, List,
  [], ◌∷◌, length, get_elem?, ltb, leb, ◌==◌, if◌then◌else◌,
}
use os_2024_project_vm.Mmu.{uint}
use os_2024_project_vm.Strings.{Bytes}

-- A little-endian word.
unfoldable pub word_at : Bytes → ℕ → ℕ
word_at mem a = mem a + mem (a + 1) * 2 ^ 8 + mem (a + 2) * 2 ^ 16 + mem (a + 3) * 2 ^ 24

-- `n < 0` of the int with the word `n`
unfoldable pub is_negative : ℕ → Bool
is_negative n = leb (2 ^ 31) n

module _ (sz : ℕ) (mem : Bytes) where
  -- `none` is the result -1.
  unfoldable pub fetchint : ℕ → Option ℕ
  fetchint addr = if leb sz addr || ltb sz (uint (addr + 4)) then none else some (word_at mem addr)

  -- The loop of fetchstr from `n` bytes after `addr` on, with `left` bytes up to the end.
  unfoldable pub fetchstr_loop : ℕ → ℕ → ℕ → Option ℕ
  fetchstr_loop zero addr n = none
  fetchstr_loop (suc left) addr n =
      let rest = fetchstr_loop left addr (n + 1) in if mem (addr + n) == 0 then some n else rest

  -- The length of the string.
  unfoldable pub fetchstr : ℕ → Option ℕ
  fetchstr addr = if leb sz addr then none else fetchstr_loop (sz - addr) addr 0

  module _ (esp : ℕ) where
    unfoldable pub argint : ℕ → Option ℕ
    argint n = fetchint (uint (esp + 4 + 4 * n))

    unfoldable pub argptr : ℕ → ℕ → Option ℕ
    argptr n size = elim (argint n) [
      | none ↦ none
      | some i ↦ if is_negative size || leb sz i || ltb sz (uint (i + size)) then none else some i
    ]

    -- The pointer and the length of the string.
    unfoldable pub argstr : ℕ → Option (ℕ × ℕ)
    argstr n = elim (argint n) [
      | none ↦ none
      | some addr ↦ elim (fetchstr addr) [ none ↦ none | some l ↦ some (addr, l) ]
    ]

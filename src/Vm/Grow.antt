-- ===== src/Vm/Grow.antt =====
-- growproc of proc.c and sys_sbrk of sysproc.c: the memory of the running process grows or shrinks. `pgdir`
-- and `sz` are those of the process, and `n` is an int as a word. switchuvm only loads registers.
use os_2024_project_vm.Base.{
  ℕ, ◌+◌, ◌^◌, Option, none, some, M, pure, ◌>>=◌, ltb, ◌==◌, if◌then◌else◌,
}
use os_2024_project_vm.Mmu.{uint}
use os_2024_project_vm.Kalloc.{Kmem}
use os_2024_project_vm.Vm.Region.{allocuvm, deallocuvm}

module _ (kernel_end : ℕ) where
  -- The new size, or `none` for -1, with the size as it was.
  unfoldable pub growproc : ℕ → ℕ → ℕ → M Kmem (Option ℕ)
  growproc pgdir sz n = if n == 0 then pure (some sz) else do
    new ←
        (if ltb n (2 ^ 31)
          then allocuvm kernel_end pgdir sz (uint (sz + n))
          else deallocuvm kernel_end pgdir sz (uint (sz + n)))
    pure (if new == 0 then none else some new)

  -- The old size, which is the result, and the new one; `none` is -1.
  unfoldable pub sys_sbrk : ℕ → ℕ → ℕ → M Kmem (Option (ℕ × ℕ))
  sys_sbrk pgdir sz n = do
    r ← growproc pgdir sz n
    pure (elim r [ none ↦ none | some new ↦ some (sz, new) ])

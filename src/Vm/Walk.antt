-- ===== src/Vm/Walk.antt =====
-- walkpgdir and mappages of vm.c. An `int` result 0 is `true` and -1 is `false`; a null pointer is 0.
use os_2024_project_vm.Base.{
  ℕ, zero, suc, ◌+◌, ◌-◌, ◌*◌, ◌^◌, Bool, true, false, bit_or, M, ok, out_of_fuel, pure, stop,
  ◌>>=◌, ◌>>◌, ◌==◌, if◌then◌else◌,
}
use os_2024_project_vm.Mmu.{
  uint, pgsize, pdx, ptx, pgrounddown, pte_p, pte_w, pte_u, flag, pte_addr, v2p, p2v,
}
use os_2024_project_vm.Memory.{load, store, memset_page, memmove_page}
use os_2024_project_vm.Kalloc.{Kmem, kalloc}

-- The kernel's loads and stores, and its memset and memmove of a page.
unfoldable pub read : ℕ → M Kmem ℕ
read a k = ok (load k.mem a, k)

unfoldable pub write : ℕ → ℕ → M Kmem (Unit {0})
write a v k = ok (tt, record k { mem = store k.mem a v })

unfoldable pub clear : ℕ → M Kmem (Unit {0})
clear a k = ok (tt, record k { mem = memset_page k.mem a 0 })

unfoldable pub copy_page : ℕ → ℕ → M Kmem (Unit {0})
copy_page dst src k = ok (tt, record k { mem = memmove_page k.mem dst src })

-- The branch of walkpgdir that creates a page table and enters it at `pde`.
unfoldable pub new_table : ℕ → ℕ → M Kmem ℕ
unfolding write clear
new_table pde va = do
  pgtab ← kalloc
  if pgtab == 0 then pure 0 else do
    clear pgtab
    write pde (bit_or (bit_or (bit_or (v2p pgtab) pte_p) pte_w) pte_u)
    pure (pgtab + 4 * ptx va)

-- The address of the page-table entry for `va`, or 0. `&pgdir[i]` is `pgdir + 4 * i`.
unfoldable pub walkpgdir : ℕ → ℕ → Bool → M Kmem ℕ
walkpgdir pgdir va alloc k =
    let pde = pgdir + 4 * pdx va in
    let e = load k.mem pde in
    if flag e pte_p == 1
    then ok (p2v (pte_addr e) + 4 * ptx va, k)
    else if alloc
    then new_table pde va k
    else ok (0, k)

-- The body of the loop of mappages for the page at `a`.
unfoldable pub map_page : ℕ → ℕ → ℕ → ℕ → M Kmem Bool
unfolding write
map_page pgdir a pa perm = do
  pte ← walkpgdir pgdir a true
  if pte == 0 then pure false else do
    e ← read pte
    if flag e pte_p == 1
        then stop "remap"
        else do write pte (bit_or (bit_or pa perm) pte_p); pure true

-- Its `for(;;)`: it leaves at `last`. `a += PGSIZE` and `pa += PGSIZE` wrap.
unfoldable pub mappages_loop : ℕ → ℕ → ℕ → ℕ → ℕ → ℕ → M Kmem Bool
mappages_loop zero pgdir a last pa perm k = out_of_fuel
mappages_loop (suc rounds) pgdir a last pa perm k =
    (do
      done ← map_page pgdir a pa perm
      elim done [
        | false ↦ pure false
        | true ↦ elim (a == last) [
          | true ↦ pure true
          | false ↦ mappages_loop rounds pgdir (uint (a + pgsize)) last (uint (pa + pgsize)) perm
        ]
      ])
      k

unfoldable pub mappages : ℕ → ℕ → ℕ → ℕ → ℕ → M Kmem Bool
mappages pgdir va size pa perm =
    mappages_loop (2 ^ 20) pgdir (pgrounddown va) (pgrounddown (uint (va + size + 2 ^ 32 - 1))) pa
      perm

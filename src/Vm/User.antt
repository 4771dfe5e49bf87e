-- ===== src/Vm/User.antt =====
-- inituvm, clearpteu, uva2ka and copyout of vm.c: the kernel in user memory.
use os_2024_project_vm.Base.{
  ℕ, zero, suc, ◌+◌, ◌-◌, ◌*◌, Bool, true, false, bit_or, List, M, ok, out_of_fuel, pure, stop,
  crash, min, length, take, drop, ◌>>=◌, ◌>>◌, leb, ◌==◌, if◌then◌else◌,
}
use os_2024_project_vm.Mmu.{
  uint, pgsize, pgrounddown, pte_p, pte_w, pte_u, flag, pte_addr, v2p, p2v,
}
use os_2024_project_vm.Memory.{store_bytes}
use os_2024_project_vm.Kalloc.{Kmem, kalloc}
use os_2024_project_vm.Vm.Walk.{read, write, clear, walkpgdir, mappages}

-- memmove of bytes into one page.
unfoldable pub write_bytes : ℕ → List ℕ → M Kmem (Unit {0})
write_bytes a bs k = ok (tt, record k { mem = store_bytes k.mem a bs })

unfoldable pub inituvm : ℕ → List ℕ → M Kmem (Unit {0})
unfolding clear write_bytes
inituvm pgdir init = if leb pgsize (length init) then stop "inituvm: more than a page" else do
  mem ← kalloc
  if mem == 0 then crash else do
    clear mem
    _ ← mappages pgdir 0 pgsize (v2p mem) (bit_or pte_w pte_u)
    write_bytes mem init

unfoldable pub clearpteu : ℕ → ℕ → M Kmem (Unit {0})
unfolding read write
clearpteu pgdir uva = do
  pte ← walkpgdir pgdir uva false
  if pte == 0 then stop "clearpteu" else do e ← read pte; write pte (e - pte_u * flag e pte_u)

-- The entry is read through `pte` without a test for 0.
unfoldable pub uva2ka : ℕ → ℕ → M Kmem ℕ
unfolding read
uva2ka pgdir uva = do
  pte ← walkpgdir pgdir uva false
  if pte == 0 then crash else do
    e ← read pte
    if flag e pte_p == 0
        then pure 0
        else if flag e pte_u == 0
        then pure 0
        else pure (p2v (pte_addr e))

-- The loop of copyout; the list is the `len` bytes at `buf`.
unfoldable pub copyout_loop : ℕ → ℕ → ℕ → List ℕ → M Kmem Bool
unfolding write_bytes
copyout_loop zero pgdir va bytes k = out_of_fuel
copyout_loop (suc rounds) pgdir va bytes k = elim (length bytes == 0) [
  | true ↦ ok (true, k)
  | false ↦
      (let va0 = pgrounddown va in
          let n = min (pgsize - (va - va0)) (length bytes) in
          do
            pa0 ← uva2ka pgdir va0
            if pa0 == 0 then pure false else do
              write_bytes (pa0 + (va - va0)) (take n bytes)
              copyout_loop rounds pgdir (uint (va0 + pgsize)) (drop n bytes))
        k
]

-- Every round but the first takes a page of bytes.
unfoldable pub copyout : ℕ → ℕ → List ℕ → M Kmem Bool
copyout pgdir va bytes = copyout_loop (length bytes + 1) pgdir va bytes

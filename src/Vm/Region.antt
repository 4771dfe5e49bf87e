-- ===== src/Vm/Region.antt =====
-- allocuvm, deallocuvm, freevm, setupkvm and copyuvm of vm.c. A loop that cannot end within its
-- fuel by the code is `out_of_fuel`.
use os_2024_project_vm.Base.{
  ℕ, zero, suc, ◌+◌, ◌-◌, ◌*◌, ◌^◌, Bool, true, false, bit_or, List, [], ◌∷◌, M, ok, out_of_fuel,
  pure, stop, ◌>>=◌, ◌>>◌, ltb, leb, ◌==◌, if◌then◌else◌,
}
use os_2024_project_vm.Mmu.{
  uint, pgsize, npdentries, pdx, pgaddr, pgroundup, pte_p, pte_w, pte_u, flag, pte_addr, pte_flags,
  extmem, phystop, devspace, kernbase, kernlink, v2p, p2v,
}
use os_2024_project_vm.Memory.{load}
use os_2024_project_vm.Kalloc.{Kmem, kalloc, kfree}
use os_2024_project_vm.Vm.Walk.{read, write, clear, copy_page, walkpgdir, mappages}

pub record Kmap : Type 0 where
  pub virt : ℕ
  pub phys_start : ℕ
  pub phys_end : ℕ
  pub perm : ℕ

-- `data_start` is `data`, the first address of the kernel's data, which the linker sets.
abbrev pub kmap : ℕ → List Kmap
kmap data_start =
    record { virt = kernbase; phys_start = 0; phys_end = extmem; perm = pte_w }
    ∷ record { virt = kernlink; phys_start = v2p kernlink; phys_end = v2p data_start; perm = 0 }
    ∷ record { virt = data_start; phys_start = v2p data_start; phys_end = phystop; perm = pte_w }
    ∷ record { virt = devspace; phys_start = devspace; phys_end = 0; perm = pte_w }
    ∷ []

module _ (kernel_end : ℕ) where
  -- What the loop of deallocuvm does with the page at `a`; the address from which it goes on.
  unfoldable pub unmap_page : ℕ → ℕ → M Kmem ℕ
  unfolding write
  unmap_page pgdir a = do
    pte ← walkpgdir pgdir a false
    if pte == 0 then pure (uint (pgaddr (pdx a + 1) 0 0 + 2 ^ 32 - pgsize)) else do
      e ← read pte
      if flag e pte_p == 0 then pure a else do
        if pte_addr e == 0
            then stop "kfree"
            else do kfree kernel_end (p2v (pte_addr e)); write pte 0; pure a

  unfoldable pub deallocuvm_loop : ℕ → ℕ → ℕ → ℕ → M Kmem (Unit {0})
  deallocuvm_loop zero pgdir a oldsz k = out_of_fuel
  deallocuvm_loop (suc rounds) pgdir a oldsz k = elim (ltb a oldsz) [
    | false ↦ ok (tt, k)
    | true ↦ (do b ← unmap_page pgdir a; deallocuvm_loop rounds pgdir (uint (b + pgsize)) oldsz) k
  ]

  unfoldable pub deallocuvm : ℕ → ℕ → ℕ → M Kmem ℕ
  deallocuvm pgdir oldsz newsz =
      if leb oldsz newsz
      then pure oldsz
      else do deallocuvm_loop (2 ^ 20 + 1) pgdir (pgroundup newsz) oldsz; pure newsz

  -- The loop of allocuvm at `a`. Its result 0 is a failure.
  unfoldable pub alloc_page : ℕ → ℕ → ℕ → ℕ → M Kmem Bool
  unfolding clear
  alloc_page pgdir a oldsz newsz = do
    mem ← kalloc
    if mem == 0 then (do _ ← deallocuvm pgdir newsz oldsz; pure false) else do
      clear mem
      mapped ← mappages pgdir a pgsize (v2p mem) (bit_or pte_w pte_u)
      if mapped
          then pure true
          else do _ ← deallocuvm pgdir newsz oldsz; kfree kernel_end mem; pure false

  unfoldable pub allocuvm_loop : ℕ → ℕ → ℕ → ℕ → ℕ → M Kmem ℕ
  allocuvm_loop zero pgdir a oldsz newsz k = out_of_fuel
  allocuvm_loop (suc rounds) pgdir a oldsz newsz k = elim (ltb a newsz) [
    | false ↦ ok (newsz, k)
    | true ↦
        (do
          done ← alloc_page pgdir a oldsz newsz
          elim done [
            | false ↦ pure 0
            | true ↦ allocuvm_loop rounds pgdir (uint (a + pgsize)) oldsz newsz
          ])
          k
  ]

  unfoldable pub allocuvm : ℕ → ℕ → ℕ → M Kmem ℕ
  allocuvm pgdir oldsz newsz k =
      if leb kernbase newsz
      then ok (0, k)
      else if ltb newsz oldsz
      then ok (oldsz, k)
      else allocuvm_loop (2 ^ 19 + 1) pgdir (pgroundup oldsz) oldsz newsz k

  -- The second loop of freevm, over the entries of the directory from `i` on.
  unfoldable pub free_tables : ℕ → ℕ → ℕ → M Kmem (Unit {0})
  free_tables zero i pgdir k = ok (tt, k)
  free_tables (suc rounds) i pgdir k =
      let e = load k.mem (pgdir + 4 * i) in
      elim (flag e pte_p == 1) [
        | true ↦ (kfree kernel_end (p2v (pte_addr e)) >> free_tables rounds (i + 1) pgdir) k
        | false ↦ free_tables rounds (i + 1) pgdir k
      ]

  unfoldable pub freevm : ℕ → M Kmem (Unit {0})
  freevm pgdir = if pgdir == 0 then stop "freevm: no pgdir" else do
    _ ← deallocuvm pgdir kernbase 0
    free_tables npdentries 0 pgdir
    kfree kernel_end pgdir

  -- The loop of setupkvm over the table.
  unfoldable pub setup_loop : List Kmap → ℕ → M Kmem ℕ
  setup_loop [] pgdir = pure pgdir
  setup_loop (e ∷ es) pgdir = do
    mapped ← mappages pgdir e.virt (uint (e.phys_end + 2 ^ 32 - e.phys_start)) e.phys_start e.perm
    elim mapped [ true ↦ setup_loop es pgdir | false ↦ do freevm pgdir; pure 0 ]

  module _ (data_start : ℕ) where
    unfoldable pub setupkvm : M Kmem ℕ
    unfolding clear
    setupkvm = do
      pgdir ← kalloc
      if pgdir == 0 then pure 0 else do
        clear pgdir
        if ltb devspace (p2v phystop)
            then stop "PHYSTOP too high"
            else setup_loop (kmap data_start) pgdir

    -- The loop of copyuvm at `i`; on failure the copy made so far is freed.
    unfoldable pub copy_loop : ℕ → ℕ → ℕ → ℕ → ℕ → M Kmem ℕ
    unfolding copy_page read
    copy_loop zero pgdir i sz d k = out_of_fuel
    copy_loop (suc rounds) pgdir i sz d k = elim (ltb i sz) [
      | false ↦ ok (d, k)
      | true ↦
          (do
            pte ← walkpgdir pgdir i false
            if pte == 0 then stop "copyuvm: pte should exist" else do
              e ← read pte
              if flag e pte_p == 0 then stop "copyuvm: page not present" else do
                mem ← kalloc
                if mem == 0 then (do freevm d; pure 0) else do
                  copy_page mem (p2v (pte_addr e))
                  mapped ← mappages d i pgsize (v2p mem) (pte_flags e)
                  elim mapped [
                    | false ↦ do kfree kernel_end mem; freevm d; pure 0
                    | true ↦ copy_loop rounds pgdir (uint (i + pgsize)) sz d
                  ])
            k
    ]

    unfoldable pub copyuvm : ℕ → ℕ → M Kmem ℕ
    copyuvm pgdir sz = do
      d ← setupkvm
      if d == 0 then pure 0 else copy_loop (2 ^ 20 + 1) pgdir 0 sz d

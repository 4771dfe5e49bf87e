-- ===== src/Vm/Tests.antt =====
-- An empty page directory with one free page.
use os_2024_project_vm.Base.{ℕ, ◌≡◌, refl, Bool, true, false, [], ◌∷◌, ok, arith}
use os_2024_project_vm.Mmu.{pgsize, pgrounddown, v2p}
use os_2024_project_vm.Memory.{load}
use os_2024_project_vm.Kalloc.{Kmem}
use os_2024_project_vm.Kalloc.FreeList.{IsFree}
use os_2024_project_vm.Vm.Walk.{mappages}
use os_2024_project_vm.Vm.Tables.{pte_of, Space}
use os_2024_project_vm.Vm.Find.{Finds, walkpgdir-Finds}
use os_2024_project_vm.Vm.Pages.{Maps}
use os_2024_project_vm.Vm.Mapping.{Outcomes, mappages-Maps}

abbrev kernel_end : ℕ
kernel_end = 0x80110000

abbrev pgdir : ℕ
pgdir = 0x80200000

abbrev spare : ℕ
spare = 0x80201000

abbrev fresh : Kmem
fresh = record { mem = λ p i. 0; freelist = spare; use_lock = true; locked = false }

fresh-IsFree : IsFree kernel_end fresh (spare ∷ [])
unfolding load v2p
fresh-IsFree = record { unlocked = refl; chain = (refl, omega arith, refl, refl, refl) }

fresh-Space : Space fresh.mem pgdir (spare ∷ [])
unfolding load
fresh-Space = record {
  aligned = refl;
  dir_used = refl;
  table_used = λ d h pr. cc;
  table_ne_dir = λ d h pr. cc;
  table_ne_null = λ d h pr. cc;
  tables_apart = λ d e h g ne p q. cc;
}

fresh-Maps : Maps kernel_end pgdir fresh (spare ∷ []) (λ v. 0)
unfolding pte_of load
fresh-Maps = record { free = fresh-IsFree; space = fresh-Space; entries = λ v h. refl }

walkpgdir-Finds_example : Finds kernel_end pgdir 0x1000 true fresh (spare ∷ [])
walkpgdir-Finds_example =
    walkpgdir-Finds kernel_end pgdir 0x1000 true fresh (spare ∷ []) fresh-IsFree fresh-Space

mappages-Maps_example :
    (k' : Kmem) × (done : Bool) × (mappages pgdir 0x1000 pgsize 0x5000 6 fresh ≡ ok (done, k'))
    × Outcomes kernel_end pgdir (pgrounddown 0x1000) 0x5000 6 1 (λ v. 0) k' done
mappages-Maps_example =
    mappages-Maps kernel_end pgdir 0x1000 pgsize 0x5000 6 0 (λ v. 0) fresh (spare ∷ [])
      (omega arith) (omega arith) refl (omega arith) (λ v h g. refl) fresh-Maps

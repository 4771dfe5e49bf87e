-- ===== src/Mmu/Tests.antt =====
-- The address macros at concrete addresses.
use os_2024_project_vm.Base.{◌+◌, ◌≤◌, ◌<◌, ◌%◌, ◌≡◌, refl, arith}
use os_2024_project_vm.Mmu.{pgsize, pdx, ptx, pgaddr, pgroundup, pgrounddown}
use os_2024_project_vm.Mmu.Laws.{parts-pgaddr, pgroundup_least}

parts : (pdx 0x80123456 ≡ 0x200) × (ptx 0x80123456 ≡ 0x123) × (pgrounddown 0x80123456 ≡ 0x80123000)
unfolding pdx ptx pgrounddown
parts = (refl, refl, refl)

parts-pgaddr_example :
    (pdx (pgaddr 0x200 0x123 0x456) ≡ 0x200)
    × (ptx (pgaddr 0x200 0x123 0x456) ≡ 0x123)
    × (pgaddr 0x200 0x123 0x456 % pgsize ≡ 0x456)
parts-pgaddr_example = parts-pgaddr 0x200 0x123 0x456 (omega arith) (omega arith) (omega arith)

pgroundup_least_example :
    (4097 ≤ pgroundup 4097) × (pgroundup 4097 < 4097 + pgsize) × (pgroundup 4097 % pgsize ≡ 0)
pgroundup_least_example = pgroundup_least 4097 (omega arith)

-- ===== src/Kalloc/Tests.antt =====
-- The allocator at concrete memories: two free pages above a kernel that ends at 0x80110000.
use os_2024_project_vm.Base.{
  ℕ, ◌+◌, ◌≤◌, ◌≡◌, ◌↔◌, ◌%◌, refl, true, false, List, [], ◌∷◌, ok, arith, has, length, ◌>>◌, ◌==◌,
  if◌then◌else◌,
}
use os_2024_project_vm.Mmu.{pgsize, phystop, kernbase, v2p}
use os_2024_project_vm.Memory.{load}
use os_2024_project_vm.Kalloc.{Kmem, kinit1, kinit2}
use os_2024_project_vm.Kalloc.FreeList.{IsFree, kalloc_takes}
use os_2024_project_vm.Kalloc.Range.{boot_frees_all}
use os_2024_project_vm.Kalloc.History.{System, Inv, here, no_double_allocation}

abbrev kernel_end : ℕ
kernel_end = 0x80110000

abbrev low : ℕ
low = 0x80200000

abbrev high : ℕ
high = 0x80201000

-- the page `high` links to the page `low`, which ends the list
abbrev two_pages : Kmem
two_pages = record {
  mem = λ p i. if p == 0x80201 then low else 0;
  freelist = high;
  use_lock = true;
  locked = false;
}

two_pages-IsFree : IsFree kernel_end two_pages (high ∷ low ∷ [])
unfolding load v2p
two_pages-IsFree = record {
  unlocked = refl;
  chain = (refl, omega arith, refl, refl, (refl, omega arith, refl, refl, refl));
}

abbrev no_pages : Kmem
no_pages = record { mem = λ p i. 0; freelist = 0; use_lock = false; locked = false }

boot_frees_all_example :
    (k' : Kmem) × (qs : List ℕ) × ((kinit1 kernel_end kernel_end (kernbase + 4194304)
          >> kinit2 kernel_end (kernbase + 4194304) (kernbase + phystop))
        no_pages
      ≡ ok (tt, k'))
    × IsFree kernel_end k' qs
    × ((q : ℕ)
        → (has q qs ≡ true)
          ↔ ((q % pgsize ≡ 0) × (kernel_end ≤ q) × (q + pgsize ≤ kernbase + phystop)))
    × (k'.use_lock ≡ true)
boot_frees_all_example = boot_frees_all kernel_end no_pages refl (omega arith) (omega arith)

abbrev at_rest : System
at_rest = record { kmem = two_pages; owned = [] }

at_rest-Inv : Inv kernel_end at_rest (high ∷ low ∷ [])
at_rest-Inv = record {
  free = two_pages-IsFree;
  once = tt;
  apart = λ v h. cc;
  fine = λ v h. absurd (ground arith);
}

no_double_allocation_example :
    let k' = record two_pages { freelist = load two_pages.mem high } in
    (has high [] ≡ false)
    × ((qs : List ℕ) × Inv kernel_end (record { kmem = k'; owned = high ∷ [] }) qs
        × (length qs + 0 + 1 ≡ 2))
no_double_allocation_example =
    no_double_allocation kernel_end (high ∷ low ∷ []) high _ at_rest-Inv here
      ((kalloc_takes kernel_end two_pages high (low ∷ []) two_pages-IsFree).0) (omega arith)

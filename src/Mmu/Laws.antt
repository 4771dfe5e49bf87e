-- ===== src/Mmu/Laws.antt =====
-- How the parts of an address, the roundings and the entry macros fit together.
use os_2024_project_vm.Base.{ℕ, ◌+◌, ◌-◌, ◌*◌, ◌/◌, ◌%◌, ◌^◌, ◌≤◌, ◌<◌, ◌≡◌, arith, bit_or, ap}
use os_2024_project_vm.Base.Bits.{bit_or_disjoint, bit_or-one}
use os_2024_project_vm.Mmu.{
  uint, pgsize, pdx, ptx, pgaddr, pgroundup, pte_p, pte_addr, pte_flags, flag, phystop, kernbase,
  v2p, p2v,
}

-- With fields in range PGADDR is the sum of the shifted fields.
pub pgaddr_sum :
    (d t o : ℕ) → d < 1024 → t < 1024 → o < 4096 → pgaddr d t o ≡ d * 2 ^ 22 + t * 2 ^ 12 + o
unfolding pgaddr
pgaddr_sum d t o hd ht ho = rw (low, high, all) (omega arith)
  where
    low : uint (t * 2 ^ 12) ≡ t * 2 ^ 12
    low = omega arith

    high : bit_or (uint (d * 2 ^ 22)) (t * 2 ^ 12) ≡ (d * 1024 + t) * 2 ^ 12
    high = omega (
      arith,
      bit_or_disjoint 22 d (t * 2 ^ 12) (omega arith),
      ap (λ x. bit_or x (t * 2 ^ 12)) wide,
    )
      where
        wide : uint (d * 2 ^ 22) ≡ d * 2 ^ 22
        wide = omega arith

    all : bit_or ((d * 1024 + t) * 2 ^ 12) o ≡ (d * 1024 + t) * 2 ^ 12 + o
    all = bit_or_disjoint 12 (d * 1024 + t) o (omega arith)

-- Taking an address apart with PDX, PTX and the page offset and putting it together with PGADDR
-- gives the address back.
pub pgaddr_of_parts : (va : ℕ) → va < 2 ^ 32 → pgaddr (pdx va) (ptx va) (va % pgsize) ≡ va
unfolding pdx ptx
pgaddr_of_parts va h = omega (
  arith,
  pgaddr_sum (va / 2 ^ 22 % 1024) (va / 2 ^ 12 % 1024) (va % 4096) (omega arith) (omega arith)
      (omega arith),
)

-- And the other way round: the fields of a composed address are those that it was made of.
pub parts-pgaddr :
    (d t o : ℕ)
    → d < 1024
    → t < 1024
    → o < 4096
    → (pdx (pgaddr d t o) ≡ d) × (ptx (pgaddr d t o) ≡ t) × (pgaddr d t o % pgsize ≡ o)
unfolding pdx ptx
parts-pgaddr d t o hd ht ho = omega (arith, pgaddr_sum d t o hd ht ho)

-- Rounding up gives the least page boundary that is not below, if it fits into the word.
pub pgroundup_least :
    (sz : ℕ)
    → sz ≤ 2 ^ 32 - pgsize
    → (sz ≤ pgroundup sz) × (pgroundup sz < sz + pgsize) × (pgroundup sz % pgsize ≡ 0)
unfolding pgroundup
pgroundup_least sz h = omega arith

-- An entry made of an aligned address and flags gives both back, and is present.
pub pte_parts :
    (pa perm : ℕ)
    → pa % pgsize ≡ 0
    → perm < pgsize
    → let e = bit_or (bit_or pa perm) pte_p in
      (pte_addr e ≡ pa) × (pte_flags e ≡ bit_or perm pte_p) × (flag e pte_p ≡ 1)
unfolding pte_addr pte_flags
pte_parts pa perm ha hp = omega (arith, bit_or-one (bit_or pa perm), bit_or-one perm, joined)
  where
    joined : bit_or pa perm ≡ pa + perm
    joined =
        omega
          (arith, bit_or_disjoint 12 (pa / 4096) perm (omega arith), ap (λ x. bit_or x perm) whole)
      where
        whole : pa / 4096 * 2 ^ 12 ≡ pa
        whole = omega arith

-- On the pages of physical memory V2P and P2V undo each other, without wrapping.
pub v2p-p2v : (pa : ℕ) → pa < phystop → (v2p (p2v pa) ≡ pa) × (p2v pa ≡ pa + kernbase)
unfolding v2p p2v
v2p-p2v pa h = omega arith

pub p2v-v2p : (a : ℕ) → kernbase ≤ a → a < 2 ^ 32 → (p2v (v2p a) ≡ a) × (v2p a + kernbase ≡ a)
unfolding v2p p2v
p2v-v2p a h k = omega arith

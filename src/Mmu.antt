-- ===== src/Mmu.antt =====
-- mmu.h and memlayout.h: the parts of a linear address, page rounding, page-table entries, and the
-- kernel's fixed mapping of physical memory. A `uint` is a number below 2 ^ 32.
pub mod Laws
mod Tests
use os_2024_project_vm.Base.{ℕ, ◌+◌, ◌-◌, ◌*◌, ◌/◌, ◌%◌, ◌^◌, bit_or}

abbrev pub uint : ℕ → ℕ
uint n = n % 2 ^ 32

abbrev pub pgsize : ℕ
pgsize = 4096

abbrev pub npdentries : ℕ
npdentries = 1024

abbrev pub nptentries : ℕ
nptentries = 1024

-- `(va >> 22) & 0x3FF` and `(va >> 12) & 0x3FF`
unfoldable pub pdx : ℕ → ℕ
pdx va = va / 2 ^ 22 % 1024

unfoldable pub ptx : ℕ → ℕ
ptx va = va / 2 ^ 12 % 1024

-- `d << 22 | t << 12 | o`; `int` shifts drop what leaves the word.
unfoldable pub pgaddr : ℕ → ℕ → ℕ → ℕ
pgaddr d t o = uint (bit_or (bit_or (uint (d * 2 ^ 22)) (uint (t * 2 ^ 12))) o)

-- `(sz + PGSIZE - 1) & ~(PGSIZE - 1)`, where the sum wraps
unfoldable pub pgroundup : ℕ → ℕ
pgroundup sz = uint (sz + pgsize - 1) / pgsize * pgsize

unfoldable pub pgrounddown : ℕ → ℕ
pgrounddown a = a / pgsize * pgsize

-- The flags of an entry, as masks and as tests.
abbrev pub pte_p : ℕ
pte_p = 1

abbrev pub pte_w : ℕ
pte_w = 2

abbrev pub pte_u : ℕ
pte_u = 4

-- `e & flag` for a flag of one bit
abbrev pub flag : ℕ → ℕ → ℕ
flag e f = e / f % 2

unfoldable pub pte_addr : ℕ → ℕ
pte_addr e = e / 4096 * 4096

unfoldable pub pte_flags : ℕ → ℕ
pte_flags e = e % 4096

abbrev pub extmem : ℕ
extmem = 0x100000

abbrev pub phystop : ℕ
phystop = 0xE000000

abbrev pub devspace : ℕ
devspace = 0xFE000000

abbrev pub kernbase : ℕ
kernbase = 0x80000000

abbrev pub kernlink : ℕ
kernlink = kernbase + extmem

-- `uint` arithmetic: both wrap.
unfoldable pub v2p : ℕ → ℕ
v2p a = uint (a + 2 ^ 32 - kernbase)

unfoldable pub p2v : ℕ → ℕ
p2v a = uint (a + kernbase)

-- ===== src/Kalloc.antt =====
-- kalloc.c: the allocator of physical pages, a free list threaded through the free pages.
pub mod FreeList
pub mod Range
pub mod History
mod Tests
use os_2024_project_vm.Base.{
  ℕ, zero, suc, ◌+◌, ◌-◌, ◌*◌, ◌/◌, ◌%◌, ◌^◌, Bool, true, false, ◌||◌, not, M, Outcome, ok, panic,
  out_of_fuel, pure, stop, ◌>>=◌, ◌>>◌, get, put, ltb, leb, ◌==◌, if◌then◌else◌,
}
use os_2024_project_vm.Mmu.{uint, pgsize, phystop, pgroundup, v2p}
use os_2024_project_vm.Memory.{Memory, load, store, memset_page}

-- `kmem`, and the memory in which its list lives. `locked` is whether this CPU holds `kmem.lock`.
pub record Kmem : Type 0 where
  pub mem : Memory
  pub freelist : ℕ
  pub use_lock : Bool
  pub locked : Bool

-- `if(kmem.use_lock) acquire(&kmem.lock)`: to acquire a lock that is held is a panic.
unfoldable pub acquire_kmem : M Kmem (Unit {0})
acquire_kmem k =
    if k.use_lock
    then (if k.locked then panic "acquire" else ok (tt, record k { locked = true }))
    else ok (tt, k)

unfoldable pub release_kmem : M Kmem (Unit {0})
release_kmem k =
    if k.use_lock
    then (if k.locked then ok (tt, record k { locked = false }) else panic "release")
    else ok (tt, k)

-- `r->next = kmem.freelist; kmem.freelist = r;`
pub push_run : ℕ → M Kmem (Unit {0})
push_run r k = ok (tt, record k { mem = store k.mem r k.freelist; freelist = r })

-- `r = kmem.freelist; if(r) kmem.freelist = r->next;`
pub pop_run : M Kmem ℕ
pop_run k =
    ok (k.freelist, if k.freelist == 0 then k else record k { freelist = load k.mem k.freelist })

unfoldable pub kalloc : M Kmem ℕ
unfolding pop_run
kalloc = do acquire_kmem; r ← pop_run; release_kmem; pure r

pub junk : ℕ → M Kmem (Unit {0})
junk v k = ok (tt, record k { mem = memset_page k.mem v 1 })

-- `kernel_end` is `end`, the first address after the kernel, which the linker sets.
module _ (kernel_end : ℕ) where
  unfoldable pub kfree : ℕ → M Kmem (Unit {0})
  unfolding push_run junk
  kfree v k =
      if not (v % pgsize == 0) || ltb v kernel_end || leb phystop (v2p v)
      then panic "kfree"
      else (do junk v; acquire_kmem; push_run v; release_kmem) k

  -- The loop of freerange at `p`, for at most `rounds` pages; `p + PGSIZE` wraps.
  unfoldable pub freerange_loop : ℕ → ℕ → ℕ → M Kmem (Unit {0})
  freerange_loop zero p vend k = out_of_fuel
  freerange_loop (suc rounds) p vend k = elim (leb (uint (p + pgsize)) vend) [
    | true ↦ (kfree p >> freerange_loop rounds (uint (p + pgsize)) vend) k
    | false ↦ ok (tt, k)
  ]

  -- A word holds 2 ^ 20 page addresses.
  unfoldable pub freerange : ℕ → ℕ → M Kmem (Unit {0})
  freerange vstart vend = freerange_loop (2 ^ 20 + 1) (pgroundup vstart) vend

  -- initlock leaves the lock free.
  unfoldable pub kinit1 : ℕ → ℕ → M Kmem (Unit {0})
  unfolding freerange
  kinit1 vstart vend k = freerange vstart vend (record k { locked = false; use_lock = false })

  unfoldable pub kinit2 : ℕ → ℕ → M Kmem (Unit {0})
  unfolding freerange
  kinit2 vstart vend = do freerange vstart vend; (λ k. ok (tt, record k { use_lock = true }))

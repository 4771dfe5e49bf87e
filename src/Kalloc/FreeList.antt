-- ===== src/Kalloc/FreeList.antt =====
-- The free list as a list of distinct pages, and what kalloc and kfree do to it.
use os_2024_project_vm.Base.{
  ℕ, ◌+◌, ◌%◌, ◌^◌, ◌≤◌, ◌<◌, ◌≡◌, ◌≢◌, refl, inl, inr, ◌∙◌, Bool, true, false, ◌||◌, not, List, [],
  ◌∷◌, ok, panic, arith, has, ltb, leb, ◌==◌, if◌then◌else◌, Bool-cases, ◌>>=◌, ◌>>◌,
}
use os_2024_project_vm.Mmu.{pgsize, kernbase, phystop, v2p}
use os_2024_project_vm.Memory.{
  Memory, page, load, store, memset_page, store_other, load-store_self, memset_other,
}
use os_2024_project_vm.Kalloc.{Kmem, acquire_kmem, release_kmem, kalloc, kfree}

-- Taking the lock and giving it back, at the two ends of a critical section.
pub acquire_kmem_free :
    (k : Kmem) → k.locked ≡ false → acquire_kmem k ≡ ok (tt, record k { locked = k.use_lock })
unfolding acquire_kmem
acquire_kmem_free k h = ground arith

pub release_kmem_held :
    (k : Kmem) → k.locked ≡ k.use_lock → release_kmem k ≡ ok (tt, record k { locked = false })
unfolding release_kmem
release_kmem_held k h = ground arith

same_lock : (k : Kmem) → k.locked ≡ false → record k { locked = false } ≡ k
same_lock k h = ground arith

after_pop : Kmem → Kmem
after_pop k = if k.freelist == 0 then k else record k { freelist = load k.mem k.freelist }

kalloc_runs : (k : Kmem) → k.locked ≡ false → kalloc k ≡ ok (k.freelist, after_pop k)
unfolding kalloc after_pop
kalloc_runs k h = elim (Bool-cases (k.freelist == 0)) [
  | inl e ↦
      rw (acquire_kmem_free k h, ◌>>◌, ◌>>=◌, e)
        (rw (release_kmem_held (record k { locked = k.use_lock }) refl) (ground arith))
  | inr e ↦
      rw (acquire_kmem_free k h, ◌>>◌, ◌>>=◌, e)
        (rw
          (release_kmem_held (record k { locked = k.use_lock; freelist = load k.mem k.freelist })
            refl)
          (ground arith))
]

-- Two different pages have different numbers.
pub aligned_page_ne : (a b : ℕ) → a % pgsize ≡ 0 → b % pgsize ≡ 0 → a ≢ b → page a ≢ page b
aligned_page_ne a b ha hb ne e = ne (omega arith)

-- A pointer that is not null.
abbrev pub IsAddress : ℕ → Type 0
IsAddress a = (a ≢ 0) × (a < 2 ^ 32)

module _ (kernel_end : ℕ) where
  -- what kfree accepts: an aligned page of physical memory above the kernel
  abbrev pub refused : ℕ → Bool
  refused v = not (v % pgsize == 0) || ltb v kernel_end || leb phystop (v2p v)

  -- The pages between the end of the kernel and PHYSTOP are acceptable.
  pub accepted :
      (p : ℕ)
      → p % pgsize ≡ 0
      → kernel_end ≤ p
      → kernbase ≤ p
      → p < kernbase + phystop
      → refused p ≡ false
  unfolding v2p
  accepted p al above lo hi = ground arith

  -- From `p` the first words of the pages `ps`, all distinct and acceptable to kfree, lead to 0.
  abbrev pub Chain : Memory → ℕ → List ℕ → Type 0
  Chain m p [] = p ≡ 0
  Chain m p (x ∷ xs) =
      (p ≡ x) × IsAddress x × (refused x ≡ false) × (has x xs ≡ false) × Chain m (load m x) xs

  -- The allocator at rest: its lock is free and its list holds the pages `ps`.
  pub record IsFree (k : Kmem) (ps : List ℕ) : Type 0 where
    pub unlocked : k.locked ≡ false
    pub chain : Chain k.mem k.freelist ps

  pub refused-aligned : (v : ℕ) → refused v ≡ false → v % pgsize ≡ 0
  refused-aligned v h = ground arith

  -- A chain reads only the pages that it runs through.
  pub Chain-frame :
      (m n : Memory) (p v : ℕ) (ps : List ℕ)
      → ((q : ℕ) → page v ≢ q → n q ≡ m q)
      → v % pgsize ≡ 0
      → has v ps ≡ false
      → Chain m p ps
      → Chain n p ps
  unfolding load
  Chain-frame m n p v [] same hv out c = c
  Chain-frame m n p v (x ∷ xs) same hv out (e, nz, fine, new, rest) =
      (e, nz, fine, new, rw same_word (Chain-frame m n (load m x) v xs same hv (ground arith) rest))
    where
      same_word : load n x ≡ load m x
      same_word = ground (arith, same (page x), aligned_page_ne v x hv (refused-aligned x fine))

  -- kalloc on an empty list returns 0 and changes nothing.
  pub kalloc_empty : (k : Kmem) → IsFree k [] → kalloc k ≡ ok (0, k)
  unfolding after_pop
  kalloc_empty k f = ground (arith, kalloc_runs k f.unlocked)

  -- kalloc hands out the page on top, takes it off the list, and writes no memory.
  pub kalloc_takes :
      (k : Kmem) (p : ℕ) (ps : List ℕ)
      → IsFree k (p ∷ ps)
      → let k' = record k { freelist = load k.mem p } in (kalloc k ≡ ok (p, k')) × IsFree k' ps
  unfolding after_pop
  kalloc_takes k p ps f = (
    ground (arith, kalloc_runs k f.unlocked),
    record { unlocked = f.unlocked; chain = f.chain.4 },
  )

  -- the state after an accepted kfree
  abbrev pub freed : ℕ → Kmem → Kmem
  freed v k = record k { mem = store (memset_page k.mem v 1) v k.freelist; freelist = v }

  freed_other : (k : Kmem) (v q : ℕ) → page v ≢ q → (freed v k).mem q ≡ k.mem q
  freed_other k v q h =
      store_other (memset_page k.mem v 1) v k.freelist q h ∙ memset_other k.mem v 1 q h

  freed-IsFree :
      (k : Kmem) (v : ℕ) (ps : List ℕ)
      → refused v ≡ false
      → IsAddress v
      → has v ps ≡ false
      → IsFree k ps
      → IsFree (freed v k) (v ∷ ps)
  freed-IsFree k v ps fine nz new f = record {
    unlocked = f.unlocked;
    chain = (
      refl,
      nz,
      fine,
      new,
      rw (load-store_self (memset_page k.mem v 1) v k.freelist) (
          Chain-frame k.mem (freed v k).mem k.freelist v ps (freed_other k v)
            (refused-aligned v fine) new f.chain),
    );
  }

  -- kfree of an acceptable page that is not free puts it on top, and writes only into that page.
  pub kfree_gives :
      (k : Kmem) (v : ℕ) (ps : List ℕ)
      → refused v ≡ false
      → IsAddress v
      → has v ps ≡ false
      → IsFree k ps
      → (kfree kernel_end v k ≡ ok (tt, freed v k))
        × IsFree (freed v k) (v ∷ ps)
        × ((q : ℕ) → page v ≢ q → (freed v k).mem q ≡ k.mem q)
  unfolding kfree
  kfree_gives k v ps fine nz new f = (
    rw (fine, acquire_kmem_free (record k { mem = memset_page k.mem v 1 }) f.unlocked, ◌>>◌, ◌>>=◌)
        (rw (release_kmem_held (record (freed v k) { locked = k.use_lock }) refl) (ground arith)),
    freed-IsFree k v ps fine nz new f,
    freed_other k v,
  )

  -- kfree panics on an unaligned address, on one below the end of the kernel, and beyond PHYSTOP.
  pub kfree_refuses : (k : Kmem) (v : ℕ) → refused v ≡ true → kfree kernel_end v k ≡ panic "kfree"
  unfolding kfree
  kfree_refuses k v bad = rw bad

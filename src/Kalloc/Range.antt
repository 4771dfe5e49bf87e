-- ===== src/Kalloc/Range.antt =====
-- freerange, kinit1 and kinit2: the pages of a range, each freed once.
use os_2024_project_vm.Base.{
  ℕ, zero, suc, ◌+◌, ◌-◌, ◌*◌, ◌/◌, ◌%◌, ◌^◌, ◌≤◌, ◌<◌, ◌≡◌, ◌↔◌, ◌⊎◌, refl, true, false, List, [],
  ◌∷◌, ok, arith, has, leb, ◌>>◌, ◌>>=◌, >>-ok,
}
use os_2024_project_vm.Mmu.{uint, pgsize, kernbase, phystop, pgroundup}
use os_2024_project_vm.Mmu.Laws.{pgroundup_least}
use os_2024_project_vm.Kalloc.{Kmem, freerange_loop, freerange, kinit1, kinit2}
use os_2024_project_vm.Kalloc.FreeList.{IsFree, freed, accepted, kfree_gives}

-- `n` pages from `p` on, pushed one after the other
abbrev pushed : ℕ → ℕ → List ℕ → List ℕ
pushed zero p ps = ps
pushed (suc n) p ps = pushed n (p + pgsize) (p ∷ ps)

-- Which pages those are.
has-pushed :
    (n p q : ℕ) (ps : List ℕ)
    → p % pgsize ≡ 0
    → (has q (pushed n p ps) ≡ true)
      ↔ (((q % pgsize ≡ 0) × (p ≤ q) × (q < p + n * pgsize)) ⊎ (has q ps ≡ true))
has-pushed zero p q ps h = ground arith
has-pushed (suc n) p q ps h = ground (arith, has-pushed n (p + pgsize) q (p ∷ ps))

module _ (kernel_end : ℕ) where
  -- The loop frees the pages one after the other and stops where the next would not fit.
  freerange_loop_frees :
      (n rounds p vend : ℕ) (k : Kmem) (ps : List ℕ)
      → n < rounds
      → p % pgsize ≡ 0
      → kernbase ≤ p
      → kernel_end ≤ p
      → p < kernbase + phystop + pgsize
      → n ≡ (vend - p) / pgsize
      → vend ≤ kernbase + phystop
      → ((q : ℕ) → p ≤ q → has q ps ≡ false)
      → IsFree kernel_end k ps
      → (k' : Kmem) × (freerange_loop kernel_end rounds p vend k ≡ ok (tt, k'))
        × IsFree kernel_end k' (pushed n p ps)
        × (k'.use_lock ≡ k.use_lock)
  unfolding freerange_loop
  freerange_loop_frees n zero p vend k ps enough _ _ _ _ _ _ _ _ = absurd (omega arith)
  freerange_loop_frees zero (suc rounds) p vend k ps enough al lo above near count top new f =
      (k, rw (stays, freerange_loop), f, refl)
    where
      stays : leb (uint (p + pgsize)) vend ≡ false
      stays = ground arith
  freerange_loop_frees (suc n) (suc rounds) p vend k ps enough al lo above near count top new f =
      let (runs, f', _) =
        kfree_gives kernel_end k p ps (accepted kernel_end p al above lo (omega arith))
          (omega arith) (new p (omega arith)) f in
      let (k', r, f'', u) =
        freerange_loop_frees n rounds (p + pgsize) vend (freed kernel_end p k) (p ∷ ps)
          (omega arith) (omega arith) (omega arith) (omega arith) (omega arith) (omega arith) top
          (λ q h. ground (arith, new q)) f' in
      (k', rw (goes, freerange_loop) (rw (>>-ok _ _ _ _ runs, no_wrap) r), f'', u)
    where
      no_wrap : uint (p + pgsize) ≡ p + pgsize
      no_wrap = omega arith

      goes : leb (uint (p + pgsize)) vend ≡ true
      goes = ground arith

  -- freerange frees exactly the pages that lie whole between the two addresses.
  pub freerange_frees :
      (vstart vend : ℕ) (k : Kmem) (ps : List ℕ)
      → kernbase ≤ vstart
      → kernel_end ≤ vstart
      → vstart ≤ vend
      → vend ≤ kernbase + phystop
      → ((q : ℕ) → vstart ≤ q → has q ps ≡ false)
      → IsFree kernel_end k ps
      → (k' : Kmem) × (qs : List ℕ) × (freerange kernel_end vstart vend k ≡ ok (tt, k'))
        × IsFree kernel_end k' qs
        × ((q : ℕ)
            → (has q qs ≡ true)
              ↔ (((q % pgsize ≡ 0) × (vstart ≤ q) × (q + pgsize ≤ vend)) ⊎ (has q ps ≡ true)))
        × (k'.use_lock ≡ k.use_lock)
  unfolding freerange
  freerange_frees vstart vend k ps lo above le top new f =
      let first = pgroundup_least vstart (omega arith) in
      let p : ℕ = pgroundup vstart in
      let n : ℕ = (vend - p) / pgsize in
      let (k', r, f', u) =
        freerange_loop_frees n (2 ^ 20 + 1) p vend k ps (omega arith) (first.2) (omega arith)
          (omega arith) (omega arith) refl top (λ q h. new q (omega arith)) f in
      (k', pushed n p ps, r, f', λ q. ground (arith, has-pushed n p q ps), u)

  -- The two calls of main, kinit1(end, P2V(4 MB)) and kinit2(P2V(4 MB), P2V(PHYSTOP)), leave
  -- every whole page between the end of the kernel and PHYSTOP on the list, and nothing else, each
  -- once; from then on the lock is used.
  pub boot_frees_all :
      (k : Kmem)
      → k.freelist ≡ 0
      → kernbase ≤ kernel_end
      → kernel_end ≤ kernbase + 4194304
      → (k' : Kmem) × (qs : List ℕ) × ((kinit1 kernel_end kernel_end (kernbase + 4194304)
              >> kinit2 kernel_end (kernbase + 4194304) (kernbase + phystop))
            k
          ≡ ok (tt, k'))
        × IsFree kernel_end k' qs
        × ((q : ℕ)
            → (has q qs ≡ true)
              ↔ ((q % pgsize ≡ 0) × (kernel_end ≤ q) × (q + pgsize ≤ kernbase + phystop)))
        × (k'.use_lock ≡ true)
  unfolding kinit1 kinit2
  boot_frees_all k empty lo hi =
      let boundary : ℕ = kernbase + 4194304 in
      let (k₁, ps, r₁, f₁, in₁, _) =
        freerange_frees kernel_end boundary (record k { locked = false; use_lock = false }) [] lo
          (omega arith) hi (omega arith) (λ q h. refl)
          (record { unlocked = refl; chain = empty }) in
      let (k₂, qs, r₂, f₂, in₂, _) =
        freerange_frees boundary (kernbase + phystop) k₁ ps (omega arith) hi (omega arith)
          (omega arith) (λ q h. ground (arith, in₁ q)) f₁ in
      (
        record k₂ { use_lock = true },
        qs,
        rw (r₁, ◌>>◌, ◌>>=◌) (rw (r₂, ◌>>◌, ◌>>=◌) refl),
        record { unlocked = f₂.unlocked; chain = f₂.chain },
        λ q. ground (arith, in₁ q, in₂ q),
        refl,
      )

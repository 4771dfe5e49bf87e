-- ===== src/Kalloc/History.antt =====
-- Clients of the allocator: they take pages, write into the pages that they hold, and give them back.
use mathlib.Core.Path.{subst}
use os_2024_project_vm.Base.{
  ℕ, ◌+◌, ◌≡◌, ◌≢◌, refl, true, false, List, [], ◌∷◌, ok, arith, has, Distinct, length, ◌==◌,
  if◌then◌else◌,
}
use os_2024_project_vm.Memory.{update, page, load}
use os_2024_project_vm.Kalloc.{Kmem, kalloc, kfree}
use os_2024_project_vm.Kalloc.FreeList.{
  IsAddress, refused, Chain-frame, IsFree, freed, kalloc_takes, kalloc_empty, kfree_gives,
  refused-aligned,
}

-- the list without a page
abbrev pub without : ℕ → List ℕ → List ℕ
without v [] = []
without v (x ∷ xs) = if x == v then xs else x ∷ without v xs

pub record System : Type 0 where
  pub kmem : Kmem
  pub owned : List ℕ

module _ (kernel_end : ℕ) where
  -- One call of kalloc or kfree, or one write by the holder of a page.
  pub data Step (s : System) : System → Type 0 where
    allocate :
        (p : ℕ) (k : Kmem)
        → kalloc s.kmem ≡ ok (p, k)
        → p ≢ 0
        → Step s (record { kmem = k; owned = p ∷ s.owned })
    give_back :
        (v : ℕ) (k : Kmem)
        → has v s.owned ≡ true
        → kfree kernel_end v s.kmem ≡ ok (tt, k)
        → Step s (record { kmem = k; owned = without v s.owned })
    scribble :
        (v : ℕ) (words : ℕ → ℕ)
        → has v s.owned ≡ true
        → Step s (record {
          kmem = record (s.kmem) { mem = update s.kmem.mem (page v) words };
          owned = s.owned;
        })

  pub data Reach (s : System) : System → Type 0 where
    here : Reach s s
    next : {t u : System} → Reach s t → Step t u → Reach s u

  -- The free pages `ps` and the held pages are distinct, and every held page came from the list.
  pub record Inv (s : System) (ps : List ℕ) : Type 0 where
    pub free : IsFree kernel_end s.kmem ps
    pub once : Distinct s.owned
    pub apart : (v : ℕ) → has v s.owned ≡ true → has v ps ≡ false
    pub fine : (v : ℕ) → has v s.owned ≡ true → (refused kernel_end v ≡ false) × IsAddress v

  has-without : (v q : ℕ) (xs : List ℕ) → has q (without v xs) ≡ true → has q xs ≡ true
  has-without v q [] h = h
  has-without v q (x ∷ xs) h = ground (arith, has-without v q xs)

  has-without_self : (v : ℕ) (xs : List ℕ) → Distinct xs → has v (without v xs) ≡ false
  has-without_self v [] d = refl
  has-without_self v (x ∷ xs) d = ground (arith, has-without_self v xs)

  without-Distinct : (v : ℕ) (xs : List ℕ) → Distinct xs → Distinct (without v xs)
  without-Distinct v [] d = d
  without-Distinct v (x ∷ xs) d = ground (arith, without-Distinct v xs d.1, has-without v x xs)

  length-without : (v : ℕ) (xs : List ℕ) → has v xs ≡ true → length (without v xs) + 1 ≡ length xs
  length-without v [] h = cc
  length-without v (x ∷ xs) h = ground (arith, length-without v xs)

  abbrev Kept : System → System → List ℕ → Type 0
  Kept s t ps = (qs : List ℕ) × Inv t qs × (length qs + length t.owned ≡ length ps + length s.owned)

  allocate-Kept :
      (s : System) (p : ℕ) (k : Kmem) (ps : List ℕ)
      → kalloc s.kmem ≡ ok (p, k)
      → p ≢ 0
      → Inv s ps
      → (has p s.owned ≡ false) × Kept s (record { kmem = k; owned = p ∷ s.owned }) ps
  allocate-Kept s p k [] e nz i =
      absurd (nz (ground (arith, kalloc_empty kernel_end s.kmem i.free)))
  allocate-Kept s p k (x ∷ ps) e nz i =
      let (r, f) = kalloc_takes kernel_end s.kmem x ps i.free in
      let same_p : x ≡ p = cc (e, r) in
      let same_k : record (s.kmem) { freelist = load s.kmem.mem x } ≡ k = cc (e, r) in
      let fresh : has p s.owned ≡ false = ground (arith, i.apart p) in
      (
        fresh,
        (
          ps,
          record {
            free = subst (λ z. IsFree kernel_end z ps) same_k f;
            once = (fresh, i.once);
            apart = λ v h. ground (arith, i.apart v, i.free.chain);
            fine = λ v h. ground (arith, i.fine v, i.free.chain);
          },
          omega arith,
        ),
      )

  -- Every step keeps the invariant and the number of pages.
  Step-Kept : {s t : System} (ps : List ℕ) → Step s t → Inv s ps → Kept s t ps
  Step-Kept ps (allocate p k e nz) i = (allocate-Kept _ p k ps e nz i).1
  Step-Kept {s} ps (give_back v k h e) i =
      let (r, f, _) =
        kfree_gives kernel_end s.kmem v ps (i.fine v h).0 (i.fine v h).1 (i.apart v h) i.free in
      let same_k : freed kernel_end v s.kmem ≡ k = cc (e, r) in
      (
        v ∷ ps,
        record {
          free = subst (λ z. IsFree kernel_end z (v ∷ ps)) same_k f;
          once = without-Distinct v s.owned i.once;
          apart = λ q m.
              ground (arith, i.apart q, has-without v q s.owned, has-without_self v s.owned i.once);
          fine = λ q m. i.fine q (has-without v q s.owned m);
        },
        omega (arith, length-without v s.owned h),
      )
  Step-Kept {s} ps (scribble v words h) i = (
    ps,
    record {
      free = record {
        unlocked = i.free.unlocked;
        chain =
            Chain-frame kernel_end s.kmem.mem _ s.kmem.freelist v ps (λ q ne. ground arith)
              (refused-aligned kernel_end v (i.fine v h).0) (i.apart v h) i.free.chain;
      };
      once = i.once;
      apart = i.apart;
      fine = i.fine;
    },
    refl,
  )

  Reach-Kept : {s t : System} (ps : List ℕ) → Reach s t → Inv s ps → Kept s t ps
  Reach-Kept ps here i = (ps, i, refl)
  Reach-Kept ps (next r st) i =
      let (qs, j, n) = Reach-Kept ps r i in
      let (rs, l, m) = Step-Kept qs st j in (rs, l, omega (arith, n, m))

  -- Whatever clients do with the pages that they hold, kalloc never hands out a page that somebody
  -- holds, the free list stays intact, and free and held pages keep their number.
  pub no_double_allocation :
      {s t : System} (ps : List ℕ) (p : ℕ) (k : Kmem)
      → Inv s ps
      → Reach s t
      → kalloc t.kmem ≡ ok (p, k)
      → p ≢ 0
      → (has p t.owned ≡ false)
        × ((qs : List ℕ) × Inv (record { kmem = k; owned = p ∷ t.owned }) qs
            × (length qs + length t.owned + 1 ≡ length ps + length s.owned))
  no_double_allocation {t} ps p k i r e nz =
      let (qs, j, n) = Reach-Kept ps r i in
      let (fresh, kept) = allocate-Kept t p k qs e nz j in
      let (rs, l, m) = kept in (fresh, (rs, l, omega (arith, n, m)))

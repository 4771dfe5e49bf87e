-- ===== src/Vm/Find.antt =====
-- walkpgdir finds the entry of every address, with or without a table for it.
use os_2024_project_vm.Base.{
  ℕ, ◌+◌, ◌*◌, ◌≡◌, ◌≢◌, ◌⊎◌, refl, ◌∙◌, inl, inr, Bool, true, false, List, [], ◌∷◌, ok, arith,
  Bool-cases, ◌>>=◌,
}
use os_2024_project_vm.Mmu.{pdx, ptx}
use os_2024_project_vm.Memory.{load}
use os_2024_project_vm.Kalloc.{Kmem}
use os_2024_project_vm.Kalloc.FreeList.{IsFree, kalloc_empty}
use os_2024_project_vm.Vm.Walk.{walkpgdir, new_table}
use os_2024_project_vm.Vm.Tables.{
  table, present, pte_of, Space, pdx-lt, walkpgdir-present, walkpgdir_absent, walkpgdir_creates,
}

-- No entry: there is no table and none may or can be made, and nothing changes.
abbrev pub NoEntry : ℕ → ℕ → Bool → Kmem → List ℕ → ℕ → Kmem → List ℕ → Type 0
NoEntry pgdir va alloc k ps a k' qs =
    (a ≡ 0)
    × (present k.mem pgdir (pdx va) ≡ false)
    × ((alloc ≡ false) ⊎ (ps ≡ []))
    × (k' ≡ k)
    × (qs ≡ ps)

-- `a` is the place of the entry of `va` in the table, which was there or was made from the first free page.
abbrev pub Entry : ℕ → ℕ → Bool → Kmem → List ℕ → ℕ → Kmem → List ℕ → Type 0
Entry pgdir va alloc k ps a k' qs =
    (a ≢ 0)
    × (present k'.mem pgdir (pdx va) ≡ true)
    × (a ≡ table k'.mem pgdir (pdx va) + 4 * ptx va)
    × (load k'.mem a ≡ pte_of k.mem pgdir va)
    × (((present k.mem pgdir (pdx va) ≡ true) × (k' ≡ k) × (qs ≡ ps))
        ⊎ ((present k.mem pgdir (pdx va) ≡ false)
            × (alloc ≡ true)
            × (ps ≡ table k'.mem pgdir (pdx va) ∷ qs)))

module _ (kernel_end : ℕ) where
  abbrev pub Finds : ℕ → ℕ → Bool → Kmem → List ℕ → Type 0
  Finds pgdir va alloc k ps =
      (a : ℕ) × (k' : Kmem) × (qs : List ℕ) × (walkpgdir pgdir va alloc k ≡ ok (a, k'))
      × IsFree kernel_end k' qs
      × Space k'.mem pgdir qs
      × ((v : ℕ) → pte_of k'.mem pgdir v ≡ pte_of k.mem pgdir v)
      × (NoEntry pgdir va alloc k ps a k' qs ⊎ Entry pgdir va alloc k ps a k' qs)

  entry_at :
      (k : Kmem) (pgdir va : ℕ)
      → present k.mem pgdir (pdx va) ≡ true
      → load k.mem (table k.mem pgdir (pdx va) + 4 * ptx va) ≡ pte_of k.mem pgdir va
  unfolding pte_of
  entry_at k pgdir va pr = rw pr refl

  not_null :
      (k : Kmem) (pgdir va : ℕ) (qs : List ℕ)
      → Space k.mem pgdir qs
      → present k.mem pgdir (pdx va) ≡ true
      → table k.mem pgdir (pdx va) + 4 * ptx va ≢ 0
  not_null k pgdir va qs sp pr = ground (arith, sp.table_ne_null (pdx va) (pdx-lt va) pr)

  nothing_free :
      (k : Kmem) (pgdir va : ℕ)
      → IsFree kernel_end k []
      → present k.mem pgdir (pdx va) ≡ false
      → walkpgdir pgdir va true k ≡ ok (0, k)
  unfolding walkpgdir new_table
  nothing_free k pgdir va f absent = rw (absent, kalloc_empty kernel_end k f, ◌>>=◌) refl

  makes_table :
      (k : Kmem) (pgdir va : ℕ) (ps : List ℕ)
      → IsFree kernel_end k ps
      → Space k.mem pgdir ps
      → present k.mem pgdir (pdx va) ≡ false
      → Finds pgdir va true k ps
  makes_table k pgdir va [] f sp absent = (
    0,
    k,
    [],
    nothing_free k pgdir va f absent,
    f,
    sp,
    λ v. refl,
    inl (refl, absent, inr refl, refl, refl),
  )
  makes_table k pgdir va (p ∷ qs) f sp absent =
      let (k', run, free, space, pr, here, same) =
        walkpgdir_creates kernel_end k pgdir va p qs f sp absent in
      (
        table k'.mem pgdir (pdx va) + 4 * ptx va,
        k',
        qs,
        rw here run,
        free,
        space,
        same,
        inr (
          not_null k' pgdir va qs space pr,
          pr,
          refl,
          entry_at k' pgdir va pr ∙ same va,
          inr (absent, refl, rw here refl),
        ),
      )

  -- walkpgdir in an address space in order, for any address and either `alloc`: the free list and the address
  -- space stay in order, and no address changes its entry. It returns 0 and changes nothing if there is no table
  -- for the address and it may make none or no page is free; else it returns the place, not 0, that holds the
  -- entry of the address in its table: of a table that is there nothing changes, and one that is missing is
  -- made from the first free page, which it takes off the list.
  pub walkpgdir-Finds :
      (pgdir va : ℕ) (alloc : Bool) (k : Kmem) (ps : List ℕ)
      → IsFree kernel_end k ps
      → Space k.mem pgdir ps
      → Finds pgdir va alloc k ps
  walkpgdir-Finds pgdir va alloc k ps f sp = elim (Bool-cases (present k.mem pgdir (pdx va))) [
    | inl pr ↦ (
      table k.mem pgdir (pdx va) + 4 * ptx va,
      k,
      ps,
      walkpgdir-present k pgdir va alloc pr,
      f,
      sp,
      λ v. refl,
      inr (not_null k pgdir va ps sp pr, pr, refl, entry_at k pgdir va pr, inl (pr, refl, refl)),
    )
    | inr absent ↦ by_alloc alloc absent
  ]
    where
      by_alloc : (alloc : Bool) → present k.mem pgdir (pdx va) ≡ false → Finds pgdir va alloc k ps
      by_alloc true absent = makes_table k pgdir va ps f sp absent
      by_alloc false absent = (
        0,
        k,
        ps,
        walkpgdir_absent k pgdir va absent,
        f,
        sp,
        λ v. refl,
        inl (refl, absent, inl refl, refl, refl),
      )

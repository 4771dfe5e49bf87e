-- ===== src/Vm/Pages.antt =====
-- vm.c: one page that mappages maps.
use os_2024_project_vm.Base.{
  ℕ, ◌+◌, ◌*◌, ◌/◌, ◌^◌, ◌≤◌, ◌<◌, length, ◌≡◌, refl, ◌∙◌, inl, inr, Bool, true, false, bit_or,
  List, [], ◌∷◌, ok, arith, ◌==◌, if◌then◌else◌, Bool-cases, ◌>>=◌,
}
use os_2024_project_vm.Mmu.{pdx, ptx, pte_p, flag}
use os_2024_project_vm.Memory.{load}
use os_2024_project_vm.Kalloc.{Kmem}
use os_2024_project_vm.Kalloc.FreeList.{IsFree, kalloc_empty}
use os_2024_project_vm.Vm.Walk.{read, new_table, walkpgdir, map_page}
use os_2024_project_vm.Vm.Tables.{
  table, present, pte_of, Space, pdx-lt, walkpgdir-present, walkpgdir_creates,
}
use os_2024_project_vm.Vm.Entries.{written, written-Space, written-Chain, written-pte_of}

-- the entries with the page of `a` mapped
abbrev pub with_page : ℕ → ℕ → ℕ → (ℕ → ℕ) → ℕ → ℕ
with_page a pa perm entry v =
    if v / 4096 == a / 4096 then bit_or (bit_or pa perm) pte_p else entry v

module _ (kernel_end : ℕ) where
  -- The address space at `pgdir` is in order, and maps as `entry` says; `qs` are the free pages.
  pub record Maps (pgdir : ℕ) (k : Kmem) (qs : List ℕ) (entry : ℕ → ℕ) : Type 0 where
    pub free : IsFree kernel_end k qs
    pub space : Space k.mem pgdir qs
    pub entries : (v : ℕ) → v < 2 ^ 32 → pte_of k.mem pgdir v ≡ entry v

  module _ (pgdir a pa perm : ℕ) (ha : a < 2 ^ 32) (entry : ℕ → ℕ) where
    -- What map_page does once walkpgdir has found the entry, at the state `k₁`.
    enter_page :
        (k k₁ : Kmem) (qs : List ℕ)
        → present k₁.mem pgdir (pdx a) ≡ true
        → walkpgdir pgdir a true k ≡ ok (table k₁.mem pgdir (pdx a) + 4 * ptx a, k₁)
        → Maps pgdir k₁ qs entry
        → flag (entry a) pte_p ≡ 0
        → (k' : Kmem) × (map_page pgdir a pa perm k ≡ ok (true, k'))
          × Maps pgdir k' qs (with_page a pa perm entry)
    unfolding map_page read written pte_of
    enter_page k k₁ qs pr walk m vacant =
        let slot : ℕ = table k₁.mem pgdir (pdx a) + 4 * ptx a in
        let new : ℕ = bit_or (bit_or pa perm) pte_p in
        let k' : Kmem = record k₁ { mem = written k₁.mem pgdir a new qs m.space pr } in
        (
          k',
          rw (walk, ◌>>=◌, not_null) (rw unmapped refl),
          record {
            free = record {
              unlocked = m.free.unlocked;
              chain =
                  written-Chain k₁.mem pgdir a new qs m.space pr kernel_end k₁.freelist
                    m.free.chain;
            };
            space = written-Space k₁.mem pgdir a new qs m.space pr;
            entries = λ v hv.
                written-pte_of k₁.mem pgdir a new qs m.space pr v hv ha
                ∙ ground (arith, m.entries v hv);
          },
        )
      where
        not_null : (table k₁.mem pgdir (pdx a) + 4 * ptx a == 0) ≡ false
        not_null = ground (arith, m.space.table_ne_null (pdx a) (pdx-lt a) pr)

        unmapped : (flag (load k₁.mem (table k₁.mem pgdir (pdx a) + 4 * ptx a)) pte_p == 1) ≡ false
        unmapped = ground (arith, m.entries a ha, pr)

    without_table :
        (k : Kmem) (ps : List ℕ)
        → present k.mem pgdir (pdx a) ≡ false
        → Maps pgdir k ps entry
        → flag (entry a) pte_p ≡ 0
        → (k' : Kmem) × (qs : List ℕ) × (done : Bool) × (map_page pgdir a pa perm k ≡ ok (done, k'))
          × Maps pgdir k' qs (if done then with_page a pa perm entry else entry)
          × (done ≡ false → (k' ≡ k) × (ps ≡ []))
          × (length qs ≤ length ps)
    unfolding map_page walkpgdir new_table
    without_table k [] absent m vacant = (
      k,
      [],
      false,
      rw (absent, kalloc_empty kernel_end k m.free, ◌>>=◌) refl,
      m,
      λ e. (refl, refl),
      omega arith,
    )
    without_table k (p ∷ ps) absent m vacant =
        let (k₁, walk, free, space, pr, names, same) =
          walkpgdir_creates kernel_end k pgdir a p ps m.free m.space absent in
        let (k', r, m') =
          enter_page k k₁ ps pr (rw names walk)
            (record { free = free; space = space; entries = λ v hv. same v ∙ m.entries v hv })
            vacant in
        (k', ps, true, r, m', λ e. cc, omega arith)

    -- map_page maps one page that is not mapped, taking a page for the table if there is none; if
    -- there is no free page for it either, it fails and changes nothing.
    pub map_page_lem :
        (k : Kmem) (ps : List ℕ)
        → Maps pgdir k ps entry
        → flag (entry a) pte_p ≡ 0
        → (k' : Kmem) × (qs : List ℕ) × (done : Bool) × (map_page pgdir a pa perm k ≡ ok (done, k'))
          × Maps pgdir k' qs (if done then with_page a pa perm entry else entry)
          × (done ≡ false → (k' ≡ k) × (ps ≡ []))
          × (length qs ≤ length ps)
    map_page_lem k ps m vacant = elim (Bool-cases (present k.mem pgdir (pdx a))) [
      | inl pr ↦
          let (k', r, m') = enter_page k k ps pr (walkpgdir-present k pgdir a true pr) m vacant in
          (k', ps, true, r, m', λ e. cc, omega arith)
      | inr absent ↦ without_table k ps absent m vacant
    ]

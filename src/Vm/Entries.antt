-- ===== src/Vm/Entries.antt =====
-- Writing one page-table entry: which addresses it concerns.
use os_2024_project_vm.Base.{
  ℕ, ◌+◌, ◌*◌, ◌/◌, ◌%◌, ◌^◌, ◌<◌, ◌≡◌, ◌≢◌, inl, inr, true, false, List, arith, ◌==◌,
  if◌then◌else◌, Bool-cases, ==_iff, ==_refl,
}
use os_2024_project_vm.Mmu.{pgsize, pdx, ptx}
use os_2024_project_vm.Memory.{Memory, page, word, load, store, store_other}
use os_2024_project_vm.Kalloc.FreeList.{Chain, Chain-frame, aligned_page_ne}
use os_2024_project_vm.Vm.Tables.{
  pde, table, present, pte_of, Space, pdx-lt, ptx-lt, entry_place, table-aligned,
}

-- Two addresses lie in one page exactly when they have the same two indices.
pub same_page :
    (v a : ℕ)
    → v < 2 ^ 32
    → a < 2 ^ 32
    → (v / 4096 == a / 4096) ≡ (if pdx v == pdx a then ptx v == ptx a else false)
unfolding pdx ptx
same_page v a hv ha = ground arith

module _ (m : Memory) (pgdir a e : ℕ) (ps : List ℕ) (sp : Space m pgdir ps)
    (here : present m pgdir (pdx a) ≡ true) where
  abbrev t : ℕ
  t = table m pgdir (pdx a)

  unfoldable pub written : Memory
  written = store m (t + 4 * ptx a) e

  t_place : (page (t + 4 * ptx a) ≡ page t) × (word (t + 4 * ptx a) ≡ ptx a)
  t_place = entry_place t (ptx a) (table-aligned _) (ptx-lt a)

  t_ne_dir : page t ≢ page pgdir
  t_ne_dir =
      aligned_page_ne t pgdir (table-aligned _) sp.aligned (sp.table_ne_dir (pdx a) (pdx-lt a) here)

  -- The directory is not written.
  written-pde : (d : ℕ) → d < 1024 → pde written pgdir d ≡ pde m pgdir d
  unfolding written load store
  written-pde d h = ground (arith, t_place, t_ne_dir, entry_place pgdir d sp.aligned h)

  pub written-Space : Space written pgdir ps
  written-Space = record {
    aligned = sp.aligned;
    dir_used = sp.dir_used;
    table_used = λ d h. rw (written-pde d h) (sp.table_used d h);
    table_ne_dir = λ d h. rw (written-pde d h) (sp.table_ne_dir d h);
    table_ne_null = λ d h. rw (written-pde d h) (sp.table_ne_null d h);
    tables_apart = λ d c h g. rw (written-pde d h, written-pde c g) (sp.tables_apart d c h g);
  }

  pub written-Chain : (kernel_end p : ℕ) → Chain kernel_end m p ps → Chain kernel_end written p ps
  unfolding written
  written-Chain kernel_end p c =
      Chain-frame kernel_end m (store m (t + 4 * ptx a) e) p t ps
        (λ q h. store_other m (t + 4 * ptx a) e q (rw t_place.0 h)) (table-aligned _)
        (sp.table_used (pdx a) (pdx-lt a) here) c

  load_own :
      (i : ℕ) → i < 1024 → load written (t + 4 * i) ≡ (if i == ptx a then e else load m (t + 4 * i))
  unfolding written load store
  load_own i h = ground (arith, t_place, entry_place t i (table-aligned _) h)

  load_else :
      (u i : ℕ) → u % pgsize ≡ 0 → i < 1024 → t ≢ u → load written (u + 4 * i) ≡ load m (u + 4 * i)
  unfolding written load store
  load_else u i al h ne =
      ground (arith, t_place, entry_place u i al h, aligned_page_ne t u (table-aligned _) al ne)

  -- Exactly the addresses of the page of `a` get the new entry.
  pub written-pte_of :
      (v : ℕ)
      → v < 2 ^ 32
      → a < 2 ^ 32
      → pte_of written pgdir v ≡ (if v / 4096 == a / 4096 then e else pte_of m pgdir v)
  unfolding pte_of
  written-pte_of v hv ha =
      rw (same_page v a hv ha, written-pde (pdx v) (pdx-lt v))
        (elim (Bool-cases (pdx v == pdx a)) [
          | inl y ↦
              let same : pdx v ≡ pdx a = (==_iff (pdx v) (pdx a)).0 y in
              rw (same, here, ==_refl (pdx a)) (load_own (ptx v) (ptx-lt v))
          | inr y ↦ rw y (elim (Bool-cases (present m pgdir (pdx v))) [
            | inl pr ↦ rw pr (
                load_else (table m pgdir (pdx v)) (ptx v) (table-aligned _) (ptx-lt v)
                  (sp.tables_apart (pdx a) (pdx v) (pdx-lt a) (pdx-lt v) (ground arith) here pr))
            | inr no_table ↦ rw no_table
          ])
        ])

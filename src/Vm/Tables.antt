-- ===== src/Vm/Tables.antt =====
-- A page directory as a function from virtual addresses to entries, and what walkpgdir does to it.
use mathlib.Core.Path.{subst}
use os_2024_project_vm.Base.{
  ℕ, ◌+◌, ◌*◌, ◌%◌, ◌^◌, ◌<◌, ◌≡◌, ◌≢◌, refl, sym, ap, ◌∙◌, inl, inr, Bool, true, false, bit_or,
  List, ◌∷◌, ok, arith, has, ◌==◌, if◌then◌else◌, Bool-cases, ◌>>=◌, ==_ne, ==_iff,
}
use os_2024_project_vm.Base.Bits.{bit_or-one, bit_or-two, bit_or-four}
use os_2024_project_vm.Mmu.{pgsize, pdx, ptx, pte_p, pte_w, pte_u, flag, pte_addr, v2p, p2v}
use os_2024_project_vm.Memory.{
  Memory, page, word, load, store, memset_page, store_other, memset_other,
}
use os_2024_project_vm.Kalloc.{Kmem}
use os_2024_project_vm.Kalloc.FreeList.{
  IsFree, Chain-frame, kalloc_takes, refused-aligned, aligned_page_ne,
}
use os_2024_project_vm.Vm.Walk.{walkpgdir, new_table}

-- The directory entry for `va`, the table that it names, and whether it is present.
abbrev pub pde : Memory → ℕ → ℕ → ℕ
pde m pgdir d = load m (pgdir + 4 * d)

abbrev pub table : Memory → ℕ → ℕ → ℕ
table m pgdir d = p2v (pte_addr (pde m pgdir d))

abbrev pub present : Memory → ℕ → ℕ → Bool
present m pgdir d = flag (pde m pgdir d) pte_p == 1

-- What the hardware finds for `va`: its page-table entry, or 0 where there is no table.
unfoldable pub pte_of : Memory → ℕ → ℕ → ℕ
pte_of m pgdir va =
    if present m pgdir (pdx va) then load m (table m pgdir (pdx va) + 4 * ptx va) else 0

-- The directory at `pgdir` is a page of its own, and so is each table that it names; none is among
-- the free pages `ps`.
pub record Space (m : Memory) (pgdir : ℕ) (ps : List ℕ) : Type 0 where
  pub aligned : pgdir % pgsize ≡ 0
  pub dir_used : has pgdir ps ≡ false
  pub table_used : (d : ℕ) → d < 1024 → present m pgdir d ≡ true → has (table m pgdir d) ps ≡ false
  pub table_ne_dir : (d : ℕ) → d < 1024 → present m pgdir d ≡ true → table m pgdir d ≢ pgdir
  pub table_ne_null : (d : ℕ) → d < 1024 → present m pgdir d ≡ true → table m pgdir d ≢ 0
  pub tables_apart :
      (d e : ℕ)
      → d < 1024
      → e < 1024
      → d ≢ e
      → present m pgdir d ≡ true
      → present m pgdir e ≡ true
      → table m pgdir d ≢ table m pgdir e

pub pdx-lt : (va : ℕ) → pdx va < 1024
unfolding pdx
pdx-lt va = omega arith

pub ptx-lt : (va : ℕ) → ptx va < 1024
unfolding ptx
ptx-lt va = omega arith

-- Entry `i` of an aligned page.
pub entry_place :
    (a i : ℕ) → a % pgsize ≡ 0 → i < 1024 → (page (a + 4 * i) ≡ page a) × (word (a + 4 * i) ≡ i)
entry_place a i h k = omega arith

pub table-aligned : (e : ℕ) → p2v (pte_addr e) % pgsize ≡ 0
unfolding p2v pte_addr
table-aligned e = omega arith

-- Where there is a table, walkpgdir returns the address of the entry and changes nothing.
pub walkpgdir-present :
    (k : Kmem) (pgdir va : ℕ) (alloc : Bool)
    → present k.mem pgdir (pdx va) ≡ true
    → walkpgdir pgdir va alloc k ≡ ok (table k.mem pgdir (pdx va) + 4 * ptx va, k)
unfolding walkpgdir
walkpgdir-present k pgdir va alloc h = rw h

-- Where there is none and it may not allocate, it returns 0.
pub walkpgdir_absent :
    (k : Kmem) (pgdir va : ℕ)
    → present k.mem pgdir (pdx va) ≡ false
    → walkpgdir pgdir va false k ≡ ok (0, k)
unfolding walkpgdir
walkpgdir_absent k pgdir va h = rw h

-- The entry that names a fresh table.
abbrev pub fresh_entry : ℕ → ℕ
fresh_entry p = bit_or (bit_or (bit_or (v2p p) pte_p) pte_w) pte_u

table_entry :
    (p : ℕ)
    → p % pgsize ≡ 0
    → p < 2 ^ 32
    → let e = fresh_entry p in (flag e pte_p ≡ 1) × (p2v (pte_addr e) ≡ p)
unfolding v2p p2v pte_addr
table_entry p al lt =
    let a : ℕ = v2p p in
    omega (arith, bit_or-one a, bit_or-two (bit_or a 1), bit_or-four (bit_or (bit_or a 1) 2))

module _ (kernel_end : ℕ) (k : Kmem) (pgdir va p : ℕ) (ps : List ℕ)
    (f : IsFree kernel_end k (p ∷ ps)) (sp : Space k.mem pgdir (p ∷ ps))
    (absent : present k.mem pgdir (pdx va) ≡ false) where
  -- the memory with the table `p` cleared, and then entered for `va`
  pub cleared : Memory
  cleared = memset_page k.mem p 0

  pub entered : Memory
  entered = store cleared (pgdir + 4 * pdx va) (fresh_entry p)

  pub walked : Kmem
  walked = record k { mem = entered; freelist = load k.mem p }

  p_aligned : p % pgsize ≡ 0
  p_aligned = refused-aligned kernel_end p f.chain.2

  p_ne_dir : page p ≢ page pgdir
  p_ne_dir = ground (arith, p_aligned, sp.aligned, sp.dir_used)

  -- Pages other than the directory and the new table keep their words.
  entered_other : (q : ℕ) → page p ≢ q → page pgdir ≢ q → entered q ≡ k.mem q
  unfolding entered cleared memset_page store
  entered_other q h g = ground (arith, entry_place pgdir (pdx va) sp.aligned (pdx-lt va))

  entered_table : (i : ℕ) → entered (page p) i ≡ 0
  unfolding entered cleared memset_page store
  entered_table i = ground (arith, entry_place pgdir (pdx va) sp.aligned (pdx-lt va), p_ne_dir)

  entered_here : pde entered pgdir (pdx va) ≡ fresh_entry p
  unfolding entered load store
  entered_here = ground arith

  entered_else : (d : ℕ) → d < 1024 → d ≢ pdx va → pde entered pgdir d ≡ pde k.mem pgdir d
  unfolding entered cleared memset_page load store
  entered_else d h ne = ground (
    arith,
    entry_place pgdir (pdx va) sp.aligned (pdx-lt va),
    entry_place pgdir d sp.aligned h,
    p_ne_dir,
  )

  entered-present : (present entered pgdir (pdx va) ≡ true) × (table entered pgdir (pdx va) ≡ p)
  entered-present =
      let (here, back) = table_entry p p_aligned f.chain.1.1 in rw entered_here (rw here refl, back)

  -- An entry of the directory is the new one or an old one.
  by_entry :
      (P : ℕ → Type 0) (d : ℕ)
      → d < 1024
      → (d ≡ pdx va → P (fresh_entry p))
      → (d ≢ pdx va → P (pde k.mem pgdir d))
      → P (pde entered pgdir d)
  by_entry P d h new old = elim (Bool-cases (d == pdx va)) [
    | inl e ↦
        let same : d ≡ pdx va = (==_iff d (pdx va)).0 e in
        subst P (sym (ap (pde entered pgdir) same ∙ entered_here)) (new same)
    | inr e ↦ let ne : d ≢ pdx va = ground arith in subst P (sym (entered_else d h ne)) (old ne)
  ]

  new_entry : p2v (pte_addr (fresh_entry p)) ≡ p
  new_entry = (table_entry p p_aligned f.chain.1.1).1

  p_apart : (d : ℕ) → d < 1024 → present k.mem pgdir d ≡ true → table k.mem pgdir d ≢ p
  p_apart d h pr = ground (arith, sp.table_used d h)

  walked-Space : Space entered pgdir ps
  walked-Space = record {
    aligned = sp.aligned;
    dir_used = ground (arith, sp.dir_used);
    table_used = λ d h.
        by_entry (λ e. (flag e pte_p == 1) ≡ true → has (p2v (pte_addr e)) ps ≡ false) d h
          (λ _ _. rw new_entry f.chain.3) (λ _ pr. ground (arith, sp.table_used d h));
    table_ne_dir = λ d h.
        by_entry (λ e. (flag e pte_p == 1) ≡ true → p2v (pte_addr e) ≢ pgdir) d h
          (λ _ _. rw new_entry (λ e. p_ne_dir (ap page e))) (λ _. sp.table_ne_dir d h);
    table_ne_null = λ d h.
        by_entry (λ e. (flag e pte_p == 1) ≡ true → p2v (pte_addr e) ≢ 0) d h
          (λ _ _. rw new_entry f.chain.1.0) (λ _. sp.table_ne_null d h);
    tables_apart = λ d e h g ne.
        by_entry
          (λ x.
            (flag x pte_p == 1) ≡ true
            → present entered pgdir e ≡ true
            → p2v (pte_addr x) ≢ table entered pgdir e)
          d h
          (λ here _.
            by_entry
              (λ y. (flag y pte_p == 1) ≡ true → p2v (pte_addr (fresh_entry p)) ≢ p2v (pte_addr y))
              e g (λ there _. absurd (ne (here ∙ sym there)))
              (λ _ pr. rw new_entry (λ q. p_apart e g pr (sym q))))
          (λ _ px.
            by_entry (λ y. (flag y pte_p == 1) ≡ true → table k.mem pgdir d ≢ p2v (pte_addr y)) e g
              (λ _ _. rw new_entry (p_apart d h px)) (λ _ pr. sp.tables_apart d e h g ne px pr));
  }

  load_same :
      (t i : ℕ)
      → t % pgsize ≡ 0
      → i < 1024
      → t ≢ p
      → t ≢ pgdir
      → load entered (t + 4 * i) ≡ load k.mem (t + 4 * i)
  unfolding load
  load_same t i al h np nd = ground (
    arith,
    entry_place t i al h,
    entered_other (page t),
    aligned_page_ne t p al p_aligned np,
    aligned_page_ne t pgdir al sp.aligned nd,
  )

  new_zero : (v : ℕ) → load entered (p + 4 * ptx v) ≡ 0
  unfolding load
  new_zero v = ground (arith, entry_place p (ptx v) p_aligned (ptx-lt v), entered_table (ptx v))

  -- Every other address keeps its entry, and `va` has the entry 0 now.
  pub walked-pte_of : (v : ℕ) → pte_of entered pgdir v ≡ pte_of k.mem pgdir v
  unfolding pte_of
  walked-pte_of v = elim (Bool-cases (pdx v == pdx va)) [
    | inl e ↦
        let same : pdx v ≡ pdx va = (==_iff (pdx v) (pdx va)).0 e in
        rw (same, entered-present.0, absent, entered-present.1) (new_zero v)
    | inr e ↦
        rw (entered_else (pdx v) (pdx-lt v) (ground arith))
          (elim (Bool-cases (present k.mem pgdir (pdx v))) [
            | inl pr ↦ rw pr (
                load_same (table k.mem pgdir (pdx v)) (ptx v) (table-aligned _) (ptx-lt v)
                  (p_apart (pdx v) (pdx-lt v) pr) (sp.table_ne_dir (pdx v) (pdx-lt v) pr))
            | inr no_table ↦ rw no_table
          ])
  ]

  walked-IsFree : IsFree kernel_end walked ps
  unfolding walked entered cleared
  walked-IsFree = record {
    unlocked = f.unlocked;
    chain =
        Chain-frame kernel_end cleared entered (load k.mem p) pgdir ps
          (λ q h.
            store_other cleared (pgdir + 4 * pdx va) (fresh_entry p) q
              (rw (entry_place pgdir (pdx va) sp.aligned (pdx-lt va)).0 h))
          sp.aligned (ground (arith, sp.dir_used))
          (Chain-frame kernel_end k.mem cleared (load k.mem p) p ps (memset_other k.mem p 0)
            p_aligned f.chain.3 f.chain.4);
  }

  walked-runs : walkpgdir pgdir va true k ≡ ok (p + 4 * ptx va, walked)
  unfolding walkpgdir new_table walked entered cleared
  walked-runs = rw (absent, (kalloc_takes kernel_end k p ps f).0, ◌>>=◌, ==_ne p 0 f.chain.1.0) refl

  -- With a free page walkpgdir makes it the table for `va`, all of whose entries are 0: it returns
  -- the address of the entry, the free list loses the page, and no address changes its entry.
  pub walkpgdir_creates :
      (k' : Kmem) × (walkpgdir pgdir va true k ≡ ok (p + 4 * ptx va, k'))
      × IsFree kernel_end k' ps
      × Space k'.mem pgdir ps
      × (present k'.mem pgdir (pdx va) ≡ true)
      × (table k'.mem pgdir (pdx va) ≡ p)
      × ((v : ℕ) → pte_of k'.mem pgdir v ≡ pte_of k.mem pgdir v)
  unfolding walked
  walkpgdir_creates = (
    walked, walked-runs, walked-IsFree, walked-Space, entered-present.0, entered-present.1,
    walked-pte_of,
  )

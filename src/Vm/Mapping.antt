-- ===== src/Vm/Mapping.antt =====
-- mappages: which addresses it maps, and to what.
use mathlib.Core.Path.{subst}
use os_2024_project_vm.Base.{
  ℕ, zero, suc, ◌+◌, ◌-◌, ◌*◌, ◌/◌, ◌%◌, ◌^◌, ◌≤◌, ◌<◌, ◌≡◌, refl, ap, ◌∙◌, Bool, true, false, ◌&&◌,
  bit_or, List, [], ok, arith, if◌then◌else◌, ==_ne, ==_refl, ◌>>=◌, leb, ltb,
}
use os_2024_project_vm.Mmu.{uint, pgsize, pte_p, flag, pgrounddown}
use os_2024_project_vm.Kalloc.{Kmem}
use os_2024_project_vm.Vm.Walk.{map_page, mappages_loop, mappages}
use os_2024_project_vm.Vm.Pages.{Maps, with_page, map_page_lem}

module _ (kernel_end : ℕ) where
  Maps-ext :
      {pgdir : ℕ} {k : Kmem} {qs : List ℕ} {f g : ℕ → ℕ}
      → Maps kernel_end pgdir k qs f
      → ((v : ℕ) → v < 2 ^ 32 → f v ≡ g v)
      → Maps kernel_end pgdir k qs g
  Maps-ext m h = record {
    free = m.free;
    space = m.space;
    entries = λ v hv. m.entries v hv ∙ h v hv;
  }

  -- the entries with `n` pages from `a` mapped to the frames from `pa` on
  abbrev pub mapped : ℕ → ℕ → ℕ → ℕ → (ℕ → ℕ) → ℕ → ℕ
  mapped n a pa perm entry v =
      if leb a v && ltb v (a + n * pgsize)
      then bit_or (bit_or (pa + (v / 4096 - a / 4096) * pgsize) perm) pte_p
      else entry v

  mapped-suc :
      (n a pa perm : ℕ) (entry : ℕ → ℕ) (v : ℕ)
      → a % pgsize ≡ 0
      → mapped n (a + pgsize) (pa + pgsize) perm (with_page a pa perm entry) v
        ≡ mapped (suc n) a pa perm entry v
  mapped-suc n a pa perm entry v al = ground arith

  -- What mappages leaves: `n` pages are mapped when it succeeds; else it has used up the free pages
  -- on fewer.
  pub record Outcomes (pgdir a pa perm n : ℕ) (entry : ℕ → ℕ) (k' : Kmem) (done : Bool)
      : Type 0 where
    pub pages : ℕ
    pub left : List ℕ
    pub maps : Maps kernel_end pgdir k' left (mapped pages a pa perm entry)
    pub success : done ≡ true → pages ≡ n
    pub failure : done ≡ false → (pages < n) × (left ≡ [])

  abbrev LoopResult : ℕ → ℕ → ℕ → ℕ → ℕ → ℕ → ℕ → (ℕ → ℕ) → Kmem → Type 0
  LoopResult n rounds pgdir a last pa perm entry k =
      (k' : Kmem) × (done : Bool) × (mappages_loop rounds pgdir a last pa perm k ≡ ok (done, k'))
      × Outcomes pgdir a pa perm (suc n) entry k' done

  -- A page that cannot be mapped ends the loop.
  loop_fails :
      (n rounds pgdir a last pa perm : ℕ) (entry : ℕ → ℕ) (k : Kmem)
      → map_page pgdir a pa perm k ≡ ok (false, k)
      → Maps kernel_end pgdir k [] entry
      → LoopResult n (suc rounds) pgdir a last pa perm entry k
  unfolding mappages_loop
  loop_fails n rounds pgdir a last pa perm entry k r m = (
    k,
    false,
    rw (r, ◌>>=◌) refl,
    record {
      pages = 0;
      left = [];
      maps = Maps-ext m (λ v hv. ground arith);
      success = λ e. cc;
      failure = λ e. (omega arith, refl);
    },
  )

  -- The last page ends it with success.
  loop_ends :
      (rounds pgdir a pa perm : ℕ) (entry : ℕ → ℕ) (k k' : Kmem) (qs : List ℕ)
      → a % pgsize ≡ 0
      → map_page pgdir a pa perm k ≡ ok (true, k')
      → Maps kernel_end pgdir k' qs (with_page a pa perm entry)
      → LoopResult 0 (suc rounds) pgdir a a pa perm entry k
  unfolding mappages_loop
  loop_ends rounds pgdir a pa perm entry k k' qs al r m = (
    k',
    true,
    rw (r, ◌>>=◌, ==_refl a) refl,
    record {
      pages = 1;
      left = qs;
      maps = Maps-ext m (λ v hv. ground arith);
      success = λ e. refl;
      failure = λ e. cc;
    },
  )

  loop_continues :
      (n rounds pgdir a last pa perm : ℕ) (entry : ℕ → ℕ) (k k' : Kmem)
      → a % pgsize ≡ 0
      → a < last
      → last < 2 ^ 32 - pgsize + 1
      → pa + pgsize < 2 ^ 32
      → map_page pgdir a pa perm k ≡ ok (true, k')
      → LoopResult n rounds pgdir
          (a + pgsize)
          last
          (pa + pgsize)
          perm
          (with_page a pa perm entry)
          k'
      → LoopResult (suc n) (suc rounds) pgdir a last pa perm entry k
  unfolding mappages_loop
  loop_continues n rounds pgdir a last pa perm entry k k' al lt hl hp r (k'', done, run, o) = (
    k'',
    done,
    rw (r, ◌>>=◌, ==_ne a last (omega arith), next_a, next_pa) run,
    record {
      pages = suc (o.pages);
      left = o.left;
      maps = Maps-ext o.maps (λ v hv. mapped-suc o.pages a pa perm entry v al);
      success = λ e. ap suc (o.success e);
      failure = λ e. (omega (arith, o.failure e), (o.failure e).1);
    },
  )
    where
      next_a : uint (a + pgsize) ≡ a + pgsize
      next_a = omega arith

      next_pa : uint (pa + pgsize) ≡ pa + pgsize
      next_pa = omega arith

  -- One round: the page at `a` is mapped and the loop goes on, or it fails.
  one_round :
      (n rounds pgdir a last pa perm : ℕ) (entry : ℕ → ℕ) (k : Kmem) (ps : List ℕ)
      → a < 2 ^ 32
      → flag (entry a) pte_p ≡ 0
      → Maps kernel_end pgdir k ps entry
      → ((k' : Kmem) (qs : List ℕ)
          → map_page pgdir a pa perm k ≡ ok (true, k')
          → Maps kernel_end pgdir k' qs (with_page a pa perm entry)
          → LoopResult n (suc rounds) pgdir a last pa perm entry k)
      → LoopResult n (suc rounds) pgdir a last pa perm entry k
  one_round n rounds pgdir a last pa perm entry k ps ha vacant m go_on =
      let (k', qs, done, r, m', fail, _) =
        map_page_lem kernel_end pgdir a pa perm ha entry k ps m vacant in
      either k' qs done r m' fail
    where
      either :
          (k' : Kmem) (qs : List ℕ) (done : Bool)
          → map_page pgdir a pa perm k ≡ ok (done, k')
          → Maps kernel_end pgdir k' qs (if done then with_page a pa perm entry else entry)
          → (done ≡ false → (k' ≡ k) × (ps ≡ []))
          → LoopResult n (suc rounds) pgdir a last pa perm entry k
      either k' qs true r m' fail = go_on k' qs r m'
      either k' qs false r m' fail =
          let (same, none_left) = fail refl in
          loop_fails n rounds pgdir a last pa perm entry k
            (subst (λ z. map_page pgdir a pa perm k ≡ ok (false, z)) same r)
            (subst (λ z. Maps kernel_end pgdir k z entry) none_left m)

  mappages_loop_lem :
      (n rounds pgdir a last pa perm : ℕ) (entry : ℕ → ℕ) (k : Kmem) (ps : List ℕ)
      → n < rounds
      → a % pgsize ≡ 0
      → last ≡ a + n * pgsize
      → last + pgsize ≤ 2 ^ 32
      → pa + n * pgsize < 2 ^ 32
      → ((v : ℕ) → a ≤ v → v ≤ last → flag (entry v) pte_p ≡ 0)
      → Maps kernel_end pgdir k ps entry
      → LoopResult n rounds pgdir a last pa perm entry k
  mappages_loop_lem n zero pgdir a last pa perm entry k ps enough al e hl hp vacant m =
      absurd (omega arith)
  mappages_loop_lem zero (suc rounds) pgdir a last pa perm entry k ps enough al e hl hp vacant m =
      let end : a ≡ last = omega arith in
      one_round zero rounds pgdir a last pa perm entry k ps (omega arith)
        (vacant a (omega arith) (omega arith)) m
        λ k' qs r m'.
          subst (λ z. LoopResult 0 (suc rounds) pgdir a z pa perm entry k) end
            (loop_ends rounds pgdir a pa perm entry k k' qs al r m')
  mappages_loop_lem (suc n) (suc rounds) pgdir a last pa perm entry k ps enough al e hl hp vacant
        m =
      one_round (suc n) rounds pgdir a last pa perm entry k ps (omega arith)
        (vacant a (omega arith) (omega arith)) m
        λ k' qs r m'.
          loop_continues n rounds pgdir a last pa perm entry k k' al (omega arith) (omega arith)
            (omega arith) r
            (mappages_loop_lem n rounds pgdir (a + pgsize) last (pa + pgsize) perm
              (with_page a pa perm entry) k' qs (omega arith) (omega arith) (omega arith) hl
              (omega arith) (λ v h g. ground (arith, vacant v)) m')

  -- mappages of a range of at least one byte that is not mapped, and of which neither an address nor a
  -- frame leaves the word, maps every page that meets it to its frame and no other page, or it runs out
  -- of free pages on the way; it never panics.
  pub mappages-Maps :
      (pgdir va size pa perm n : ℕ) (entry : ℕ → ℕ) (k : Kmem) (ps : List ℕ)
      → 0 < size
      → va + size ≤ 2 ^ 32
      → suc n ≡ (va % pgsize + size + pgsize - 1) / pgsize
      → pa + suc n * pgsize ≤ 2 ^ 32
      → ((v : ℕ) → pgrounddown va ≤ v → v < va + size → flag (entry v) pte_p ≡ 0)
      → Maps kernel_end pgdir k ps entry
      → (k' : Kmem) × (done : Bool) × (mappages pgdir va size pa perm k ≡ ok (done, k'))
        × Outcomes pgdir (pgrounddown va) pa perm (suc n) entry k' done
  unfolding mappages pgrounddown
  mappages-Maps pgdir va size pa perm n entry k ps pos fits count frames vacant m =
      mappages_loop_lem n (2 ^ 20) pgdir (va / pgsize * pgsize)
        (uint (va + size + 2 ^ 32 - 1) / pgsize * pgsize) pa perm entry k ps (omega arith)
        (omega arith) (omega arith) (omega arith) (omega arith) (λ v h g. vacant v h (omega arith))
        m

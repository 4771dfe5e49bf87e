-- ===== src/Fs/Search.antt =====
-- fs.c: balloc searches the bitmap for the lowest free block.
use os_2024_project_vm.Base.{
  ℕ, zero, suc, ◌+◌, ◌-◌, ◌*◌, ◌/◌, ◌%◌, ◌≤◌, ◌<◌, ◌≡◌, ◌⊎◌, inl, inr, refl, sym, ap, ◌∙◌, true,
  false, Option, none, some, Outcome, panic, arith, ltb, Bool-cases, ltb→lt,
}
use os_2024_project_vm.Blocks.{Block}
use os_2024_project_vm.Fs.State.{Fs, bpb, bblock, bread}
use os_2024_project_vm.Fs.Bitmap.{is_clear, find_clear, take_block, balloc_loop, balloc}
use os_2024_project_vm.Fs.Marks.{is_free_block}

-- What the inner loop finds: the first free bit below the end, or none.
abbrev FirstClear : Block → ℕ → ℕ → ℕ → ℕ → Option ℕ → Type 0
FirstClear d b size left bi none =
    (j : ℕ) → bi ≤ j → j < bi + left → b + j < size → is_clear d j ≡ false
FirstClear d b size left bi (some r) =
    (bi ≤ r)
    × (r < bi + left)
    × (b + r < size)
    × (is_clear d r ≡ true)
    × ((j : ℕ) → bi ≤ j → j < r → is_clear d j ≡ false)

from : (P : ℕ → Type 0) (bi j : ℕ) → P bi → ((k : ℕ) → bi + 1 ≤ k → k ≡ j → P k) → bi ≤ j → P j
from P bi j here later le = elim (split bi j le) [
  | inl e ↦ rw (sym e) here
  | inr l ↦ later j l refl
]
  where
    split : (bi j : ℕ) → bi ≤ j → (bi ≡ j) ⊎ (bi + 1 ≤ j)
    split bi j le = ground arith

FirstClear-next :
    (d : Block) (b size left bi : ℕ) (o : Option ℕ)
    → is_clear d bi ≡ false
    → FirstClear d b size left (bi + 1) o
    → FirstClear d b size (suc left) bi o
FirstClear-next d b size left bi none e rest = λ j l g h.
    from (λ k. is_clear d k ≡ false) bi j e (λ k m same. rest k m (omega arith) (omega arith)) l
FirstClear-next d b size left bi (some r) e (low, high, fits, clear, before) = (
  omega arith,
  omega arith,
  fits,
  clear,
  λ j l g. from (λ k. is_clear d k ≡ false) bi j e (λ k m same. before k m (omega arith)) l,
)

find_clear_lem :
    (d : Block) (b size left bi : ℕ) → FirstClear d b size left bi (find_clear d b size left bi)
unfolding find_clear
find_clear_lem d b size zero bi = λ j l g h. absurd (omega arith)
find_clear_lem d b size (suc left) bi = elim (Bool-cases (ltb (b + bi) size)) [
  | inr e ↦ rw e (λ j l g h. absurd (ground arith))
  | inl e ↦ elim (Bool-cases (is_clear d bi)) [
    | inl f ↦
        rw (e, f)
          (omega arith, omega arith, ltb→lt (b + bi) size e, f, λ j l g. absurd (omega arith))
    | inr f ↦
        rw (e, f)
          (FirstClear-next d b size left bi (find_clear d b size left (bi + 1)) f
            (find_clear_lem d b size left (bi + 1)))
  ]
]

-- Bit `bi` of the bitmap block for the blocks from `q * bpb` on.
is_free_block-group :
    (q bi : ℕ) (s : Fs)
    → bi < bpb
    → is_free_block (q * bpb + bi) s ≡ is_clear (bread (bblock (q * bpb) s.sb) s) bi
unfolding is_free_block
is_free_block-group q bi s lt = rw (block q bi lt, offset q bi lt) refl
  where
    block : (q bi : ℕ) → bi < bpb → (q * bpb + bi) / bpb ≡ q * bpb / bpb
    block q bi lt = omega arith

    offset : (q bi : ℕ) → bi < bpb → (q * bpb + bi) % bpb ≡ bi
    offset q bi lt = omega arith

-- No block from `from` up to `to` is free.
abbrev pub NoneFree : Fs → ℕ → ℕ → Type 0
NoneFree s from to = (c : ℕ) → from ≤ c → c < to → is_free_block c s ≡ false

-- The outcome `o` of the search for a free block from `b` on.
abbrev pub Search : Fs → ℕ → Outcome (ℕ × Fs) → Type 0
Search s b o =
    ((q : ℕ) × (bi : ℕ) × (bi < bpb)
      × (q * bpb + bi < s.sb.size)
      × (is_free_block (q * bpb + bi) s ≡ true)
      × NoneFree s b (q * bpb + bi)
      × (o ≡ take_block (q * bpb) bi s))
    ⊎ (NoneFree s b s.sb.size × (o ≡ panic "balloc: out of blocks"))

-- A block of the bitmap, searched in vain, shows its part of the disk in use.
group-NoneFree :
    (q to : ℕ) (s : Fs)
    → ((j : ℕ) → j < bpb → q * bpb + j < to → is_clear (bread (bblock (q * bpb) s.sb) s) j ≡ false)
    → (c : ℕ) → q * bpb ≤ c
    → c < (q + 1) * bpb
    → c < to
    → is_free_block c s ≡ false
group-NoneFree q to s vain c le lt below =
    ap (λ n. is_free_block n s) (split q c le)
    ∙ is_free_block-group q (c - q * bpb) s (near q c le lt)
    ∙ vain (c - q * bpb) (near q c le lt) (at q c le below)
  where
    split : (q c : ℕ) → q * bpb ≤ c → c ≡ q * bpb + (c - q * bpb)
    split q c le = omega arith

    near : (q c : ℕ) → q * bpb ≤ c → c < (q + 1) * bpb → c - q * bpb < bpb
    near q c le lt = omega arith

    at : (q c : ℕ) → q * bpb ≤ c → c < to → q * bpb + (c - q * bpb) < to
    at q c le below = omega arith

NoneFree-join :
    (s : Fs) (q to : ℕ)
    → ((c : ℕ) → q * bpb ≤ c → c < (q + 1) * bpb → c < to → is_free_block c s ≡ false)
    → NoneFree s ((q + 1) * bpb) to
    → NoneFree s (q * bpb) to
NoneFree-join s q to first later c le lt = elim (split q c le) [
  | inl l ↦ first c le l lt
  | inr l ↦ later c l lt
]
  where
    split : (q c : ℕ) → q * bpb ≤ c → (c < (q + 1) * bpb) ⊎ ((q + 1) * bpb ≤ c)
    split q c le = ground arith

Search-next :
    (s : Fs) (q : ℕ) (o : Outcome (ℕ × Fs))
    → ((j : ℕ)
        → j < bpb
        → q * bpb + j < s.sb.size
        → is_clear (bread (bblock (q * bpb) s.sb) s) j ≡ false)
    → Search s ((q + 1) * bpb) o
    → Search s (q * bpb) o
Search-next s q o vain (inl (r, bi, lt, fits, free, before, e)) = inl (
  r,
  bi,
  lt,
  fits,
  free,
  NoneFree-join s q (r * bpb + bi)
      (λ c le l m. group-NoneFree q s.sb.size s vain c le l (omega arith)) before,
  e,
)
Search-next s q o vain (inr (none_free, e)) =
    inr (NoneFree-join s q s.sb.size (group-NoneFree q s.sb.size s vain) none_free, e)

-- The round that finds bit `bi`.
Search-found :
    (s : Fs) (q bi : ℕ)
    → FirstClear (bread (bblock (q * bpb) s.sb) s) (q * bpb) s.sb.size bpb 0 (some bi)
    → Search s (q * bpb) (take_block (q * bpb) bi s)
Search-found s q bi (low, high, fits, clear, before) = inl (
  q,
  bi,
  high,
  fits,
  is_free_block-group q bi s high ∙ clear,
  λ c le lt.
      group-NoneFree q (q * bpb + bi) s (λ j l m. before j (omega arith) (omega arith)) c le
        (omega arith) lt,
  refl,
)

balloc_loop_lem :
    (rounds q : ℕ) (s : Fs)
    → q * bpb < s.sb.size + bpb
    → s.sb.size + bpb ≤ (rounds + q) * bpb
    → Search s (q * bpb) (balloc_loop rounds (q * bpb) s)
unfolding balloc_loop
balloc_loop_lem zero q s before enough = absurd (omega arith)
balloc_loop_lem (suc rounds) q s before enough = elim (Bool-cases (ltb (q * bpb) s.sb.size)) [
  | inr e ↦ rw e (inr (λ c le lt. absurd (ground arith), refl))
  | inl e ↦ rw e (
      found (find_clear (bread (bblock (q * bpb) s.sb) s) (q * bpb) s.sb.size bpb 0)
        (find_clear_lem (bread (bblock (q * bpb) s.sb) s) (q * bpb) s.sb.size bpb 0)
        (rw (further q) (balloc_loop_lem rounds (q + 1) s (below q s.sb.size e) (omega arith))))
]
  where
    further : (q : ℕ) → q * bpb + bpb ≡ (q + 1) * bpb
    further q = omega arith

    below : (q size : ℕ) → ltb (q * bpb) size ≡ true → (q + 1) * bpb < size + bpb
    below q size e = ground arith

    found :
        (o : Option ℕ)
        → FirstClear (bread (bblock (q * bpb) s.sb) s) (q * bpb) s.sb.size bpb 0 o
        → Search s ((q + 1) * bpb) (balloc_loop rounds (q * bpb + bpb) s)
        → Search s (q * bpb) (elim o [
          | some bi ↦ take_block (q * bpb) bi s
          | none ↦ balloc_loop rounds (q * bpb + bpb) s
        ])
    found none vain rest =
        Search-next s q (balloc_loop rounds (q * bpb + bpb) s)
          (λ j lt fits. vain j (omega arith) (omega arith) fits) rest
    found (some bi) first rest = Search-found s q bi first

pub balloc-Search : (s : Fs) → Search s 0 (balloc s)
unfolding balloc
balloc-Search s = balloc_loop_lem (s.sb.size / bpb + 2) 0 s (omega arith) (enough s.sb.size)
  where
    enough : (size : ℕ) → size + bpb ≤ (size / bpb + 2 + 0) * bpb
    enough size = omega arith

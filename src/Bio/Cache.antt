-- ===== src/Bio/Cache.antt =====
-- bget caches a block once.
use os_2024_project_vm.Base.{
  ℕ, ◌≡◌, ◌≢◌, refl, inl, inr, ◌⊎◌, true, false, Option, none, some, ok, panic, arith, Bool-cases,
  ==_refl, ap, ◌+◌, ◌++◌, ◌>>=◌, ◌>>◌, List, [], ◌∷◌, All,
}
use os_2024_project_vm.Bio.{
  Buf, Bcache, acquire_bcache, release_bcache, is_key, behind, find_cached, is_free, recycle, bget,
}

-- No buffer holds the block.
abbrev pub Lacks : ℕ → ℕ → List Buf → Type 0
Lacks dev blockno bufs = All (λ b. is_key dev blockno b ≡ false) bufs

-- No two buffers hold the same block; a buffer that was never used has device 0.
abbrev pub IsUnique : List Buf → Type 0
IsUnique [] = Unit
IsUnique (b ∷ bufs) = (b.dev ≢ 0 → Lacks b.dev b.blockno bufs) × IsUnique bufs

-- What a search for the block leaves: a buffer for it, and a list with no other block.
abbrev pub Holds : ℕ → ℕ → List Buf → Buf → List Buf → Type 0
Holds dev blockno bufs x bufs' =
    (is_key dev blockno x ≡ true)
    × (IsUnique bufs → IsUnique bufs')
    × ((d n : ℕ) → is_key d n x ≡ false → Lacks d n bufs → Lacks d n bufs')

-- The list `bufs'` is `bufs` with `x` in the place of `y`, which stands before `after`.
abbrev pub Replaced : List Buf → Buf → List Buf → Buf → List Buf → Type 0
Replaced bufs y after x bufs' =
    (before : List Buf) × (bufs ≡ before ++ (y ∷ after)) × (bufs' ≡ before ++ (x ∷ after))

Replaced-behind :
    (b : Buf) (bufs : List Buf) (y : Buf) (after : List Buf) (x : Buf) (bufs' : List Buf)
    → Replaced bufs y after x bufs'
    → Replaced (b ∷ bufs) y after x (b ∷ bufs')
Replaced-behind b bufs y after x bufs' (before, e, e') =
    (b ∷ before, ap (λ l. b ∷ l) e, ap (λ l. b ∷ l) e')

-- `x` is the buffer `y` that held the block already, with one more reference.
abbrev pub Hit : ℕ → ℕ → List Buf → Buf → List Buf → Type 0
Hit dev blockno bufs x bufs' =
    (y : Buf) × (after : List Buf) × Replaced bufs y after x bufs'
    × (y.dev ≡ dev)
    × (y.blockno ≡ blockno)
    × (x ≡ record y { refcnt = y.refcnt + 1 })

-- In use, or to be written yet.
abbrev pub IsBusy : Buf → Type 0
IsBusy b = (b.refcnt ≢ 0) ⊎ (b.dirty ≡ true)

-- `x` is the last buffer `y` of the list that is not busy, given to the block with one reference and without
-- its data.
abbrev pub Recycled : ℕ → ℕ → List Buf → Buf → List Buf → Type 0
Recycled dev blockno bufs x bufs' =
    (y : Buf) × (after : List Buf) × Replaced bufs y after x bufs'
    × (y.refcnt ≡ 0)
    × (y.dirty ≡ false)
    × All IsBusy after
    × (x.id ≡ y.id)
    × (x.valid ≡ false)
    × (x.dirty ≡ false)
    × (x.refcnt ≡ 1)

abbrev pub Cached : ℕ → ℕ → List Buf → Option (Buf × List Buf) → Type 0
Cached dev blockno bufs none = Lacks dev blockno bufs
Cached dev blockno bufs (some (x, bufs')) =
    Holds dev blockno bufs x bufs' × Hit dev blockno bufs x bufs'

-- Keys are compared alike from both sides.
swap :
    (dev blockno : ℕ) (b x : Buf)
    → is_key dev blockno b ≡ false
    → is_key dev blockno x ≡ true
    → is_key b.dev b.blockno x ≡ false
swap dev blockno b x e h = ground arith

Holds-behind :
    (dev blockno : ℕ) (b : Buf) (bufs : List Buf) (x : Buf) (bufs' : List Buf)
    → is_key dev blockno b ≡ false
    → Holds dev blockno bufs x bufs'
    → Holds dev blockno (b ∷ bufs) x (b ∷ bufs')
Holds-behind dev blockno b bufs x bufs' e (key, unique, lacks) = (
  key,
  λ (first, rest).
      (λ used. lacks b.dev b.blockno (swap dev blockno b x e key) (first used), unique rest),
  λ d n other (h, hs). (h, lacks d n other hs),
)

Cached-behind :
    (dev blockno : ℕ) (b : Buf) (bufs : List Buf) (o : Option (Buf × List Buf))
    → is_key dev blockno b ≡ false
    → Cached dev blockno bufs o
    → Cached dev blockno (b ∷ bufs) (behind b o)
unfolding behind
Cached-behind dev blockno b bufs none e c = (e, c)
Cached-behind dev blockno b bufs (some (x, bufs')) e
      (holds, (y, after, in_place, hit, at, one_more)) =
    (
      Holds-behind dev blockno b bufs x bufs' e holds,
      (y, after, Replaced-behind b bufs y after x bufs' in_place, hit, at, one_more),
    )

same_key :
    (dev blockno : ℕ) (b : Buf)
    → is_key dev blockno b ≡ true
    → (b.dev ≡ dev) × (b.blockno ≡ blockno)
same_key dev blockno b e = (ground arith, ground arith)

find_cached-Cached :
    (dev blockno : ℕ) (bufs : List Buf) → Cached dev blockno bufs (find_cached dev blockno bufs)
unfolding find_cached
find_cached-Cached dev blockno [] = tt
find_cached-Cached dev blockno (b ∷ bufs) = elim (Bool-cases (is_key dev blockno b)) [
  | inl e ↦
      let (dev_same, blockno_same) = same_key dev blockno b e in
      rw e (
        (e, λ unique. unique, λ d n other (h, hs). (h, hs)),
        (b, bufs, ([], refl, refl), dev_same, blockno_same, refl),
      )
  | inr e ↦ rw e (
      Cached-behind dev blockno b bufs (find_cached dev blockno bufs) e
        (find_cached-Cached dev blockno bufs))
]

abbrev pub Freed : ℕ → ℕ → List Buf → Option (Buf × List Buf) → Type 0
Freed dev blockno bufs none = All IsBusy bufs
Freed dev blockno bufs (some (x, bufs')) =
    Holds dev blockno bufs x bufs' × Recycled dev blockno bufs x bufs'

busy : (b : Buf) → is_free b ≡ false → IsBusy b
busy b e = elim (Bool-cases b.dirty) [ inl dirty ↦ inr dirty | inr clean ↦ inl (used b clean e) ]
  where
    used : (b : Buf) → b.dirty ≡ false → is_free b ≡ false → b.refcnt ≢ 0
    used b clean e z = ground arith

not_busy : (b : Buf) → is_free b ≡ true → (b.refcnt ≡ 0) × (b.dirty ≡ false)
not_busy b e = (ground arith, ground arith)

recycle-Freed :
    (dev blockno : ℕ) (bufs : List Buf)
    → Lacks dev blockno bufs
    → Freed dev blockno bufs (recycle dev blockno bufs)
unfolding recycle
recycle-Freed dev blockno [] lacks = tt
recycle-Freed dev blockno (b ∷ bufs) (e, lacks) =
    by_rest (recycle dev blockno bufs) refl (recycle-Freed dev blockno bufs lacks)
  where
    by_rest :
        (o : Option (Buf × List Buf))
        → recycle dev blockno bufs ≡ o
        → Freed dev blockno bufs o
        → Freed dev blockno (b ∷ bufs) (recycle dev blockno (b ∷ bufs))
    by_rest (some (x, bufs')) h
          (holds, (y, after, in_place, ref, clean, rest, id, valid, dirty, one)) =
        rw h (
          Holds-behind dev blockno b bufs x bufs' e holds,
          (
            y,
            after,
            Replaced-behind b bufs y after x bufs' in_place,
            ref,
            clean,
            rest,
            id,
            valid,
            dirty,
            one,
          ),
        )
    by_rest none h freed = elim (Bool-cases (is_free b)) [
      | inl f ↦
          let (unused, clean) = not_busy b f in
          rw (h, f)
            (
              (
                rw (==_refl dev, ==_refl blockno) refl,
                λ (first, rest). (λ used. lacks, rest),
                λ d n other (k, ks). (other, ks),
              ),
              (b, bufs, ([], refl, refl), unused, clean, freed, refl, refl, refl, refl),
            )
      | inr f ↦ rw (h, f) (busy b f, freed)
    ]

-- What bget leaves: a buffer with the block, in a list that still has each block once and in which no other
-- buffer has changed; or every buffer is busy.
abbrev pub Gets : ℕ → ℕ → Bcache → Type 0
Gets dev blockno c =
    ((x : Buf) × (bufs : List Buf) × (bget dev blockno c
        ≡ ok (x, record { locked = false; bufs = bufs }))
      × (x.dev ≡ dev)
      × (x.blockno ≡ blockno)
      × IsUnique bufs
      × (Hit dev blockno c.bufs x bufs
          ⊎ (Lacks dev blockno c.bufs × Recycled dev blockno c.bufs x bufs)))
    ⊎ ((bget dev blockno c ≡ panic "bget: no buffers")
        × Lacks dev blockno c.bufs
        × All IsBusy c.bufs)

recycles :
    (dev blockno : ℕ) (c : Bcache) (o : Option (Buf × List Buf))
    → c.locked ≡ false
    → IsUnique c.bufs
    → find_cached dev blockno c.bufs ≡ none
    → Lacks dev blockno c.bufs
    → recycle dev blockno c.bufs ≡ o
    → Freed dev blockno c.bufs o
    → Gets dev blockno c
unfolding bget acquire_bcache release_bcache
recycles dev blockno c none free unique e lacks f freed =
    inr (rw (◌>>=◌, ◌>>◌, free, e, f) refl, lacks, freed)
recycles dev blockno c (some (x, bufs)) free unique e lacks f ((key, keeps, other), recycled) =
    let (dev_same, blockno_same) = same_key dev blockno x key in
    inl (
      x,
      bufs,
      rw (◌>>=◌, ◌>>◌, free, e, f) refl,
      dev_same,
      blockno_same,
      keeps unique,
      inr (lacks, recycled),
    )

finds :
    (dev blockno : ℕ) (c : Bcache) (o : Option (Buf × List Buf))
    → c.locked ≡ false
    → IsUnique c.bufs
    → find_cached dev blockno c.bufs ≡ o
    → Cached dev blockno c.bufs o
    → Gets dev blockno c
unfolding bget acquire_bcache release_bcache
finds dev blockno c none free unique e lacks =
    recycles dev blockno c (recycle dev blockno c.bufs) free unique e lacks refl
      (recycle-Freed dev blockno c.bufs lacks)
finds dev blockno c (some (x, bufs)) free unique e ((key, keeps, other), hit) =
    let (dev_same, blockno_same) = same_key dev blockno x key in
    inl (x, bufs, rw (◌>>=◌, ◌>>◌, free, e) refl, dev_same, blockno_same, keeps unique, inl hit)

-- bget, up to its acquiresleep, on a cache whose lock is free and that has no block twice: it returns a
-- buffer for the block, and again no block is cached twice. The buffer is the one that had the block, with one
-- reference more and the rest as it was; or none had it, and it is the last buffer of the list without
-- references that is not dirty, now with the block, one reference, not valid and not dirty. Every other buffer
-- and the order stay. Or bget panics with no buffers, and then the block is not cached and every buffer has a
-- reference or is dirty.
pub bget-IsUnique :
    (dev blockno : ℕ) (c : Bcache) → c.locked ≡ false → IsUnique c.bufs → Gets dev blockno c
bget-IsUnique dev blockno c free unique =
    finds dev blockno c (find_cached dev blockno c.bufs) free unique refl
      (find_cached-Cached dev blockno c.bufs)

-- ===== src/Fs/Alloc.antt =====
-- fs.c: what balloc and bfree do to the free blocks.
use os_2024_project_vm.Base.{
  ℕ, suc, ◌+◌, ◌*◌, ◌/◌, ◌%◌, ◌<◌, ◌≡◌, ◌≢◌, ◌⊎◌, inl, inr, refl, sym, ap, ◌∙◌, Bool, true, false,
  ◌||◌, ok, panic, arith, ◌==◌, ==_refl, ==_ne, Bool-cases, ◌>>=◌, ◌>>◌, if◌then◌else◌, pure,
}
use os_2024_project_vm.Memory.{update}
use os_2024_project_vm.Blocks.{Block, Disk}
use os_2024_project_vm.Log.Absorb.{logged}
use os_2024_project_vm.Fs.State.{SuperBlock, Fs, bpb, bblock, bread, write_buf}
use os_2024_project_vm.Fs.Bitmap.{is_clear, mark, unmark, bzero, take_block, balloc, bfree}
use os_2024_project_vm.Fs.Room.{Room, Wrote, write_buf-Wrote}
use os_2024_project_vm.Fs.Marks.{
  is_free_block, is_clear-mark_self, is_clear-mark_other, is_clear-unmark_self,
  is_clear-unmark_other,
}
use os_2024_project_vm.Fs.Search.{NoneFree, balloc-Search}

-- The bit of block `c` in the bitmap of the blocks `view`.
abbrev bit_clear : Disk → SuperBlock → ℕ → Bool
bit_clear view sb c = is_clear (view (bblock c sb)) (c % bpb)

is_free_block-view :
    (s s' : Fs) (view : Disk) (c : ℕ)
    → s'.sb ≡ s.sb
    → s'.log.blocks.view ≡ view
    → is_free_block c s' ≡ bit_clear view s.sb c
unfolding is_free_block
is_free_block-view s s' view c e v = rw (e, v) refl

-- A write of the bit of block `b` with value `v` is no write of another bit.
bit_clear-write :
    (f : Block → ℕ → Block) (v : Bool)
    → ((d : Block) (bi : ℕ) → is_clear (f d bi) bi ≡ v)
    → ((d : Block) (bi bj : ℕ) → bi ≢ bj → is_clear (f d bi) bj ≡ is_clear d bj)
    → (view : Disk) (sb : SuperBlock) (b c : ℕ)
    → bit_clear (update view (bblock b sb) (f (view (bblock b sb)) (b % bpb))) sb c
      ≡ (if b == c then v else bit_clear view sb c)
bit_clear-write f v self other view sb b c = elim (Bool-cases (b == c)) [
  | inl e ↦ rw (e, sym (at b c e), ==_refl (bblock b sb)) (self (view (bblock b sb)) (b % bpb))
  | inr e ↦ rw e (elim (Bool-cases (bblock b sb == bblock c sb)) [
    | inr f ↦ rw f refl
    | inl g ↦
        rw (g, at (bblock b sb) (bblock c sb) g)
          (other (view (bblock c sb)) (b % bpb) (c % bpb)
            (apart b c e (at (bblock b sb) (bblock c sb) g)))
  ])
]
  where
    at : (a b : ℕ) → a == b ≡ true → a ≡ b
    at a b e = ground arith

    apart : (b c : ℕ) → b == c ≡ false → bblock b sb ≡ bblock c sb → b % bpb ≢ c % bpb
    apart b c e g h = ground arith

-- The blocks that hold the bitmap are in use.
abbrev pub HoldsBitmap : Fs → Type 0
HoldsBitmap s = (c : ℕ) → c < s.sb.size → is_free_block (bblock c s.sb) s ≡ false

-- Block `c` is in the log.
abbrev pub is_logged : ℕ → Fs → Bool
is_logged c s = logged s.log.lh.n s.log.lh.block c

-- `b` is taken on the disk: its bit alone is set, it is zero, no other block but its bitmap block changes, and
-- these two and no others enter the log, which has room for `k` more.
abbrev pub TakenOnDisk : ℕ → ℕ → Fs → Fs → Type 0
TakenOnDisk k b s s' =
    ((c : ℕ) → c < s.sb.size → is_free_block c s' ≡ (if b == c then false else is_free_block c s))
    × ((i : ℕ) → bread b s' i ≡ 0)
    × ((c : ℕ) → c ≢ b → c ≢ bblock b s.sb → bread c s' ≡ bread c s)
    × ((c : ℕ) → is_logged c s' ≡ (b == c) || ((bblock b s.sb == c) || is_logged c s))
    × (s'.sb ≡ s.sb)
    × Room k s'.log

-- The inodes stay as they were.
abbrev pub Taken : ℕ → ℕ → Fs → Fs → Type 0
Taken k b s s' = TakenOnDisk k b s s' × (s'.inodes ≡ s.inodes)

-- A free block does not hold the bitmap.
not_bitmap :
    (b c : ℕ) (s : Fs)
    → HoldsBitmap s
    → is_free_block b s ≡ true
    → c < s.sb.size
    → (b == bblock c s.sb) ≡ false
not_bitmap b c s holds free l = elim (Bool-cases (b == bblock c s.sb)) [
  | inr e ↦ e
  | inl e ↦ absurd (differ (sym free ∙ ap (λ n. is_free_block n s) (same e) ∙ holds c l))
]
  where
    same : b == bblock c s.sb ≡ true → b ≡ bblock c s.sb
    same e = ground arith

    differ : true ≢ false
    differ e = ground arith

abbrev marked : ℕ → Fs → Disk
marked b s = update s.log.blocks.view (bblock b s.sb) (mark (bread (bblock b s.sb) s) (b % bpb))

bit_clear-marked :
    (b c : ℕ) (s : Fs)
    → (b == bblock c s.sb) ≡ false
    → bit_clear (update (marked b s) b (λ _. 0)) s.sb c
      ≡ (if b == c then false else is_free_block c s)
unfolding is_free_block
bit_clear-marked b c s e =
    rw e
      (bit_clear-write mark false is_clear-mark_self is_clear-mark_other s.log.blocks.view s.sb b c)

writes-Taken :
    (k b : ℕ) (s t u : Fs)
    → HoldsBitmap s
    → is_free_block b s ≡ true
    → Wrote (suc k) (bblock b s.sb) (mark (bread (bblock b s.sb) s) (b % bpb)) s t
    → Wrote k b (λ _. 0) t u
    → Taken k b s u
writes-Taken k b s t u holds free (t_sb, t_inodes, t_view, t_added, t_room)
      (u_sb, u_inodes, u_view, u_added, u_room) =
    (
      (
        λ c l.
            is_free_block-view s u (update (marked b s) b (λ _. 0)) c (u_sb ∙ t_sb) view
            ∙ bit_clear-marked b c s (not_bitmap b c s holds free l),
        λ i. ap (λ v. v b i) view ∙ zeroed i,
        λ c n m. ap (λ v. v c) view ∙ kept c n m,
        λ c. u_added.1 c ∙ ap (λ v. (b == c) || v) (t_added.1 c),
        u_sb ∙ t_sb,
        u_room,
      ),
      u_inodes ∙ t_inodes,
    )
  where
    view : u.log.blocks.view ≡ update (marked b s) b (λ _. 0)
    view = u_view ∙ ap (λ v. update v b (λ _. 0)) t_view

    zeroed : (i : ℕ) → update (marked b s) b (λ _. 0) b i ≡ 0
    zeroed i = rw (==_refl b) refl

    kept : (c : ℕ) → c ≢ b → c ≢ bblock b s.sb → update (marked b s) b (λ _. 0) c ≡ bread c s
    kept c n m = rw (==_ne b c (λ e. n (sym e)), ==_ne (bblock b s.sb) c (λ e. m (sym e))) refl

take_block_lem :
    (q bi : ℕ) (s : Fs)
    → bi < bpb
    → take_block (q * bpb) bi s
      ≡ (do
        write_buf
            (bblock (q * bpb + bi) s.sb)
            (mark (bread (bblock (q * bpb + bi) s.sb) s) ((q * bpb + bi) % bpb))
        bzero (q * bpb + bi)
        pure (q * bpb + bi))
          s
unfolding take_block
take_block_lem q bi s lt = rw (block q bi lt, offset q bi lt) refl
  where
    block : (q bi : ℕ) → bi < bpb → (q * bpb + bi) / bpb ≡ q * bpb / bpb
    block q bi lt = omega arith

    offset : (q bi : ℕ) → bi < bpb → (q * bpb + bi) % bpb ≡ bi
    offset q bi lt = omega arith

mark_and_zero-Taken :
    (k b : ℕ) (s : Fs)
    → Room (suc (suc k)) s.log
    → HoldsBitmap s
    → is_free_block b s ≡ true
    → (s' : Fs) × ((do
      write_buf (bblock b s.sb) (mark (bread (bblock b s.sb) s) (b % bpb))
      bzero b
      pure b)
          s
        ≡ ok (b, s'))
      × Taken k b s s'
unfolding bzero
mark_and_zero-Taken k b s room holds free =
    let bb = bblock b s.sb in
    let (t, returned, wrote) = write_buf-Wrote (suc k) bb (mark (bread bb s) (b % bpb)) s room in
    let (u, returned', wrote') = write_buf-Wrote k b (λ _. 0) t wrote.4 in
    (u, rw (◌>>=◌, ◌>>◌, returned, returned') refl, writes-Taken k b s t u holds free wrote wrote')

-- In a transaction with room for two blocks and with the bitmap's own blocks in use, balloc takes the lowest
-- free block of the disk: it returns its number, sets its bit and no other, zeroes it, changes no other block
-- but the bitmap block of its bit, enters these two blocks and no others into the log, and keeps the super block
-- and the inodes. If there is no free block, it panics.
pub balloc-Taken :
    (k : ℕ) (s : Fs)
    → Room (suc (suc k)) s.log
    → HoldsBitmap s
    → ((b : ℕ) × (b < s.sb.size)
        × (is_free_block b s ≡ true)
        × NoneFree s 0 b
        × ((s' : Fs) × (balloc s ≡ ok (b, s')) × Taken k b s s'))
      ⊎ (NoneFree s 0 s.sb.size × (balloc s ≡ panic "balloc: out of blocks"))
balloc-Taken k s room holds = elim (balloc-Search s) [
  | inr vain ↦ inr vain
  | inl (q, bi, lt, fits, free, before, e) ↦
      let (s', returned, taken) = mark_and_zero-Taken k (q * bpb + bi) s room holds free in
      inl (q * bpb + bi, fits, free, before, (s', e ∙ take_block_lem q bi s lt ∙ returned, taken))
]

-- bfree of a block in use, in a transaction with room for a block, sets the bit of that block alone free,
-- changes no block but its bitmap block, and enters that one and no other into the log; bfree of a free block
-- panics.
pub bfree-Freed :
    (k b : ℕ) (s : Fs)
    → Room (suc k) s.log
    → ((is_free_block b s ≡ true) × (bfree b s ≡ panic "freeing free block"))
      ⊎ ((s' : Fs) × (is_free_block b s ≡ false)
          × (bfree b s ≡ ok (tt, s'))
          × ((c : ℕ) → is_free_block c s' ≡ (b == c) || is_free_block c s)
          × ((c : ℕ) → c ≢ bblock b s.sb → bread c s' ≡ bread c s)
          × ((c : ℕ) → is_logged c s' ≡ (bblock b s.sb == c) || is_logged c s)
          × (s'.sb ≡ s.sb)
          × (s'.inodes ≡ s.inodes)
          × Room k s'.log)
unfolding bfree is_free_block
bfree-Freed k b s room = elim (Bool-cases (is_free_block b s)) [
  | inl e ↦ inl (e, rw e refl)
  | inr e ↦
      let bb = bblock b s.sb in
      let (t, returned, (t_sb, t_inodes, t_view, t_added, t_room)) =
        write_buf-Wrote k bb (unmark (bread bb s) (b % bpb)) s room in
      inr (
        t,
        e,
        rw (e, returned) refl,
        λ c.
            is_free_block-view s t (update s.log.blocks.view bb (unmark (bread bb s) (b % bpb))) c
              t_sb t_view
            ∙ bit_clear-write unmark true is_clear-unmark_self is_clear-unmark_other
                s.log.blocks.view s.sb b c
            ∙ either (b == c) (is_free_block c s),
        λ c n. ap (λ v. v c) t_view ∙ ground (arith, n),
        t_added.1,
        t_sb,
        t_inodes,
        t_room,
      )
]
  where
    either : (x y : Bool) → (if x then true else y) ≡ x || y
    either true y = refl
    either false y = refl

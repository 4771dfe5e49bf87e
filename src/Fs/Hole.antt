-- ===== src/Fs/Hole.antt =====
-- fs.c: bmap of a direct block, which may be missing.
use os_2024_project_vm.Base.{
  ℕ, suc, ◌<◌, ◌≡◌, ◌≢◌, ◌⊎◌, inl, inr, refl, sym, ap, ◌∙◌, true, false, ok, panic, arith, ltb,
  lt→ltb, ◌==◌, ==_refl, ==_ne, Bool-cases, ◌>>=◌, ◌>>◌,
}
use os_2024_project_vm.Fs.State.{Fs, ndirect, set_inode}
use os_2024_project_vm.Fs.Bitmap.{balloc}
use os_2024_project_vm.Fs.Content.{set_addr, bmap_direct, bmap}
use os_2024_project_vm.Fs.Room.{Room}
use os_2024_project_vm.Fs.Marks.{is_free_block}
use os_2024_project_vm.Fs.Search.{NoneFree}
use os_2024_project_vm.Fs.Alloc.{HoldsBitmap, Taken, TakenOnDisk, balloc-Taken}
use os_2024_project_vm.Fs.FileBytes.{bmap_direct-ok}

-- Block `b` has become the block `bn` of inode `ip`, and nothing else of the inodes has changed.
abbrev pub Entered : ℕ → ℕ → ℕ → Fs → Fs → Type 0
Entered ip bn b s t =
    ((t.inodes ip).addrs bn ≡ b)
    × ((k : ℕ) → k ≢ bn → (t.inodes ip).addrs k ≡ (s.inodes ip).addrs k)
    × (record (t.inodes ip) { addrs = (s.inodes ip).addrs } ≡ s.inodes ip)
    × ((j : ℕ) → j ≢ ip → t.inodes j ≡ s.inodes j)

-- bmap has taken `b`, the lowest free block, for block `bn`, and goes on to find it there.
abbrev pub Fills : ℕ → ℕ → ℕ → Fs → ℕ → Fs → Type 0
Fills k ip bn s b t =
    (b < s.sb.size)
    × (is_free_block b s ≡ true)
    × NoneFree s 0 b
    × (bmap ip bn s ≡ ok (b, t))
    × TakenOnDisk k b s t
    × Entered ip bn b s t
    × (bmap ip bn t ≡ ok (b, t))

-- What bmap makes of block `bn` of inode `ip`.
abbrev pub Mapped : ℕ → ℕ → ℕ → Fs → Type 0
Mapped k ip bn s =
    (((s.inodes ip).addrs bn ≢ 0) × (bmap ip bn s ≡ ok ((s.inodes ip).addrs bn, s)))
    ⊎ (((s.inodes ip).addrs bn ≡ 0)
        × (((b : ℕ) × (t : Fs) × Fills k ip bn s b t)
            ⊎ (NoneFree s 0 s.sb.size × (bmap ip bn s ≡ panic "balloc: out of blocks"))))

abbrev with_block : ℕ → ℕ → ℕ → Fs → Fs
with_block ip bn b t = set_inode ip (set_addr bn b (t.inodes ip)) t

with_block-Entered :
    (ip bn b : ℕ) (s t : Fs) → t.inodes ≡ s.inodes → Entered ip bn b s (with_block ip bn b t)
with_block-Entered ip bn b s t same = (
  rw (==_refl ip, ==_refl bn) refl,
  λ k n. rw (==_refl ip, ==_ne bn k (λ e. n (sym e)), same) refl,
  rw (==_refl ip, same) refl,
  λ j n. rw (==_ne ip j (λ e. n (sym e)), same) refl,
)

with_block-TakenOnDisk :
    (k ip bn b : ℕ) (s t : Fs) → TakenOnDisk k b s t → TakenOnDisk k b s (with_block ip bn b t)
unfolding is_free_block
with_block-TakenOnDisk k ip bn b s t taken = taken

bmap-there :
    (ip bn : ℕ) (s : Fs)
    → bn < ndirect
    → (s.inodes ip).addrs bn ≢ 0
    → bmap ip bn s ≡ ok ((s.inodes ip).addrs bn, s)
unfolding bmap
bmap-there ip bn s direct ne = rw (lt→ltb bn ndirect direct) (bmap_direct-ok ip bn s ne)

module _ (ip bn : ℕ) (s : Fs) (direct : ltb bn ndirect ≡ true)
    (hole : ((s.inodes ip).addrs bn == 0) ≡ true) where
  bmap-taken : (b : ℕ) (t : Fs) → balloc s ≡ ok (b, t) → bmap ip bn s ≡ ok (b, with_block ip bn b t)
  unfolding bmap bmap_direct
  bmap-taken b t e = rw (bmap, direct, bmap_direct, hole, ◌>>=◌, ◌>>◌, e) refl

  bmap-panics :
      balloc s ≡ panic "balloc: out of blocks" → bmap ip bn s ≡ panic "balloc: out of blocks"
  unfolding bmap bmap_direct
  bmap-panics e = rw (bmap, direct, bmap_direct, hole, ◌>>=◌, ◌>>◌, e) refl

-- Block 0 is in use, so it is not taken.
not_zero : (b : ℕ) (s : Fs) → is_free_block 0 s ≡ false → is_free_block b s ≡ true → b ≢ 0
not_zero b s used free e = differ (sym used ∙ ap (λ c. is_free_block c s) (sym e) ∙ free)
  where
    differ : false ≢ true
    differ e = ground arith

fills :
    (k ip bn b : ℕ) (s t : Fs)
    → bn < ndirect
    → is_free_block 0 s ≡ false
    → ((s.inodes ip).addrs bn == 0) ≡ true
    → b < s.sb.size
    → is_free_block b s ≡ true
    → NoneFree s 0 b
    → balloc s ≡ ok (b, t)
    → Taken k b s t
    → Fills k ip bn s b (with_block ip bn b t)
fills k ip bn b s t direct used hole fits free before returned (taken, same) =
    let u : Fs = with_block ip bn b t in
    let entered : Entered ip bn b s u = with_block-Entered ip bn b s t same in
    (
      fits,
      free,
      before,
      bmap-taken ip bn s (lt→ltb bn ndirect direct) hole b t returned,
      with_block-TakenOnDisk k ip bn b s t taken,
      entered,
      bmap-there ip bn u direct (λ e. not_zero b s used free (sym entered.0 ∙ e))
          ∙ ap (λ a. ok (a, u)) entered.0,
    )

-- bmap of a direct block, in a transaction with room for two blocks, with the bitmap's own blocks and block 0
-- in use: a block that the file has is returned, and nothing changes; for one that it does not have, the
-- lowest free block of the disk is taken, zeroed and returned, the inode has it as that block afterwards and
-- is as it was otherwise, as is every other inode, and bmap, called again, returns the same block and changes
-- nothing; or no block is free, and bmap panics.
pub bmap-Mapped :
    (k ip bn : ℕ) (s : Fs)
    → bn < ndirect
    → Room (suc (suc k)) s.log
    → HoldsBitmap s
    → is_free_block 0 s ≡ false
    → Mapped k ip bn s
bmap-Mapped k ip bn s direct room holds used = elim (Bool-cases ((s.inodes ip).addrs bn == 0)) [
  | inr there ↦ let ne = not_hole there in inl (ne, bmap-there ip bn s direct ne)
  | inl hole ↦ inr (
    is_hole hole,
    elim (balloc-Taken k s room holds) [
      | inl (b, fits, free, before, (t, returned, taken)) ↦ inl (
        b,
        with_block ip bn b t,
        fills k ip bn b s t direct used hole fits free before returned taken,
      )
      | inr (vain, panics) ↦ inr (vain, bmap-panics ip bn s (lt→ltb bn ndirect direct) hole panics)
    ],
  )
]
  where
    is_hole : {a : ℕ} → (a == 0) ≡ true → a ≡ 0
    is_hole e = ground arith

    not_hole : {a : ℕ} → (a == 0) ≡ false → a ≢ 0
    not_hole e = ground arith

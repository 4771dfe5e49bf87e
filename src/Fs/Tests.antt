-- ===== src/Fs/Tests.antt =====
-- Tests of the model of fs.c, and the theorems at concrete inputs.
use os_2024_project_vm.Base.{
  ℕ, zero, suc, ◌+◌, ◌*◌, ◌/◌, ◌^◌, ◌≤◌, ◌<◌, ◌≡◌, ◌≢◌, ◌⊎◌, inl, inr, Bool-cases, ltb, refl, sym,
  ap, ◌∙◌, true, false, ◌||◌, Option, ok, panic, arith, ◌==◌,
}
use os_2024_project_vm.Memory.{update}
use os_2024_project_vm.Strings.{Bytes, strncmp}
use os_2024_project_vm.Fs.Hole.{Mapped, bmap-Mapped}
use os_2024_project_vm.Fs.Example.{an_fs, an_fs-HasBlock}
use os_2024_project_vm.Fs.State.{Fs, ninode, bread, bit_of, byte_of}
use os_2024_project_vm.Fs.Bitmap.{balloc, bfree}
use os_2024_project_vm.Fs.Inode.{iget, is_inode}
use os_2024_project_vm.Fs.Content.{fails, counts, readi, writei}
use os_2024_project_vm.Fs.Path.{skipelem}
use os_2024_project_vm.Fs.Dir.{namecmp, dirlookup}
use os_2024_project_vm.Fs.Lookup.{IsDirectory, is_match, FirstMatch, dirlookup-FirstMatch}
use os_2024_project_vm.Fs.Kept.{IsApart}
use os_2024_project_vm.Fs.Write.{Written, writei-Written}
use os_2024_project_vm.Fs.Room.{Room}
use os_2024_project_vm.Fs.Marks.{is_free_block}
use os_2024_project_vm.Fs.Search.{NoneFree}
use os_2024_project_vm.Fs.Alloc.{HoldsBitmap, Taken, is_logged, balloc-Taken, bfree-Freed}
use os_2024_project_vm.Fs.Cache.{HoldsOnce, Got, iget-Got}
use os_2024_project_vm.Fs.Names.{Element, skipelem-Element}
use os_2024_project_vm.Fs.FileBytes.{HasBlock, addr_of, file_byte}
use os_2024_project_vm.Fs.Read.{with_bytes, to_read, readi-Reads}

an_fs-Room : (k : ℕ) → k ≤ 30 → Room k an_fs.log
an_fs-Room k le = (refl, omega arith, omega arith, omega arith, λ i j l g. absurd (omega arith))

an_fs-HoldsBitmap : HoldsBitmap an_fs
unfolding is_free_block bit_of
an_fs-HoldsBitmap c l = ap (λ b. is_free_block b an_fs) (same c l)
  where
    same : (c : ℕ) → c < 40 → c / 4096 + 5 ≡ 5
    same c l = omega arith

balloc-Taken_example :
    ((b : ℕ) × (b < 40)
      × (is_free_block b an_fs ≡ true)
      × NoneFree an_fs 0 b
      × ((s' : Fs) × (balloc an_fs ≡ ok (b, s')) × Taken 3 b an_fs s'))
    ⊎ (NoneFree an_fs 0 40 × (balloc an_fs ≡ panic "balloc: out of blocks"))
balloc-Taken_example = balloc-Taken 3 an_fs (an_fs-Room 5 (omega arith)) an_fs-HoldsBitmap

-- Block 2 of inode 0 is a hole.
bmap-Mapped_example : Mapped 3 0 2 an_fs
unfolding is_free_block bit_of
bmap-Mapped_example =
    bmap-Mapped 3 0 2 an_fs (omega arith) (an_fs-Room 5 (omega arith)) an_fs-HoldsBitmap refl

bfree-Freed_example :
    ((is_free_block 8 an_fs ≡ true) × (bfree 8 an_fs ≡ panic "freeing free block"))
    ⊎ ((s' : Fs) × (is_free_block 8 an_fs ≡ false)
        × (bfree 8 an_fs ≡ ok (tt, s'))
        × ((c : ℕ) → is_free_block c s' ≡ (8 == c) || is_free_block c an_fs)
        × ((c : ℕ) → c ≢ 5 → bread c s' ≡ bread c an_fs)
        × ((c : ℕ) → is_logged c s' ≡ (5 == c) || is_logged c an_fs)
        × (s'.sb ≡ an_fs.sb)
        × (s'.inodes ≡ an_fs.inodes)
        × Room 3 s'.log)
bfree-Freed_example = bfree-Freed 3 8 an_fs (an_fs-Room 4 (omega arith))

an_fs-HoldsOnce : HoldsOnce an_fs
an_fs-HoldsOnce i j li lj p q d n = only i p ∙ sym (only j q)
  where
    only : (i : ℕ) → 0 < (an_fs.inodes i).ref → i ≡ 0
    only i p = ground arith

iget-Got_example :
    ((ip : ℕ) × (s' : Fs) × (iget 1 2 an_fs ≡ ok (ip, s')) × Got 1 2 ip an_fs s')
    ⊎ ((iget 1 2 an_fs ≡ panic "iget: no inodes")
        × ((j : ℕ)
            → j < ninode
            → (is_inode (an_fs.inodes j) 1 2 ≡ false) × ((an_fs.inodes j).ref ≢ 0)))
iget-Got_example = iget-Got 1 2 an_fs an_fs-HoldsOnce

-- "/ab//c" at 100
abbrev a_path : Bytes
a_path =
    update (update (update (update (update (update (λ a. 0) 100 47) 101 97) 102 98) 103 47) 104 47)
      105 99

skipelem-Element_example :
    (r : Option ℕ) × (mem' : Bytes) × (skipelem 10 100 200 a_path ≡ ok (r, mem'))
    × Element a_path 100 106 200 r mem'
skipelem-Element_example =
    skipelem-Element 10 a_path 100 106 200 refl (omega arith) (omega arith) (inr (omega arith))

readi-Reads_example :
    (700 < 510 → readi (λ m. false) 0 a_path 300 510 4 an_fs ≡ ok ((fails, a_path), an_fs))
    × (2 ^ 32 ≤ 510 + 4 → readi (λ m. false) 0 a_path 300 510 4 an_fs ≡ ok ((fails, a_path), an_fs))
    × (510 ≤ 700
        → 510 + 4 < 2 ^ 32
        → (mem' : Bytes) × (readi (λ m. false) 0 a_path 300 510 4 an_fs
            ≡ ok ((counts (to_read 700 510 4), mem'), an_fs))
          × ((a : ℕ)
              → mem' a ≡ with_bytes (file_byte 0 an_fs) 510 300 (to_read 700 510 4) a_path a))
readi-Reads_example =
    readi-Reads (λ m. false) 0 a_path 300 510 4 an_fs (λ e. absurd (omega (arith, e)))
      an_fs-HasBlock (omega arith) (omega arith)

-- Block 9 is the lowest free block.
free_9 : is_free_block 9 an_fs ≡ true
unfolding is_free_block bit_of
free_9 = refl

used_8 : is_free_block 8 an_fs ≡ false
unfolding is_free_block bit_of
used_8 = refl

-- A directory in block 8 whose second entry is "a", for inode 2.
abbrev a_directory_fs : Fs
a_directory_fs = record an_fs {
  log = record an_fs.log {
    blocks = record an_fs.log.blocks {
      view = update an_fs.log.blocks.view 8 (update (λ i. 0) 4 (2 + 97 * 2 ^ 16));
    };
  };
  inodes =
      update an_fs.inodes 0
        (record (an_fs.inodes 0) { inum = 1; type = 1; size = 32; addrs = update (λ k. 0) 0 8 });
}

a_directory_fs-IsDirectory : IsDirectory 0 a_directory_fs
a_directory_fs-IsDirectory = (refl, refl, omega arith, has)
  where
    has : (bn : ℕ) → bn * 512 < 32 → HasBlock 0 a_directory_fs bn
    has zero l = (omega arith, λ e. absurd (omega (arith, e)), λ m. absurd (omega arith))
    has (suc bn) l = absurd (omega arith)

-- "a" at 50
abbrev an_a : Bytes
an_a = update (λ a. 0) 50 97

second_matches : is_match 1000 0 a_directory_fs an_a 50 16 ≡ true
unfolding namecmp byte_of strncmp
second_matches = refl

dirlookup-FirstMatch_example :
    FirstMatch 1000 0 50 an_a a_directory_fs 0
      (dirlookup (λ m. false) 1000 0 an_a 50 a_directory_fs)
dirlookup-FirstMatch_example =
    dirlookup-FirstMatch (λ m. false) 1000 0 50 an_a a_directory_fs a_directory_fs-IsDirectory

an_fs-blocks : (b : ℕ) → HasBlock 0 an_fs b → (b ≡ 0) ⊎ (b ≡ 1)
an_fs-blocks zero h = inl refl
an_fs-blocks (suc zero) h = inr refl
an_fs-blocks (suc (suc b)) (low, there, table) = elim (Bool-cases (ltb (suc (suc b)) 12)) [
  | inl e ↦ absurd (there (rw e (direct b)))
  | inr e ↦ absurd (table (ground arith) refl)
]
  where
    direct : (b : ℕ) → (an_fs.inodes 0).addrs (suc (suc b)) ≡ 0
    direct b = ground arith

differ : (a b : ℕ) → a < b → a ≢ b
differ a b lt e = absurd (omega (arith, e))

an_fs-IsApart : IsApart 0 an_fs
an_fs-IsApart = (
  λ b c hb hc. distinct b c (an_fs-blocks b hb) (an_fs-blocks c hc),
  λ b hb. no_table b (an_fs-blocks b hb),
)
  where
    distinct :
        (b c : ℕ)
        → (b ≡ 0) ⊎ (b ≡ 1)
        → (c ≡ 0) ⊎ (c ≡ 1)
        → addr_of 0 b an_fs ≡ addr_of 0 c an_fs
        → b ≡ c
    distinct b c (inl p) (inl q) e = p ∙ sym q
    distinct b c (inr p) (inr q) e = p ∙ sym q
    distinct b c (inl p) (inr q) e = absurd (
        differ 7 8 (omega arith)
          (ap (λ x. addr_of 0 x an_fs) (sym p) ∙ e ∙ ap (λ x. addr_of 0 x an_fs) q))
    distinct b c (inr p) (inl q) e = absurd (
        differ 7 8 (omega arith)
          (ap (λ x. addr_of 0 x an_fs) (sym q) ∙ sym e ∙ ap (λ x. addr_of 0 x an_fs) p))

    no_table : (b : ℕ) → (b ≡ 0) ⊎ (b ≡ 1) → addr_of 0 b an_fs ≢ 0
    no_table b (inl p) e = differ 0 7 (omega arith) (sym e ∙ ap (λ x. addr_of 0 x an_fs) p)
    no_table b (inr p) e = differ 0 8 (omega arith) (sym e ∙ ap (λ x. addr_of 0 x an_fs) p)

-- Four bytes across the end of a block.
writei-Written_example :
    (u : Fs) × (writei (λ m. false) 0 (λ a. 65) 300 510 4 an_fs ≡ ok (counts 4, u))
    × Written 0 (λ a. 65) 300 510 4 an_fs u
writei-Written_example =
    writei-Written (λ m. false) 2 0 (λ a. 65) 300 510 4 an_fs (λ e. absurd (omega (arith, e)))
      (λ a. omega arith) (omega arith) (omega arith) an_fs-HasBlock an_fs-IsApart
      (an_fs-Room 2 (omega arith)) (omega arith)

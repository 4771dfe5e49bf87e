-- ===== src/Blocks.antt =====
-- What the buffer cache of bio.c promises its callers (its interface comment): a block reads as it was last
-- left, and bwrite puts it on the disk.
use os_2024_project_vm.Base.{ℕ, Bool, true, false, List, [], ◌∷◌}
use os_2024_project_vm.Memory.{update}

-- A block as its 128 words.
abbrev pub Block : Type 0
Block = ℕ → ℕ

abbrev pub Disk : Type 0
Disk = ℕ → Block

-- `view` is what bread returns for each block, `disk` what is on the disk. `past` are the earlier contents
-- of the disk, newest first: the disks that a crash may have left. `pinned` is B_DIRTY.
pub record Blocks : Type 0 where
  pub view : Disk
  pub disk : Disk
  pub past : List Disk
  pub pinned : ℕ → Bool

-- bwrite of the buffer of block `b`, whose data has become `d`
unfoldable pub write_block : ℕ → Block → Blocks → Blocks
write_block b d s = record s {
  view = update s.view b d;
  disk = update s.disk b d;
  past = s.disk ∷ s.past;
  pinned = update s.pinned b false;
}

unfoldable pub pin : ℕ → Blocks → Blocks
pin b s = record s { pinned = update s.pinned b true }

-- After a restart the disk is all there is.
unfoldable pub restart : Disk → Blocks
restart d = record { view = d; disk = d; past = []; pinned = λ b. false }

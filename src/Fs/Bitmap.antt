-- ===== src/Fs/Bitmap.antt =====
-- fs.c: balloc and bfree, on the bitmap of free blocks.
use os_2024_project_vm.Base.{
  ℕ, zero, suc, ◌+◌, ◌/◌, ◌%◌, Bool, Option, none, some, panic, out_of_fuel, M, pure, ◌>>◌, ltb,
  ◌==◌, if◌then◌else◌,
}
use os_2024_project_vm.Memory.{update}
use os_2024_project_vm.Blocks.{Block}
use os_2024_project_vm.Fs.State.{Fs, bpb, bblock, bread, write_buf, bit_of, set_bit, clear_bit}

-- `(bp->data[bi/8] & m) == 0`, and `|= m` and `&= ~m`
abbrev pub is_clear : Block → ℕ → Bool
is_clear d bi = bit_of (d (bi / 32)) (bi % 32) == 0

abbrev pub mark : Block → ℕ → Block
mark d bi = update d (bi / 32) (set_bit (d (bi / 32)) (bi % 32))

abbrev pub unmark : Block → ℕ → Block
unmark d bi = update d (bi / 32) (clear_bit (d (bi / 32)) (bi % 32))

-- memset of the data to 0, and log_write
unfoldable pub bzero : ℕ → M Fs (Unit {0})
bzero bno = write_buf bno (λ _. 0)

-- The inner loop of balloc from bit `bi` on, with `left` bits of the block to look at: the first free block.
unfoldable pub find_clear : Block → ℕ → ℕ → ℕ → ℕ → Option ℕ
find_clear d b size zero bi = none
find_clear d b size (suc left) bi =
    let rest = find_clear d b size left (bi + 1) in
    if ltb (b + bi) size then (if is_clear d bi then some bi else rest) else none

-- Its body for the free bit `bi`.
unfoldable pub take_block : ℕ → ℕ → M Fs ℕ
take_block b bi s =
    (do
      write_buf (bblock b s.sb) (mark (bread (bblock b s.sb) s) bi)
      bzero (b + bi)
      pure (b + bi))
      s

-- The outer loop from block `b` on, with at most `rounds` blocks of the bitmap.
unfoldable pub balloc_loop : ℕ → ℕ → M Fs ℕ
balloc_loop zero b s = out_of_fuel
balloc_loop (suc rounds) b s =
    let next = balloc_loop rounds (b + bpb) s in
    if ltb b s.sb.size
    then elim (find_clear (bread (bblock b s.sb) s) b s.sb.size bpb 0) [
      | some bi ↦ take_block b bi s
      | none ↦ next
    ]
    else panic "balloc: out of blocks"

-- One round for each block of the bitmap, and one to leave the loop.
unfoldable pub balloc : M Fs ℕ
balloc s = balloc_loop (s.sb.size / bpb + 2) 0 s

unfoldable pub bfree : ℕ → M Fs (Unit {0})
bfree b s =
    if is_clear (bread (bblock b s.sb) s) (b % bpb)
    then panic "freeing free block"
    else write_buf (bblock b s.sb) (unmark (bread (bblock b s.sb) s) (b % bpb)) s

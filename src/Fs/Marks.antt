-- ===== src/Fs/Marks.antt =====
-- fs.c: the bits of the bitmap, one of which balloc or bfree changes.
use os_2024_project_vm.Base.{
  ℕ, ◌/◌, ◌%◌, ◌≡◌, ◌≢◌, inl, inr, refl, Bool, true, false, arith, ◌==◌, ==_refl, Bool-cases,
}
use os_2024_project_vm.Blocks.{Block}
use os_2024_project_vm.Fs.State.{Fs, bpb, bblock, bread}
use os_2024_project_vm.Fs.Bitmap.{is_clear, mark, unmark}
use os_2024_project_vm.Fs.Bits.{
  bit_of-set_bit_self, bit_of-set_bit_other, bit_of-clear_bit_self, bit_of-clear_bit_other,
}

-- Block `b` is free in the bitmap.
unfoldable pub is_free_block : ℕ → Fs → Bool
is_free_block b s = is_clear (bread (bblock b s.sb) s) (b % bpb)

pub is_clear-mark_self : (d : Block) (bi : ℕ) → is_clear (mark d bi) bi ≡ false
is_clear-mark_self d bi = rw (==_refl (bi / 32), bit_of-set_bit_self (d (bi / 32)) (bi % 32)) refl

pub is_clear-unmark_self : (d : Block) (bi : ℕ) → is_clear (unmark d bi) bi ≡ true
is_clear-unmark_self d bi =
    rw (==_refl (bi / 32), bit_of-clear_bit_self (d (bi / 32)) (bi % 32)) refl

same_word : (bi bj : ℕ) → bi ≢ bj → bi / 32 ≡ bj / 32 → bi % 32 ≢ bj % 32
same_word bi bj ne e f = ne (omega arith)

pub is_clear-mark_other :
    (d : Block) (bi bj : ℕ) → bi ≢ bj → is_clear (mark d bi) bj ≡ is_clear d bj
is_clear-mark_other d bi bj ne = elim (Bool-cases (bi / 32 == bj / 32)) [
  | inl e ↦
      rw
        (
          e,
          at e,
          bit_of-set_bit_other (d (bj / 32)) (bi % 32) (bj % 32) (same_word bi bj ne (at e)),
        )
        refl
  | inr e ↦ rw e refl
]
  where
    at : bi / 32 == bj / 32 ≡ true → bi / 32 ≡ bj / 32
    at e = ground arith

pub is_clear-unmark_other :
    (d : Block) (bi bj : ℕ) → bi ≢ bj → is_clear (unmark d bi) bj ≡ is_clear d bj
is_clear-unmark_other d bi bj ne = elim (Bool-cases (bi / 32 == bj / 32)) [
  | inl e ↦
      rw
        (
          e,
          at e,
          bit_of-clear_bit_other (d (bj / 32)) (bi % 32) (bj % 32) (same_word bi bj ne (at e)),
        )
        refl
  | inr e ↦ rw e refl
]
  where
    at : bi / 32 == bj / 32 ≡ true → bi / 32 ≡ bj / 32
    at e = ground arith

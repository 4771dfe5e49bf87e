-- ===== src/Fs/Kept.antt =====
-- fs.c: what is known of a file after one of its blocks is written.
use os_2024_project_vm.Base.{
  ℕ, ◌/◌, ◌%◌, ◌≡◌, ◌≢◌, refl, sym, ap, ◌∙◌, inl, inr, true, false, arith, ◌==◌, ==_refl, ==_ne,
  Bool-cases, if◌then◌else◌,
}
use os_2024_project_vm.Memory.{update}
use os_2024_project_vm.Blocks.{Block}
use os_2024_project_vm.Fs.State.{Fs, bsize, ndirect, byte_at}
use os_2024_project_vm.Fs.FileBytes.{addr_of, HasBlock, file_byte}

-- No two blocks of the file are the same, and none is the block of its indirect entries.
abbrev pub IsApart : ℕ → Fs → Type 0
IsApart ip s =
    ((b c : ℕ) → HasBlock ip s b → HasBlock ip s c → addr_of ip b s ≡ addr_of ip c s → b ≡ c)
    × ((b : ℕ) → HasBlock ip s b → addr_of ip b s ≢ (s.inodes ip).addrs ndirect)

-- A block of the file is written: what is still known of the file.
module _ (ip b : ℕ) (d : Block) (s t : Fs) (has : HasBlock ip s b) (apart : IsApart ip s)
    (inodes : t.inodes ≡ s.inodes)
    (view : t.log.blocks.view ≡ update s.log.blocks.view (addr_of ip b s) d) where
  addr_of-kept : (c : ℕ) → addr_of ip c t ≡ addr_of ip c s
  addr_of-kept c =
      rw (inodes, view, ==_ne (addr_of ip b s) ((s.inodes ip).addrs ndirect) (apart.1 b has)) refl

  pub HasBlock-kept : (c : ℕ) → HasBlock ip s c → HasBlock ip t c
  HasBlock-kept c (low, there, table) = (
    low,
    λ z. there (sym (addr_of-kept c) ∙ z),
    λ le z. table le (ap (λ i. (i ip).addrs ndirect) (sym inodes) ∙ z),
  )

  HasBlock-back : (c : ℕ) → HasBlock ip t c → HasBlock ip s c
  HasBlock-back c (low, there, table) = (
    low,
    λ z. there (addr_of-kept c ∙ z),
    λ le z. table le (ap (λ i. (i ip).addrs ndirect) inodes ∙ z),
  )

  pub IsApart-kept : IsApart ip t
  IsApart-kept = (
    λ c e hc he same.
        apart.0 c e (HasBlock-back c hc) (HasBlock-back e he)
          (sym (addr_of-kept c) ∙ same ∙ addr_of-kept e),
    λ c hc same.
        apart.1 c (HasBlock-back c hc)
          (sym (addr_of-kept c) ∙ same ∙ ap (λ i. (i ip).addrs ndirect) inodes),
  )

  pub file_byte-kept :
      (o : ℕ)
      → HasBlock ip s (o / bsize)
      → file_byte ip t o ≡ (if b == o / bsize then byte_at d (o % bsize) else file_byte ip s o)
  file_byte-kept o ho =
      rw (addr_of-kept (o / bsize), view)
        (elim (Bool-cases (b == o / bsize)) [
          | inl e ↦ rw (e, sym (same b (o / bsize) e), ==_refl (addr_of ip b s)) refl
          | inr e ↦
              rw
                (
                  e,
                  ==_ne (addr_of ip b s) (addr_of ip (o / bsize) s)
                      (λ f. differ b (o / bsize) e (apart.0 b (o / bsize) has ho f)),
                )
                refl
        ])
    where
      same : (a b : ℕ) → a == b ≡ true → a ≡ b
      same a b e = ground arith

      differ : (a b : ℕ) → a == b ≡ false → a ≡ b → ⊥
      differ a b e f = ground arith

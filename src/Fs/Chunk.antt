-- ===== src/Fs/Chunk.antt =====
-- fs.c: the bytes that a round of writei changes.
use os_2024_project_vm.Base.{
  ℕ, ◌+◌, ◌-◌, ◌/◌, ◌%◌, ◌≤◌, ◌<◌, ◌≡◌, refl, sym, ap, inl, inr, true, false, ◌&&◌, arith, ltb, leb,
  ◌==◌, Bool-cases, if◌then◌else◌,
}
use os_2024_project_vm.Blocks.{Block}
use os_2024_project_vm.Strings.{Bytes}
use os_2024_project_vm.Fs.State.{bsize, byte_at}
use os_2024_project_vm.Fs.Content.{copy_in}
use os_2024_project_vm.Fs.Read.{chunk}
use os_2024_project_vm.Fs.Bytes.{byte_at-copy_in}

-- The `n` bytes from `src` on stand in the file at `off`.
abbrev pub written_byte : Bytes → ℕ → ℕ → ℕ → (ℕ → ℕ) → ℕ → ℕ
written_byte mem src off n f o = if leb off o && ltb o (off + n) then mem (src + (o - off)) else f o

pub written_byte-join :
    (mem : Bytes) (src off m left o g h k : ℕ)
    → m ≤ left
    → g ≡ (if leb off o && ltb o (off + m) then mem (src + (o - off)) else h)
    → k ≡ (
        if leb (off + m) o && ltb o (off + m + (left - m))
        then mem (src + m + (o - (off + m)))
        else g)
    → k ≡ (if leb off o && ltb o (off + left) then mem (src + (o - off)) else h)
written_byte-join mem src off m left o g h k le first rest = ground (arith, far)
  where
    far : off + m ≤ o → mem (src + m + (o - (off + m))) ≡ mem (src + (o - off))
    far l = ap mem (omega arith)

-- In the block of `off`, offsets compare as they do in the file.
same_range :
    (off o m : ℕ)
    → off / bsize ≡ o / bsize
    → (leb (off % bsize) (o % bsize) && ltb (o % bsize) (off % bsize + m))
      ≡ (leb off o && ltb o (off + m))
same_range off o m e = ground arith

other_range :
    (off o left : ℕ)
    → off / bsize == o / bsize ≡ false
    → (leb off o && ltb o (off + chunk off left)) ≡ false
other_range off o left e = ground arith

-- One block of the file is written with the bytes of a chunk; `h` is the byte before.
pub chunk-written :
    (mem : Bytes) (src off left o h : ℕ) (d : Block)
    → ((a : ℕ) → mem a < 256)
    → (off / bsize ≡ o / bsize → h ≡ byte_at d (o % bsize))
    → (if off / bsize == o / bsize
        then byte_at (copy_in (chunk off left) mem src (off % bsize) d) (o % bsize)
        else h)
      ≡ (if leb off o && ltb o (off + chunk off left) then mem (src + (o - off)) else h)
chunk-written mem src off left o h d bytes old = elim (Bool-cases (off / bsize == o / bsize)) [
  | inr e ↦ rw (e, other_range off o left e) refl
  | inl e ↦
      rw
        (
          e,
          byte_at-copy_in (chunk off left) mem src (off % bsize) d (o % bsize) bytes,
          same_range off o (chunk off left) (same e),
        )
        (elim (Bool-cases (leb off o && ltb o (off + chunk off left))) [
          | inl f ↦ rw f (ap (λ x. mem (src + x)) (distance off o (same e) f))
          | inr f ↦ rw f (sym (old (same e)))
        ])
]
  where
    same : off / bsize == o / bsize ≡ true → off / bsize ≡ o / bsize
    same e = ground arith

    distance :
        (off o : ℕ)
        → off / bsize ≡ o / bsize
        → leb off o && ltb o (off + chunk off left) ≡ true
        → o % bsize - off % bsize ≡ o - off
    distance off o e f = omega arith

-- ===== src/Fs/Write.antt =====
-- fs.c: writei inside a file.
use os_2024_project_vm.Base.{
  ℕ, zero, suc, ◌+◌, ◌-◌, ◌*◌, ◌/◌, ◌%◌, ◌≤◌, ◌<◌, ◌≡◌, ◌≢◌, refl, sym, ap, ◌∙◌, inl, inr, Bool,
  true, false, ◌&&◌, ◌||◌, ok, arith, ltb, leb, ◌==◌, ==_ne, Bool-cases, ◌>>=◌, ◌>>◌, if◌then◌else◌,
}
use os_2024_project_vm.Memory.{update}
use os_2024_project_vm.Blocks.{Block}
use os_2024_project_vm.Mmu.{uint}
use os_2024_project_vm.Strings.{Bytes}
use os_2024_project_vm.Fs.State.{Fs, bsize, maxfile, bread, byte_at, write_buf}
use os_2024_project_vm.Fs.Content.{bmap, counts, copy_in, writei_loop, grow, writei, t_dev}
use os_2024_project_vm.Fs.Room.{Room, write_buf-Wrote}
use os_2024_project_vm.Fs.FileBytes.{addr_of, HasBlock, file_byte, bmap-HasBlock}
use os_2024_project_vm.Fs.Read.{chunk}
use os_2024_project_vm.Fs.Kept.{IsApart, HasBlock-kept, IsApart-kept, file_byte-kept}
use os_2024_project_vm.Fs.Chunk.{written_byte, written_byte-join, chunk-written}

writei_loop-end :
    (has_device : ℕ → Bool) (rounds ip off left src : ℕ) (mem : Bytes) (s : Fs)
    → left == 0 ≡ true
    → writei_loop has_device (suc rounds) ip off left src mem s ≡ ok (tt, s)
unfolding writei_loop
writei_loop-end has_device rounds ip off left src mem s e = rw (writei_loop, e) refl

writei_loop-round :
    (has_device : ℕ → Bool) (rounds ip off left src addr : ℕ) (mem : Bytes) (s t : Fs)
    → left == 0 ≡ false
    → bmap ip (off / bsize) s ≡ ok (addr, s)
    → write_buf addr (copy_in (chunk off left) mem src (off % bsize) (bread addr s)) s ≡ ok (tt, t)
    → writei_loop has_device (suc rounds) ip off left src mem s
      ≡ writei_loop has_device rounds ip
          (off + chunk off left)
          (left - chunk off left)
          (src + chunk off left)
          mem
          t
unfolding writei_loop
writei_loop-round has_device rounds ip off left src addr mem s t e f g =
    rw (writei_loop, e, ◌>>=◌, ◌>>◌, f, g) refl

-- The file after `n` bytes from `src` on were written at `off`: its other bytes are as they were, and so are
-- the inodes and the super block.
abbrev pub Written : ℕ → Bytes → ℕ → ℕ → ℕ → Fs → Fs → Type 0
Written ip mem src off n s t =
    ((o : ℕ)
      → HasBlock ip s (o / bsize)
      → file_byte ip t o ≡ written_byte mem src off n (file_byte ip s) o)
    × (t.inodes ≡ s.inodes)
    × (t.sb ≡ s.sb)

Written-none :
    (ip off left src : ℕ) (mem : Bytes) (s : Fs)
    → left == 0 ≡ true
    → Written ip mem src off left s s
Written-none ip off left src mem s e = (λ o ho. nothing off left o e (file_byte ip s o), refl, refl)
  where
    nothing :
        (off left o : ℕ)
        → left == 0 ≡ true
        → (h : ℕ) → h ≡ (if leb off o && ltb o (off + left) then mem (src + (o - off)) else h)
    nothing off left o e h = ground arith

-- A chunk, and then the rest.
Written-chunk :
    (ip off left src : ℕ) (mem : Bytes) (s t u : Fs)
    → ((a : ℕ) → mem a < 256)
    → HasBlock ip s (off / bsize)
    → IsApart ip s
    → t.sb ≡ s.sb
    → t.inodes ≡ s.inodes
    → t.log.blocks.view
      ≡ update s.log.blocks.view
          (addr_of ip (off / bsize) s)
          (copy_in (chunk off left) mem src (off % bsize) (bread (addr_of ip (off / bsize) s) s))
    → Written ip mem (src + chunk off left) (off + chunk off left) (left - chunk off left) t u
    → Written ip mem src off left s u
Written-chunk ip off left src mem s t u bytes has apart sb inodes view (rest, u_inodes, u_sb) = (
  λ o ho.
      written_byte-join mem src off (chunk off left) left o (file_byte ip t o) (file_byte ip s o)
        (file_byte ip u o) (omega arith)
        (file_byte-kept ip (off / bsize) d s t has apart inodes view o ho
          ∙ chunk-written mem src off left o (file_byte ip s o)
              (bread (addr_of ip (off / bsize) s) s) bytes
              (λ e. ap (λ b. byte_at (bread (addr_of ip b s) s) (o % bsize)) (sym e)))
        (rest o (HasBlock-kept ip (off / bsize) d s t has apart inodes view (o / bsize) ho)),
  u_inodes ∙ inodes,
  u_sb ∙ sb,
)
  where
    d : Block
    d = copy_in (chunk off left) mem src (off % bsize) (bread (addr_of ip (off / bsize) s) s)

writei_loop-Written :
    (has_device : ℕ → Bool) (rounds k ip off left src : ℕ) (mem : Bytes) (s : Fs)
    → ((a : ℕ) → mem a < 256)
    → left < rounds
    → Room k s.log
    → (0 < left → off % bsize + left ≤ k * bsize)
    → IsApart ip s
    → ((bn : ℕ) → off / bsize ≤ bn → bn * bsize < off + left → HasBlock ip s bn)
    → (u : Fs) × (writei_loop has_device rounds ip off left src mem s ≡ ok (tt, u))
      × Written ip mem src off left s u
writei_loop-Written has_device zero k ip off left src mem s bytes lt room fits apart has =
    absurd (omega arith)
writei_loop-Written has_device (suc rounds) zero ip off left src mem s bytes lt room fits apart
      has =
    elim (Bool-cases (left == 0)) [
      | inl e ↦ (
        s,
        writei_loop-end has_device rounds ip off left src mem s e,
        Written-none ip off left src mem s e,
      )
      | inr e ↦ absurd (ground (arith, e, fits))
    ]
writei_loop-Written has_device (suc rounds) (suc k) ip off left src mem s bytes lt room fits apart
      has =
    elim (Bool-cases (left == 0)) [
      | inl e ↦ (
        s,
        writei_loop-end has_device rounds ip off left src mem s e,
        Written-none ip off left src mem s e,
      )
      | inr e ↦
          let here = has (off / bsize) (omega arith) (first off left e) in
          let addr = addr_of ip (off / bsize) s in
          let d = copy_in (chunk off left) mem src (off % bsize) (bread addr s) in
          let (t, returned, (t_sb, t_inodes, t_view, t_added, t_room)) =
            write_buf-Wrote k addr d s room in
          let (u, returned', written) =
            writei_loop-Written has_device rounds k ip (off + chunk off left)
              (left - chunk off left) (src + chunk off left) mem t bytes
              (fewer rounds off left e lt) t_room (enough k off left (fits (positive left e)))
              (IsApart-kept ip (off / bsize) d s t here apart t_inodes t_view)
              (λ bn le l.
                HasBlock-kept ip (off / bsize) d s t here apart t_inodes t_view bn
                  (has bn (later off left bn le) (omega arith))) in
          (
            u,
            writei_loop-round has_device rounds ip off left src addr mem s t e
                  ((bmap-HasBlock ip (off / bsize) s).0 here) returned
                ∙ returned',
            Written-chunk ip off left src mem s t u bytes here apart t_sb t_inodes t_view written,
          )
    ]
  where
    first : (off left : ℕ) → left == 0 ≡ false → off / bsize * bsize < off + left
    first off left e = ground arith

    positive : (left : ℕ) → left == 0 ≡ false → 0 < left
    positive left e = ground arith

    fewer :
        (rounds off left : ℕ)
        → left == 0 ≡ false
        → left < suc rounds
        → left - chunk off left < rounds
    fewer rounds off left e lt = ground arith

    later : (off left bn : ℕ) → (off + chunk off left) / bsize ≤ bn → off / bsize ≤ bn
    later off left bn le = omega arith

    enough :
        (k off left : ℕ)
        → off % bsize + left ≤ suc k * bsize
        → 0 < left - chunk off left
        → (off + chunk off left) % bsize + (left - chunk off left) ≤ k * bsize
    enough k off left le more = omega arith

writei-inside :
    (has_device : ℕ → Bool) (ip : ℕ) (mem : Bytes) (src off n : ℕ) (s u : Fs)
    → (s.inodes ip).type ≢ t_dev
    → ltb (s.inodes ip).size off
        || ltb (uint (off + n)) off
        || ltb (maxfile * bsize) (uint (off + n))
      ≡ false
    → writei_loop has_device (n + 1) ip off n src mem s ≡ ok (tt, u)
    → ltb (u.inodes ip).size (off + n) ≡ false
    → writei has_device ip mem src off n s ≡ ok (counts n, u)
unfolding writei grow
writei-inside has_device ip mem src off n s u ty e f g = elim (Bool-cases (ltb 0 n)) [
  | inl p ↦ rw (writei, ==_ne (s.inodes ip).type t_dev ty, e, ◌>>=◌, ◌>>◌, f, p, grow, g) refl
  | inr p ↦ rw (writei, ==_ne (s.inodes ip).type t_dev ty, e, ◌>>=◌, ◌>>◌, f, p) refl
]

-- writei of bytes inside a file that is no device, whose blocks are there and apart, in a transaction with
-- room for as many blocks as the range meets, returns the count; just the bytes of the range become those of
-- the memory, every other byte of the file, the inodes and the super block stay as they were.
pub writei-Written :
    (has_device : ℕ → Bool) (k ip : ℕ) (mem : Bytes) (src off n : ℕ) (s : Fs)
    → (s.inodes ip).type ≢ t_dev
    → ((a : ℕ) → mem a < 256)
    → off + n ≤ (s.inodes ip).size
    → (s.inodes ip).size ≤ maxfile * bsize
    → ((bn : ℕ) → bn * bsize < (s.inodes ip).size → HasBlock ip s bn)
    → IsApart ip s
    → Room k s.log
    → off % bsize + n ≤ k * bsize
    → (u : Fs) × (writei has_device ip mem src off n s ≡ ok (counts n, u))
      × Written ip mem src off n s u
writei-Written has_device k ip mem src off n s ty bytes inside small has apart room fits =
    let (u, returned, (file, u_inodes, u_sb)) =
      writei_loop-Written has_device (n + 1) k ip off n src mem s bytes (omega arith) room
        (λ l. fits) apart (λ bn le l. has bn (omega arith)) in
    (
      u,
      writei-inside has_device ip mem src off n s u ty (in_range (s.inodes ip).size inside small)
          returned
          (ap (λ i. ltb (i ip).size (off + n)) u_inodes ∙ not_grown (s.inodes ip).size inside),
      (file, u_inodes, u_sb),
    )
  where
    in_range :
        (size : ℕ)
        → off + n ≤ size
        → size ≤ maxfile * bsize
        → ltb size off || ltb (uint (off + n)) off || ltb (maxfile * bsize) (uint (off + n)) ≡ false
    in_range size le small = ground arith

    not_grown : (size : ℕ) → off + n ≤ size → ltb size (off + n) ≡ false
    not_grown size le = ground arith

-- ===== src/Fs/Read.antt =====
-- fs.c: readi of a file without holes.
use os_2024_project_vm.Base.{
  ℕ, zero, suc, ◌+◌, ◌-◌, ◌*◌, ◌/◌, ◌%◌, ◌^◌, ◌≤◌, ◌<◌, ◌≡◌, ◌≢◌, inl, inr, refl, ap, ◌∙◌, Bool,
  true, false, ◌&&◌, ◌||◌, ok, arith, ltb, leb, min, ◌==◌, ==_ne, Bool-cases, ◌>>=◌, if◌then◌else◌,
}
use os_2024_project_vm.Mmu.{uint}
use os_2024_project_vm.Strings.{Bytes}
use os_2024_project_vm.Fs.State.{Fs, bsize, bread, byte_at}
use os_2024_project_vm.Fs.Content.{bmap, fails, counts, copy_out, readi_loop, readi, t_dev}
use os_2024_project_vm.Fs.FileBytes.{
  addr_of, HasBlock, file_byte, bmap-HasBlock, copy_out_lem, file_byte-chunk,
}

-- The `n` bytes of `f` from `off` on stand at `dst`.
abbrev pub with_bytes : (ℕ → ℕ) → ℕ → ℕ → ℕ → Bytes → ℕ → ℕ
with_bytes f off dst n mem a = if leb dst a && ltb a (dst + n) then f (off + (a - dst)) else mem a

with_bytes-join :
    (f g : ℕ → ℕ) (o off dst m left : ℕ) (mem c mem' : Bytes) (a : ℕ)
    → m ≤ left
    → ((i : ℕ) → i < m → g (o + i) ≡ f (off + i))
    → c a ≡ with_bytes g o dst m mem a
    → mem' a ≡ with_bytes f (off + m) (dst + m) (left - m) c a
    → mem' a ≡ with_bytes f off dst left mem a
with_bytes-join f g o off dst m left mem c mem' a le same first rest = ground (arith, near, far)
  where
    near : dst ≤ a → a < dst + m → g (o + (a - dst)) ≡ f (off + (a - dst))
    near l h = same (a - dst) (omega arith)

    far : dst + m ≤ a → f (off + m + (a - (dst + m))) ≡ f (off + (a - dst))
    far l = ap f (omega arith)

-- The bytes of a round.
abbrev pub chunk : ℕ → ℕ → ℕ
chunk off left = min left (bsize - off % bsize)

readi_loop-end :
    (rounds ip off left dst : ℕ) (mem : Bytes) (s : Fs)
    → left == 0 ≡ true
    → readi_loop (suc rounds) ip off left dst mem s ≡ ok (mem, s)
unfolding readi_loop
readi_loop-end rounds ip off left dst mem s e = rw e refl

readi_loop-round :
    (rounds ip off left dst addr : ℕ) (mem : Bytes) (s : Fs)
    → left == 0 ≡ false
    → bmap ip (off / bsize) s ≡ ok (addr, s)
    → readi_loop (suc rounds) ip off left dst mem s
      ≡ readi_loop rounds ip
          (off + chunk off left)
          (left - chunk off left)
          (dst + chunk off left)
          (copy_out (chunk off left) (bread addr s) (off % bsize) mem dst)
          s
unfolding readi_loop
readi_loop-round rounds ip off left dst addr mem s e f = rw (readi_loop, e, ◌>>=◌, f) refl

readi_loop_lem :
    (rounds ip off left dst : ℕ) (mem : Bytes) (s : Fs)
    → left < rounds
    → ((bn : ℕ) → off / bsize ≤ bn → bn * bsize < off + left → HasBlock ip s bn)
    → (mem' : Bytes) × (readi_loop rounds ip off left dst mem s ≡ ok (mem', s))
      × ((a : ℕ) → mem' a ≡ with_bytes (file_byte ip s) off dst left mem a)
readi_loop_lem zero ip off left dst mem s lt has = absurd (omega arith)
readi_loop_lem (suc rounds) ip off left dst mem s lt has = elim (Bool-cases (left == 0)) [
  | inl e ↦ (mem, readi_loop-end rounds ip off left dst mem s e, λ a. ground arith)
  | inr e ↦
      let m = chunk off left in
      let addr = addr_of ip (off / bsize) s in
      let c = copy_out m (bread addr s) (off % bsize) mem dst in
      let (mem', returned, bytes) =
        readi_loop_lem rounds ip (off + m) (left - m) (dst + m) c s (fewer rounds off left e lt)
          (λ bn le l. has bn (later off left bn le) (omega arith)) in
      (
        mem',
        readi_loop-round rounds ip off left dst addr mem s e (
              (bmap-HasBlock ip (off / bsize) s).0
                (has (off / bsize) (omega arith) (first off left e)))
            ∙ returned,
        λ a.
            with_bytes-join (file_byte ip s) (byte_at (bread addr s)) (off % bsize) off dst m left
              mem c mem' a (omega arith) (λ i l. file_byte-chunk ip s off i (omega arith))
              (copy_out_lem m (bread addr s) (off % bsize) mem dst a) (bytes a),
      )
]
  where
    fewer :
        (rounds off left : ℕ)
        → left == 0 ≡ false
        → left < suc rounds
        → left - chunk off left < rounds
    fewer rounds off left e lt = ground arith

    later : (off left bn : ℕ) → (off + chunk off left) / bsize ≤ bn → off / bsize ≤ bn
    later off left bn le = omega arith

    first : (off left : ℕ) → left == 0 ≡ false → off / bsize * bsize < off + left
    first off left e = ground arith

readi-fails :
    (has_device : ℕ → Bool) (ip : ℕ) (mem : Bytes) (dst off n : ℕ) (s : Fs)
    → (s.inodes ip).type ≢ t_dev
    → ltb (s.inodes ip).size off || ltb (uint (off + n)) off ≡ true
    → readi has_device ip mem dst off n s ≡ ok ((fails, mem), s)
unfolding readi
readi-fails has_device ip mem dst off n s ty e =
    rw (readi, ==_ne (s.inodes ip).type t_dev ty, e) refl

-- The bytes that readi returns.
abbrev pub to_read : ℕ → ℕ → ℕ → ℕ
to_read size off n = min n (size - off)

readi-reads :
    (has_device : ℕ → Bool) (ip : ℕ) (mem : Bytes) (dst off n : ℕ) (s : Fs) (mem' : Bytes)
    → (s.inodes ip).type ≢ t_dev
    → ltb (s.inodes ip).size off || ltb (uint (off + n)) off ≡ false
    → (if ltb (s.inodes ip).size (uint (off + n)) then (s.inodes ip).size - off else n)
      ≡ to_read (s.inodes ip).size off n
    → readi_loop
        (to_read (s.inodes ip).size off n + 1)
        ip
        off
        (to_read (s.inodes ip).size off n)
        dst
        mem
        s
      ≡ ok (mem', s)
    → readi has_device ip mem dst off n s
      ≡ ok ((counts (to_read (s.inodes ip).size off n), mem'), s)
unfolding readi
readi-reads has_device ip mem dst off n s mem' ty e c f =
    rw (readi, ==_ne (s.inodes ip).type t_dev ty, e, c, ◌>>=◌, f)
      (ap (λ k. ok ((counts k, mem'), s)) c)

-- readi of a file that is no device and has every block below its size, for an offset and a count of 32 bits:
-- if the offset is beyond the size or the end of the range wraps around, it fails and changes nothing; else
-- it returns the count, cut off at the end of the file, with just those bytes of the file at `dst`, and
-- changes nothing of the file system.
pub readi-Reads :
    (has_device : ℕ → Bool) (ip : ℕ) (mem : Bytes) (dst off n : ℕ) (s : Fs)
    → (s.inodes ip).type ≢ t_dev
    → ((bn : ℕ) → bn * bsize < (s.inodes ip).size → HasBlock ip s bn)
    → off < 2 ^ 32
    → n < 2 ^ 32
    → ((s.inodes ip).size < off → readi has_device ip mem dst off n s ≡ ok ((fails, mem), s))
      × (2 ^ 32 ≤ off + n → readi has_device ip mem dst off n s ≡ ok ((fails, mem), s))
      × (off ≤ (s.inodes ip).size
          → off + n < 2 ^ 32
          → (mem' : Bytes) × (readi has_device ip mem dst off n s
              ≡ ok ((counts (to_read (s.inodes ip).size off n), mem'), s))
            × ((a : ℕ)
                → mem' a
                  ≡ with_bytes (file_byte ip s) off dst (to_read (s.inodes ip).size off n) mem a))
readi-Reads has_device ip mem dst off n s ty has lo ln = (
  λ lt. readi-fails has_device ip mem dst off n s ty (beyond (s.inodes ip).size lt),
  λ le. readi-fails has_device ip mem dst off n s ty (wraps (s.inodes ip).size le),
  λ le lt.
      let count = to_read (s.inodes ip).size off n in
      let (mem', returned, bytes) =
        readi_loop_lem (count + 1) ip off count dst mem s (omega arith)
          (λ bn low l. has bn (inside bn (s.inodes ip).size le l)) in
      (
        mem',
        readi-reads has_device ip mem dst off n s mem' ty (fits (s.inodes ip).size le lt)
            (cut (s.inodes ip).size le lt) returned,
        bytes,
      ),
)
  where
    beyond : (size : ℕ) → size < off → ltb size off || ltb (uint (off + n)) off ≡ true
    beyond size lt = ground arith

    wraps : (size : ℕ) → 2 ^ 32 ≤ off + n → ltb size off || ltb (uint (off + n)) off ≡ true
    wraps size le = ground arith

    inside : (bn size : ℕ) → off ≤ size → bn * bsize < off + to_read size off n → bn * bsize < size
    inside bn size le l = omega arith

    fits :
        (size : ℕ)
        → off ≤ size
        → off + n < 2 ^ 32
        → ltb size off || ltb (uint (off + n)) off ≡ false
    fits size le lt = ground arith

    cut :
        (size : ℕ)
        → off ≤ size
        → off + n < 2 ^ 32
        → (if ltb size (uint (off + n)) then size - off else n) ≡ to_read size off n
    cut size le lt = ground arith

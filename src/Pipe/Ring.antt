-- ===== src/Pipe/Ring.antt =====
-- A pipe holds a queue of at most 512 bytes, also where its counters wrap.
use os_2024_project_vm.Base.{
  ℕ, zero, suc, ◌+◌, ◌-◌, ◌%◌, ◌^◌, ◌≤◌, ◌<◌, ◌≡◌, refl, ap, false, List, [], ◌∷◌, ◌++◌, arith,
  length, ◌==◌,
}
use os_2024_project_vm.Mmu.{uint}
use os_2024_project_vm.Memory.{update}
use os_2024_project_vm.Pipe.{Pipe, pipesize, put_byte, is_full}

-- the number of bytes held
abbrev pub count : Pipe → ℕ
count p = (p.nwrite + 2 ^ 32 - p.nread) % 2 ^ 32

pub record IsValid (p : Pipe) : Type 0 where
  pub nread_in : p.nread < 2 ^ 32
  pub nwrite_in : p.nwrite < 2 ^ 32
  pub fits : count p ≤ pipesize

-- the `n` bytes from counter `i` on
abbrev pub window : (ℕ → ℕ) → ℕ → ℕ → List ℕ
window bytes i zero = []
window bytes i (suc n) = bytes (i % pipesize) ∷ window bytes (i + 1) n

abbrev pub contents : Pipe → List ℕ
contents p = window p.bytes p.nread (count p)

length-window : (f : ℕ → ℕ) (i n : ℕ) → length (window f i n) ≡ n
length-window f i zero = refl
length-window f i (suc n) = ap suc (length-window f (i + 1) n)

-- A window depends on its start only up to the size of the ring.
pub window-mod : (f : ℕ → ℕ) (i j n : ℕ) → i % pipesize ≡ j % pipesize → window f i n ≡ window f j n
window-mod f i j zero h = refl
window-mod f i j (suc n) h =
    rw h (ap (◌∷◌ (f (j % pipesize))) (window-mod f (i + 1) (j + 1) n (omega arith)))

-- Writing just past a window that is not full extends it.
window-extend :
    (f : ℕ → ℕ) (i n s b : ℕ)
    → n < pipesize
    → s ≡ (i + n) % pipesize
    → window (update f s b) i (suc n) ≡ window f i n ++ b ∷ []
window-extend f i zero s b h e = ground (arith, e)
window-extend f i (suc n) s b h e =
    let apart : (s == i % pipesize) ≡ false = ground arith in
    rw apart
      (ap (◌∷◌ (f (i % pipesize))) (window-extend f (i + 1) n s b (omega arith) (omega arith)))

-- `put_byte` on a ring that is not full adds the byte at the end.
pub put_byte-IsValid : (p : Pipe) (b : ℕ) → IsValid p → is_full p ≡ false → IsValid (put_byte b p)
unfolding put_byte is_full
put_byte-IsValid p b v h = ground arith

pub contents-put_byte :
    (p : Pipe) (b : ℕ)
    → IsValid p
    → is_full p ≡ false
    → contents (put_byte b p) ≡ contents p ++ b ∷ []
unfolding put_byte is_full
contents-put_byte p b v h =
    rw longer (window-extend p.bytes p.nread (count p) (p.nwrite % pipesize) b small place)
  where
    small : count p < pipesize
    small = ground arith

    longer : (uint (p.nwrite + 1) + 2 ^ 32 - p.nread) % 2 ^ 32 ≡ suc (count p)
    longer = ground arith

    place : p.nwrite % pipesize ≡ (p.nread + count p) % pipesize
    place = ground arith

-- The ring is full exactly when it holds 512 bytes.
pub is_full_iff : (p : Pipe) → IsValid p → is_full p ≡ (count p == pipesize)
unfolding is_full
is_full_iff p v = ground arith

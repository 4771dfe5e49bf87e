-- ===== src/Console/Reading.antt =====
-- console.c: consoleread takes from the queue of the input.
use os_2024_project_vm.Base.{
  ℕ, zero, suc, ◌+◌, ◌%◌, ◌^◌, ◌<◌, ◌≡◌, refl, sym, ap, ◌∙◌, inl, inr, true, false, ltb, ◌==◌, List,
  [], ◌∷◌, length, arith, Bool-cases,
}
use os_2024_project_vm.Mmu.{uint}
use os_2024_project_vm.Console.{
  Input, input_buf, sub_uint, ctrl_d, newline, Read, copy_first, put_first, consoleread_loop,
  consoleread,
}
use os_2024_project_vm.Console.Queue.{Queue, queue, read_bytes, Holds}

-- The first byte is taken.
abbrev taken : Input → Input
taken s = record s { r = uint (s.r + 1) }

taken-Holds :
    (m b k : ℕ) (bs : List ℕ) (s : Input)
    → Holds m (record { bytes = b ∷ bs; ready = suc k }) s
    → Holds (m + 1) (record { bytes = bs; ready = k }) (taken s)
taken-Holds m b k bs s (ready, fits, r, w, e, bytes, line) = (
  omega (arith, ready),
  omega (arith, fits),
  ap (λ x. uint (x + 1)) r ∙ next m,
  w ∙ ap (λ x. x % 2 ^ 32) (shift m k),
  e ∙ ap (λ x. x % 2 ^ 32) (shift m (length bs)),
  λ i l. ap (λ x. s.buf (x % input_buf)) (sym (shift m i)) ∙ bytes (suc i) (omega arith),
  λ i le l. line (suc i) (omega arith) (omega arith),
)
  where
    next : (m : ℕ) → uint (m % 2 ^ 32 + 1) ≡ (m + 1) % 2 ^ 32
    next m = omega arith

    shift : (m i : ℕ) → m + suc i ≡ m + 1 + i
    shift m i = omega arith

-- ^D is kept.
kept-Holds :
    (m : ℕ) (q : Queue) (s : Input)
    → Holds m q s
    → Holds m q (record (taken s) { r = sub_uint (taken s).r 1 })
kept-Holds m q s (ready, fits, r, w, e, bytes, line) =
    (ready, fits, ap (λ x. sub_uint (uint (x + 1)) 1) r ∙ back m, w, e, bytes, line)
  where
    back : (m : ℕ) → sub_uint (uint (m % 2 ^ 32 + 1)) 1 ≡ m % 2 ^ 32
    back m = omega arith

-- The same result, and the state holds the queue.
abbrev pub ReadsSame : Read × Queue → Read × Input → Type 0
ReadsSame x y = (x.0 ≡ y.0) × ((m : ℕ) × Holds m x.1 y.1)

ReadsSame-first :
    (c : ℕ) (x : Read × Queue) (y : Read × Input)
    → ReadsSame x y
    → ReadsSame (copy_first c x) (copy_first c y)
ReadsSame-first c x y (e, h) = (ap (put_first c) e, h)

nothing_ready : (m : ℕ) (bs : List ℕ) (s : Input) → Holds m (queue bs zero) s → (s.r == s.w) ≡ true
nothing_ready m bs s (ready, fits, r, w, e, bytes, line) = rw (r, w) (same m)
  where
    same : (m : ℕ) → (m % 2 ^ 32 == (m + 0) % 2 ^ 32) ≡ true
    same m = ground arith

some_ready :
    (m k : ℕ) (bs : List ℕ) (s : Input) → Holds m (queue bs (suc k)) s → (s.r == s.w) ≡ false
some_ready m k bs s (ready, fits, r, w, e, bytes, line) =
    rw (r, w) (differ m k (omega (arith, ready, fits)))
  where
    differ : (m k : ℕ) → k < 128 → (m % 2 ^ 32 == (m + suc k) % 2 ^ 32) ≡ false
    differ m k l = ground arith

first_byte :
    (m b k : ℕ) (bs : List ℕ) (s : Input)
    → Holds m (queue (b ∷ bs) (suc k)) s
    → s.buf (s.r % input_buf) ≡ b
first_byte m b k bs s (ready, fits, r, w, e, bytes, line) =
    ap (λ x. s.buf (x % input_buf)) r ∙ ap s.buf (slot m) ∙ bytes 0 (omega arith)
  where
    slot : (m : ℕ) → m % 2 ^ 32 % input_buf ≡ (m + 0) % input_buf
    slot m = omega arith

consoleread_loop-ReadsSame :
    (n target m k : ℕ) (bs : List ℕ) (s : Input)
    → Holds m (queue bs k) s
    → ReadsSame (read_bytes n target bs k) (consoleread_loop n target s)
unfolding consoleread_loop read_bytes
consoleread_loop-ReadsSame zero target m k bs s h = (refl, (m, h))
consoleread_loop-ReadsSame (suc n) target m zero bs s h = rw (nothing_ready m bs s h) (refl, (m, h))
consoleread_loop-ReadsSame (suc n) target m (suc k) [] s h = absurd (omega (arith, h.0))
consoleread_loop-ReadsSame (suc n) target m (suc k) (b ∷ bs) s h = elim (Bool-cases (b == ctrl_d)) [
  | inl d ↦ elim (Bool-cases (ltb (suc n) target)) [
    | inl f ↦
        rw (some_ready m k (b ∷ bs) s h, first_byte m b k bs s h, d, f)
          (refl, (m, kept-Holds m (queue (b ∷ bs) (suc k)) s h))
    | inr f ↦
        rw (some_ready m k (b ∷ bs) s h, first_byte m b k bs s h, d, f)
          (refl, (m + 1, taken-Holds m b k bs s h))
  ]
  | inr d ↦ elim (Bool-cases (b == newline)) [
    | inl f ↦
        rw (some_ready m k (b ∷ bs) s h, first_byte m b k bs s h, d, f)
          (refl, (m + 1, taken-Holds m b k bs s h))
    | inr f ↦
        rw (some_ready m k (b ∷ bs) s h, first_byte m b k bs s h, d, f)
          (ReadsSame-first b (read_bytes n target bs k) (consoleread_loop n target (taken s))
            (consoleread_loop-ReadsSame n target (m + 1) k bs (taken s) (taken-Holds m b k bs s h)))
  ]
]

-- A pass of consoleread, for a process that is not killed, gives what the queue has ready for a reader of `n`
-- bytes, and leaves an input that holds what is left of the queue.
pub consoleread-ReadsSame :
    (n m : ℕ) (q : Queue) (s : Input)
    → Holds m q s
    → ReadsSame (read_bytes n n q.bytes q.ready) (consoleread n s)
unfolding consoleread
consoleread-ReadsSame n m q s h = consoleread_loop-ReadsSame n n m q.ready q.bytes s h

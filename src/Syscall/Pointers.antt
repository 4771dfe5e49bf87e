-- ===== src/Syscall/Pointers.antt =====
-- What the checks let through lies inside the process.
use os_2024_project_vm.Base.{
  ℕ, zero, suc, ◌+◌, ◌-◌, ◌^◌, ◌≤◌, ◌<◌, ◌≡◌, refl, sym, ap, ◌∙◌, inl, inr, true, false, ◌||◌,
  Option, none, some, arith, ltb, leb, ◌==◌, if◌then◌else◌, Bool-cases,
}
use os_2024_project_vm.Mmu.{uint, kernbase}
use os_2024_project_vm.Strings.{Bytes}
use os_2024_project_vm.Strings.Length.{StringAt, StringAt-further}
use os_2024_project_vm.Syscall.{
  word_at, is_negative, fetchint, fetchstr_loop, fetchstr, argint, argptr,
}

-- fetchint on a process below KERNBASE returns the word at the address if its four bytes lie inside the
-- process, and -1 otherwise.
pub fetchint_lem :
    (sz : ℕ) (mem : Bytes) (addr : ℕ)
    → sz ≤ kernbase
    → fetchint sz mem addr ≡ (if leb (addr + 4) sz then some (word_at mem addr) else none)
unfolding fetchint
fetchint_lem sz mem addr small = elim (Bool-cases (leb (addr + 4) sz)) [
  | inl e ↦ rw (e, inside e) refl
  | inr e ↦ rw (e, outside e) refl
]
  where
    inside : leb (addr + 4) sz ≡ true → leb sz addr || ltb sz (uint (addr + 4)) ≡ false
    inside e = ground arith

    outside : leb (addr + 4) sz ≡ false → leb sz addr || ltb sz (uint (addr + 4)) ≡ true
    outside e = ground arith

-- `none` is not `some`, and `some` is injective.
none_is_not_some : {a : ℕ} → none ≡ some a → ⊥
none_is_not_some h = cc

some_same : {a b : ℕ} → some a ≡ some b → a ≡ b
some_same h = cc

checked :
    (sz size i p : ℕ)
    → sz ≤ kernbase
    → size < 2 ^ 32
    → (if is_negative size || leb sz i || ltb sz (uint (i + size)) then none else some i) ≡ some p
    → (i ≡ p) × (p < sz) × (p + size ≤ sz)
unfolding is_negative
checked sz size i p small word h =
    elim (Bool-cases (is_negative size || leb sz i || ltb sz (uint (i + size)))) [
      | inl e ↦ absurd (none_is_not_some (sym (rw e refl) ∙ h))
      | inr e ↦
          let same : i ≡ p = some_same (sym (rw e refl) ∙ h) in (same, ground arith, ground arith)
    ]

-- A pointer that argptr lets through, in a process below KERNBASE and for any word as the size, is the
-- argument, and the block of `size` bytes at it lies inside the process.
pub argptr_lem :
    (sz : ℕ) (mem : Bytes) (esp n size p : ℕ)
    → sz ≤ kernbase
    → size < 2 ^ 32
    → argptr sz mem esp n size ≡ some p
    → (argint sz mem esp n ≡ some p) × (p < sz) × (p + size ≤ sz)
unfolding argptr
argptr_lem sz mem esp n size p small word h = by_argument (argint sz mem esp n) refl
  where
    none_then : argint sz mem esp n ≡ none → argptr sz mem esp n size ≡ none
    none_then e = rw (argptr, e) refl

    some_then :
        (i : ℕ)
        → argint sz mem esp n ≡ some i
        → argptr sz mem esp n size
          ≡ (if is_negative size || leb sz i || ltb sz (uint (i + size)) then none else some i)
    some_then i e = rw (argptr, e) refl

    by_argument :
        (a : Option ℕ)
        → argint sz mem esp n ≡ a
        → (argint sz mem esp n ≡ some p) × (p < sz) × (p + size ≤ sz)
    by_argument none e = absurd (none_is_not_some (sym (none_then e) ∙ h))
    by_argument (some i) e =
        let (same, low, high) = checked sz size i p small word (sym (some_then i e) ∙ h) in
        (e ∙ ap some same, low, high)

fetchstr_loop-StringAt :
    (sz : ℕ) (mem : Bytes) (left addr n : ℕ)
    → StringAt mem left addr n (fetchstr_loop sz mem left addr n)
unfolding fetchstr_loop
fetchstr_loop-StringAt sz mem zero addr n = λ j l g. absurd (omega arith)
fetchstr_loop-StringAt sz mem (suc left) addr n = elim (Bool-cases (mem (addr + n) == 0)) [
  | inl e ↦ rw e (omega arith, omega arith, ground arith, λ j l g. absurd (omega arith))
  | inr e ↦ rw e (
      StringAt-further mem left addr n (fetchstr_loop sz mem left addr (n + 1)) (ground arith)
        (fetchstr_loop-StringAt sz mem left addr (n + 1)))
]

-- fetchstr at an address inside the process returns the length of the string there, whose bytes and whose 0
-- lie inside the process; or -1, and then no byte from the address up to the end of the process is 0.
pub fetchstr-StringAt :
    (sz : ℕ) (mem : Bytes) (addr : ℕ)
    → addr < sz
    → StringAt mem (sz - addr) addr 0 (fetchstr sz mem addr)
unfolding fetchstr
fetchstr-StringAt sz mem addr lt = rw inside (fetchstr_loop-StringAt sz mem (sz - addr) addr 0)
  where
    inside : leb sz addr ≡ false
    inside = ground arith

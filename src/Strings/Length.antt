-- ===== src/Strings/Length.antt =====
-- Where a string ends.
use os_2024_project_vm.Base.{
  ℕ, zero, suc, ◌+◌, ◌≤◌, ◌<◌, ◌≡◌, ◌≢◌, ap, ◌∙◌, inl, inr, ◌⊎◌, Option, none, some, arith, ◌==◌,
  Bool-cases, refl, ltb, ltb→lt,
}
use os_2024_project_vm.Strings.{Bytes, strlen}

-- A string of `l` bytes between `n` and `n + left` after `addr`, or none.
abbrev pub StringAt : Bytes → ℕ → ℕ → ℕ → Option ℕ → Type 0
StringAt mem left addr n none = (j : ℕ) → n ≤ j → j < n + left → mem (addr + j) ≢ 0
StringAt mem left addr n (some l) =
    (n ≤ l) × (l < n + left) × (mem (addr + l) ≡ 0) × ((j : ℕ) → n ≤ j → j < l → mem (addr + j) ≢ 0)

-- One byte more in front that is not 0.
pub StringAt-further :
    (mem : Bytes) (left addr n : ℕ) (r : Option ℕ)
    → mem (addr + n) ≢ 0
    → StringAt mem left addr (n + 1) r
    → StringAt mem (suc left) addr n r
StringAt-further mem left addr n none ne rest = λ j l g z. elim (split n j l) [
  | inl same ↦ ne (ap (λ k. mem (addr + k)) same ∙ z)
  | inr later ↦ rest j later (omega arith) z
]
  where
    split : (i j : ℕ) → i ≤ j → (i ≡ j) ⊎ (i + 1 ≤ j)
    split i j l = ground arith
StringAt-further mem left addr n (some l) ne (low, high, last, before) =
    (omega arith, omega arith, last, before')
  where
    split : (i j : ℕ) → i ≤ j → (i ≡ j) ⊎ (i + 1 ≤ j)
    split i j l = ground arith

    before' : (j : ℕ) → n ≤ j → j < l → mem (addr + j) ≢ 0
    before' j le g z = elim (split n j le) [
      | inl same ↦ ne (ap (λ k. mem (addr + k)) same ∙ z)
      | inr later ↦ before j later g z
    ]

strlen_from : (fuel : ℕ) (mem : Bytes) (s n : ℕ) → StringAt mem fuel s n (strlen fuel mem s n)
unfolding strlen
strlen_from zero mem s n = λ j l g. absurd (omega arith)
strlen_from (suc fuel) mem s n = elim (Bool-cases (mem (s + n) == 0)) [
  | inl e ↦ rw e (omega arith, omega arith, ground arith, λ j l g. absurd (omega arith))
  | inr e ↦ rw e (
      StringAt-further mem fuel s n (strlen fuel mem s (n + 1)) (ground arith)
        (strlen_from fuel mem s (n + 1)))
]

first_zero :
    (mem : Bytes) (fuel s k : ℕ) (r : Option ℕ)
    → k < fuel
    → mem (s + k) ≡ 0
    → StringAt mem fuel s 0 r
    → (l : ℕ) × (r ≡ some l) × (l ≤ k) × (mem (s + l) ≡ 0) × ((j : ℕ) → j < l → mem (s + j) ≢ 0)
first_zero mem fuel s k none lt z never = absurd (never k (omega arith) (omega arith) z)
first_zero mem fuel s k (some l) lt z (low, high, last, before) =
    (l, refl, within, last, λ j g. before j (omega arith) g)
  where
    within : l ≤ k
    within = elim (Bool-cases (ltb k l)) [
      | inl e ↦ absurd (before k (omega arith) (ltb→lt k l e) z)
      | inr e ↦ ground arith
    ]

-- strlen of a string with a 0 among its first `fuel` bytes ends within that many rounds, and returns the
-- number of bytes before the first 0.
pub strlen_lem :
    (mem : Bytes) (fuel s k : ℕ)
    → k < fuel
    → mem (s + k) ≡ 0
    → (l : ℕ) × (strlen fuel mem s 0 ≡ some l)
      × (l ≤ k)
      × (mem (s + l) ≡ 0)
      × ((j : ℕ) → j < l → mem (s + j) ≢ 0)
strlen_lem mem fuel s k lt z =
    first_zero mem fuel s k (strlen fuel mem s 0) lt z (strlen_from fuel mem s 0)

-- A byte that is not the end of the string stands before the end.
pub before_zero : (m : Bytes) (a e : ℕ) → m a ≢ 0 → m e ≡ 0 → a ≤ e → a + 1 ≤ e
before_zero m a e ne z le = elim (split a e le) [
  | inl same ↦ absurd (ne (ap m same ∙ z))
  | inr l ↦ l
]
  where
    split : (a e : ℕ) → a ≤ e → (a ≡ e) ⊎ (a + 1 ≤ e)
    split a e le = ground arith

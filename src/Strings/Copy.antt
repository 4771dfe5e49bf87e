-- ===== src/Strings/Copy.antt =====
-- What strncpy and safestrcpy leave in the destination.
use os_2024_project_vm.Base.{
  ℕ, zero, suc, ◌+◌, ◌≤◌, ◌<◌, ◌≡◌, refl, sym, ap, ◌∙◌, inl, inr, ◌⊎◌, Bool, false, ◌||◌, arith,
  ◌==◌, if◌then◌else◌, Bool-cases,
}
use os_2024_project_vm.Memory.{update}
use os_2024_project_vm.Strings.{Bytes, pad, strncpy, safe_loop, safestrcpy}

-- the `n` bytes at `s` and the `n` bytes at `t` do not meet
abbrev pub Apart : ℕ → ℕ → ℕ → Type 0
Apart n s t = (s + n ≤ t) ⊎ (t + n ≤ s)

-- one of the first `k` bytes at `t` is 0
abbrev pub ends_within : ℕ → Bytes → ℕ → Bool
ends_within zero m t = false
ends_within (suc k) m t = (m t == 0) || ends_within k m (t + 1)

-- It depends on those bytes only.
ends_within-ext :
    (k : ℕ) (m m' : Bytes) (t : ℕ)
    → ((a : ℕ) → t ≤ a → a < t + k → m' a ≡ m a)
    → ends_within k m' t ≡ ends_within k m t
ends_within-ext zero m m' t h = refl
ends_within-ext (suc k) m m' t h = rw (
  h t (omega arith) (omega arith),
  ends_within-ext k m m' (t + 1) (λ a l g. h a (omega arith) (omega arith)),
)

pad_lem :
    (n : ℕ) (m : Bytes) (s a : ℕ)
    → (s ≤ a → s + n ≤ a → pad n m s a ≡ m a)
      × (a < s → pad n m s a ≡ m a)
      × (s ≤ a → a < s + n → pad n m s a ≡ 0)
unfolding pad
pad_lem zero m s a = (λ h g. refl, λ h. refl, λ h g. absurd (omega arith))
pad_lem (suc n) m s a = ground (arith, pad_lem n (update m s 0) (s + 1) a)

-- strncpy leaves what lies outside the `n` bytes of the destination.
strncpy_outside : (n : ℕ) (m : Bytes) (s t a : ℕ) → (a < s) ⊎ (s + n ≤ a) → strncpy n m s t a ≡ m a
unfolding strncpy
strncpy_outside zero m s t a h = refl
strncpy_outside (suc n) m s t a h = ground (
  arith,
  strncpy_outside n (update m s (m t)) (s + 1) (t + 1) a,
  pad_lem n (update m s (m t)) (s + 1) a,
)

-- With source and destination apart, byte `k` of the destination is byte `k` of the string, or 0
-- once the string has ended.
strncpy_inside :
    (n : ℕ) (m : Bytes) (s t k : ℕ)
    → k < n
    → Apart n s t
    → strncpy n m s t (s + k) ≡ (if ends_within k m t then 0 else m (t + k))
unfolding strncpy
strncpy_inside zero m s t k lt apart = absurd (omega arith)
strncpy_inside (suc n) m s t zero lt apart =
    rw (start s, start t)
      (elim (Bool-cases (m t == 0)) [
        | inl e ↦ rw e ((pad_lem n (update m s (m t)) (s + 1) s).1 (omega arith) ∙ ground arith)
        | inr e ↦ rw e (
            strncpy_outside n (update m s (m t)) (s + 1) (t + 1) s (inl (omega arith))
            ∙ ground arith)
      ])
  where
    start : (a : ℕ) → a + 0 ≡ a
    start a = omega arith
strncpy_inside (suc n) m s t (suc k) lt apart =
    rw (next s, next t)
      (elim (Bool-cases (m t == 0)) [
        | inl e ↦
            rw e ((pad_lem n (update m s (m t)) (s + 1) (s + 1 + k)).2 (omega arith) (omega arith))
        | inr e ↦ rw e (
            strncpy_inside n (update m s (m t)) (s + 1) (t + 1) k (omega arith) (ground arith)
            ∙ rw (ends_within-ext k m (update m s (m t)) (t + 1) (λ a l g. ground arith))
                (ground arith))
      ])
  where
    next : (a : ℕ) → a + suc k ≡ a + 1 + k
    next a = omega arith

-- With source and destination apart, strncpy puts the string at `t` into the `n` bytes at `s`, cut off
-- there or filled up with 0, and leaves every other byte as it was.
pub strncpy_lem :
    (n : ℕ) (m : Bytes) (s t : ℕ)
    → Apart n s t
    → ((k : ℕ) → k < n → strncpy n m s t (s + k) ≡ (if ends_within k m t then 0 else m (t + k)))
      × ((a : ℕ) → (a < s) ⊎ (s + n ≤ a) → strncpy n m s t a ≡ m a)
strncpy_lem n m s t apart =
    (λ k lt. strncpy_inside n m s t k lt apart, λ a out. strncpy_outside n m s t a out)

-- `m'` has at `s` the first `k` bytes of `m` at `t` and a 0, where `k` is the length of the string or
-- `n` if that is less.
abbrev pub Copied : ℕ → Bytes → Bytes → ℕ → ℕ → Type 0
Copied n m m' s t =
    (k : ℕ) × (k ≤ n)
    × ((j : ℕ) → j < k → m' (s + j) ≡ m (t + j))
    × (ends_within k m t ≡ false)
    × (m' (s + k) ≡ 0)
    × ((k ≡ n) ⊎ (m (t + k) ≡ 0))

safe_outside : (n : ℕ) (m : Bytes) (s t a : ℕ) → (a < s) ⊎ (s + n < a) → safe_loop n m s t a ≡ m a
unfolding safe_loop
safe_outside zero m s t a h = ground arith
safe_outside (suc n) m s t a h = ground (arith, safe_outside n (update m s (m t)) (s + 1) (t + 1) a)

at_zero : (a : ℕ) → a + 0 ≡ a
at_zero a = omega arith

-- One byte more in front.
longer :
    (n : ℕ) (m m' : Bytes) (s t : ℕ)
    → Apart (suc (suc n)) s t
    → m t == 0 ≡ false
    → m' s ≡ m t
    → Copied n (update m s (m t)) m' (s + 1) (t + 1)
    → Copied (suc n) m m' s t
longer n m m' s t apart e first (k, small, copied, within, last, stop) =
    (suc k, omega arith, copied', within', ap m' (omega arith) ∙ last, stop')
  where
    shift : (f : Bytes) (a j : ℕ) → f (a + suc j) ≡ f (a + 1 + j)
    shift f a j = ap f (omega arith)

    same : (j : ℕ) → j ≤ k → update m s (m t) (t + 1 + j) ≡ m (t + 1 + j)
    same j le = ground arith

    copied' : (j : ℕ) → j < suc k → m' (s + j) ≡ m (t + j)
    copied' zero lt = ap m' (omega arith) ∙ first ∙ ap m (omega arith)
    copied' (suc j) lt =
        shift m' s j ∙ copied j (omega arith) ∙ same j (omega arith) ∙ sym (shift m t j)

    within' : (m t == 0) || ends_within k m (t + 1) ≡ false
    within' =
        rw e (sym (ends_within-ext k m (update m s (m t)) (t + 1) (λ a l g. ground arith)) ∙ within)

    stop' : (suc k ≡ suc n) ⊎ (m (t + suc k) ≡ 0)
    stop' = elim stop [
      | inl h ↦ inl (ap suc h)
      | inr h ↦ inr (shift m t k ∙ sym (same k (omega arith)) ∙ h)
    ]

safe_loop-Copied :
    (n : ℕ) (m : Bytes) (s t : ℕ) → Apart (suc n) s t → Copied n m (safe_loop n m s t) s t
unfolding safe_loop
safe_loop-Copied zero m s t apart =
    (0, omega arith, λ j lt. absurd (omega arith), refl, ground arith, inl refl)
safe_loop-Copied (suc n) m s t apart = elim (Bool-cases (m t == 0)) [
  | inl e ↦ rw e (
    0,
    omega arith,
    λ j lt. absurd (omega arith),
    refl,
    ground arith,
    inr (ap m (at_zero t) ∙ ground arith),
  )
  | inr e ↦ rw e (
      longer n m (safe_loop n (update m s (m t)) (s + 1) (t + 1)) s t apart e
        (safe_outside n (update m s (m t)) (s + 1) (t + 1) s (inl (omega arith)) ∙ ground arith)
        (safe_loop-Copied n (update m s (m t)) (s + 1) (t + 1) (ground arith)))
]

-- safestrcpy, for a positive `n`, with source and destination apart: the destination ends in a 0 within its
-- `n` bytes, before it stands the string, whole or its first `n - 1` bytes, and every byte outside the
-- destination is left as it was.
pub safestrcpy_lem :
    (n : ℕ) (m : Bytes) (s t : ℕ)
    → Apart (suc n) s t
    → Copied n m (safestrcpy m s t (suc n)) s t
      × ((a : ℕ) → (a < s) ⊎ (s + n < a) → safestrcpy m s t (suc n) a ≡ m a)
unfolding safestrcpy
safestrcpy_lem n m s t apart = (safe_loop-Copied n m s t apart, λ a out. safe_outside n m s t a out)

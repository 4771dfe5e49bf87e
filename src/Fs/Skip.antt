-- ===== src/Fs/Skip.antt =====
-- fs.c: the loops and the copy of skipelem.
use os_2024_project_vm.Base.{
  ℕ, zero, suc, ◌+◌, ◌-◌, ◌≤◌, ◌<◌, ◌≡◌, ◌≢◌, ◌⊎◌, inl, inr, refl, sym, ap, ◌∙◌, not, ◌&&◌, some,
  arith, ltb, leb, min, ◌==◌, Bool-cases, if◌then◌else◌,
}
use os_2024_project_vm.Strings.{Bytes}
use os_2024_project_vm.Strings.Move.{memmove_lem}
use os_2024_project_vm.Fs.State.{dirsiz}
use os_2024_project_vm.Fs.Path.{slash, skip_slashes, skip_element, copy_name}

-- Every byte from `a` up to `b` satisfies `P`.
abbrev pub Run : (ℕ → Type 0) → Bytes → ℕ → ℕ → Type 0
Run P mem a b = (j : ℕ) → a ≤ j → j < b → P (mem j)

abbrev pub IsSlash : ℕ → Type 0
IsSlash c = c ≡ slash

-- a byte of an element
abbrev pub IsLetter : ℕ → Type 0
IsLetter c = (c ≢ slash) × (c ≢ 0)

pub split : (a j : ℕ) → a ≤ j → (a ≡ j) ⊎ (a + 1 ≤ j)
split a j le = ground arith

Run-further :
    (P : ℕ → Type 0) (mem : Bytes) (a b : ℕ) → P (mem a) → Run P mem (a + 1) b → Run P mem a b
Run-further P mem a b here later j le lt = elim (split a j le) [
  | inl e ↦ rw (sym e) here
  | inr l ↦ later j l lt
]

before_end : (mem : Bytes) (path e : ℕ) → mem path ≢ 0 → mem e ≡ 0 → path ≤ e → path + 1 ≤ e
before_end mem path e ne z le = elim (split path e le) [
  | inl same ↦ absurd (ne (ap mem same ∙ z))
  | inr l ↦ l
]

-- The loops stop at the first byte that is not theirs, the end of the string at `e` at the latest.
pub skip_slashes_lem :
    (fuel : ℕ) (mem : Bytes) (path e : ℕ)
    → mem e ≡ 0
    → path ≤ e
    → e < path + fuel
    → (r : ℕ) × (skip_slashes fuel mem path ≡ some r)
      × (path ≤ r)
      × (r ≤ e)
      × Run IsSlash mem path r
      × (mem r ≢ slash)
unfolding skip_slashes
skip_slashes_lem zero mem path e z le lt = absurd (omega arith)
skip_slashes_lem (suc fuel) mem path e z le lt = elim (Bool-cases (mem path == slash)) [
  | inr f ↦ rw f (path, refl, omega arith, le, λ j l g. absurd (omega arith), λ h. ground arith)
  | inl f ↦
      let (r, found, low, high, slashes, stops) =
        skip_slashes_lem fuel mem (path + 1) e z (before_end mem path e (λ h. ground arith) z le)
          (omega arith) in
      rw f
        (r, found, omega arith, high, Run-further IsSlash mem path r (ground arith) slashes, stops)
]

pub skip_element_lem :
    (fuel : ℕ) (mem : Bytes) (path e : ℕ)
    → mem e ≡ 0
    → path ≤ e
    → e < path + fuel
    → (r : ℕ) × (skip_element fuel mem path ≡ some r)
      × (path ≤ r)
      × (r ≤ e)
      × Run IsLetter mem path r
      × ((mem r ≡ slash) ⊎ (mem r ≡ 0))
unfolding skip_element
skip_element_lem zero mem path e z le lt = absurd (omega arith)
skip_element_lem (suc fuel) mem path e z le lt =
    elim (Bool-cases (not (mem path == slash) && not (mem path == 0))) [
      | inr f ↦ rw f (path, refl, omega arith, le, λ j l g. absurd (omega arith), ground arith)
      | inl f ↦
          let (r, found, low, high, letters, stops) =
            skip_element_lem fuel mem (path + 1) e z
              (before_end mem path e (λ h. ground arith) z le) (omega arith) in
          rw f (
            r,
            found,
            omega arith,
            high,
            Run-further IsLetter mem path r (ground arith, ground arith) letters,
            stops,
          )
    ]

-- The bytes from `name` on after an element of `n` bytes from `s` on was copied there.
pub copy_name_lem :
    (mem : Bytes) (name s path : ℕ)
    → s ≤ path
    → ((a : ℕ) → (a < name) ⊎ (name + dirsiz ≤ a) → copy_name mem name s path a ≡ mem a)
      × ((i : ℕ) → i < min dirsiz (path - s) → copy_name mem name s path (name + i) ≡ mem (s + i))
      × (path - s < dirsiz → copy_name mem name s path (name + (path - s)) ≡ 0)
unfolding copy_name
copy_name_lem mem name s path le = elim (Bool-cases (leb dirsiz (path - s))) [
  | inl e ↦ rw e (
    λ a apart. memmove_lem mem name s dirsiz a ∙ outside a dirsiz apart (omega arith),
    λ i lt. memmove_lem mem name s dirsiz (name + i) ∙ inside i dirsiz (omega arith),
    λ lt. absurd (ground arith),
  )
  | inr e ↦ rw e (
    λ a apart. ground (arith, memmove_lem mem name s (path - s) a, outside a (path - s) apart),
    λ i lt. ground (arith, memmove_lem mem name s (path - s) (name + i), inside i (path - s)),
    λ lt. ground arith,
  )
]
  where
    outside :
        (a n : ℕ)
        → (a < name) ⊎ (name + dirsiz ≤ a)
        → n ≤ dirsiz
        → (if leb name a && ltb a (name + n) then mem (s + (a - name)) else mem a) ≡ mem a
    outside a n apart l = ground arith

    inside :
        (i n : ℕ)
        → i < n
        → (if leb name (name + i) && ltb (name + i) (name + n)
            then mem (s + (name + i - name))
            else mem (name + i))
          ≡ mem (s + i)
    inside i n lt = ground (arith, ap (λ k. mem (s + k)) (back i))
      where
        back : (i : ℕ) → name + i - name ≡ i
        back i = omega arith

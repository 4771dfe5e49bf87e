-- ===== src/Fs/Names.antt =====
-- fs.c: skipelem takes the first element of a path.
use os_2024_project_vm.Base.{
  ℕ, ◌+◌, ◌-◌, ◌≤◌, ◌<◌, ◌≡◌, ◌≢◌, ◌⊎◌, inl, inr, refl, sym, ap, ◌∙◌, true, false, Option, none,
  some, ok, arith, min, ◌==◌, Bool-cases,
}
use os_2024_project_vm.Strings.{Bytes}
use os_2024_project_vm.Fs.State.{dirsiz}
use os_2024_project_vm.Fs.Path.{
  slash, skip_slashes, skip_element, copy_name, take_element, skipelem,
}
use os_2024_project_vm.Fs.Skip.{
  Run, IsSlash, IsLetter, split, skip_slashes_lem, skip_element_lem, copy_name_lem,
}

-- What skipelem makes of the path from `path` on that ends at `e`: `mem'` is the memory after it.
abbrev pub Element : Bytes → ℕ → ℕ → ℕ → Option ℕ → Bytes → Type 0
Element mem path e name none mem' =
    (z : ℕ) × (path ≤ z) × (z ≤ e) × Run IsSlash mem path z × (mem z ≡ 0) × (mem' ≡ mem)
Element mem path e name (some next) mem' =
    (s : ℕ) × (t : ℕ) × (path ≤ s)
    × (s < t)
    × (t ≤ next)
    × (next ≤ e)
    × Run IsSlash mem path s
    × Run IsLetter mem s t
    × ((mem t ≡ slash) ⊎ (mem t ≡ 0))
    × Run IsSlash mem t next
    × (mem next ≢ slash)
    × ((i : ℕ) → i < min dirsiz (t - s) → mem' (name + i) ≡ mem (s + i))
    × (t - s < dirsiz → mem' (name + (t - s)) ≡ 0)
    × ((a : ℕ) → (a < name) ⊎ (name + dirsiz ≤ a) → mem' a ≡ mem a)

-- The buffer of the name is apart from the path.
abbrev pub ApartFrom : ℕ → ℕ → ℕ → Type 0
ApartFrom path e name = (name + dirsiz ≤ path) ⊎ (e < name)

take_element-ok :
    (fuel : ℕ) (mem : Bytes) (s t next name : ℕ)
    → skip_element fuel mem s ≡ some t
    → skip_slashes fuel (copy_name mem name s t) t ≡ some next
    → take_element fuel s name mem ≡ ok (some next, copy_name mem name s t)
unfolding take_element
take_element-ok fuel mem s t next name e f = rw (take_element, e, f) refl

skipelem-end :
    (fuel : ℕ) (mem : Bytes) (path s name : ℕ)
    → skip_slashes fuel mem path ≡ some s
    → mem s == 0 ≡ true
    → skipelem fuel path name mem ≡ ok (none, mem)
unfolding skipelem
skipelem-end fuel mem path s name e f = rw (skipelem, e, f) refl

skipelem-element :
    (fuel : ℕ) (mem : Bytes) (path s name : ℕ)
    → skip_slashes fuel mem path ≡ some s
    → mem s == 0 ≡ false
    → skipelem fuel path name mem ≡ take_element fuel s name mem
unfolding skipelem
skipelem-element fuel mem path s name e f = rw (skipelem, e, f) refl

take_element_lem :
    (fuel : ℕ) (mem : Bytes) (path s e name : ℕ)
    → mem e ≡ 0
    → path ≤ s
    → s ≤ e
    → e < path + fuel
    → ApartFrom path e name
    → Run IsSlash mem path s
    → IsLetter (mem s)
    → (next : ℕ) × (mem' : Bytes) × (take_element fuel s name mem ≡ ok (some next, mem'))
      × Element mem path e name (some next) mem'
take_element_lem fuel mem path s e name z le high enough apart slashes letter =
    let (t, found, low, t_high, letters, stops) =
      skip_element_lem fuel mem s e z high (omega arith) in
    let (outside, inside, ended) = copy_name_lem mem name s t low in
    let same = kept t outside in
    let (next, found', low', next_high, slashes', stops') =
      skip_slashes_lem fuel (copy_name mem name s t) t e (same e (omega arith) (omega arith) ∙ z)
        t_high (omega arith) in
    (
      next,
      copy_name mem name s t,
      take_element-ok fuel mem s t next name found found',
      (
        s,
        t,
        le,
        started t low stops,
        low',
        next_high,
        slashes,
        letters,
        stops,
        λ j l g. sym (same j (omega arith) (omega arith)) ∙ slashes' j l g,
        λ h. stops' (same next (omega arith) (omega arith) ∙ h),
        inside,
        ended,
        outside,
      ),
    )
  where
    kept :
        (t : ℕ)
        → ((a : ℕ) → (a < name) ⊎ (name + dirsiz ≤ a) → copy_name mem name s t a ≡ mem a)
        → (a : ℕ) → path ≤ a
        → a ≤ e
        → copy_name mem name s t a ≡ mem a
    kept t outside a l h = outside a (ground arith)

    started : (t : ℕ) → s ≤ t → (mem t ≡ slash) ⊎ (mem t ≡ 0) → s < t
    started t low stops = elim (split s t low) [
      | inr l ↦ omega arith
      | inl e ↦
          absurd (elim stops [ inl h ↦ letter.0 (ap mem e ∙ h) | inr h ↦ letter.1 (ap mem e ∙ h) ])
    ]

-- skipelem on a path that ends with the byte 0 at `e`, with more fuel than its length and the buffer of the
-- name apart from it, returns. If the path is only slashes, the result is 0 and the memory is as it was. Else
-- the first element, of at least one byte and none of them a slash, follows the leading slashes; its first
-- DIRSIZ bytes are in `name`, with a 0 behind them if it is shorter than DIRSIZ; the result is the place
-- behind the slashes that follow the element; and no byte outside `name` has changed.
pub skipelem-Element :
    (fuel : ℕ) (mem : Bytes) (path e name : ℕ)
    → mem e ≡ 0
    → path ≤ e
    → e < path + fuel
    → ApartFrom path e name
    → (r : Option ℕ) × (mem' : Bytes) × (skipelem fuel path name mem ≡ ok (r, mem'))
      × Element mem path e name r mem'
skipelem-Element fuel mem path e name z le enough apart =
    let (s, found, low, high, slashes, stops) = skip_slashes_lem fuel mem path e z le enough in
    elim (Bool-cases (mem s == 0)) [
      | inl f ↦ (
        none,
        mem,
        skipelem-end fuel mem path s name found f,
        (s, low, high, slashes, ground arith, refl),
      )
      | inr f ↦
          let (next, mem', returned, element) =
            take_element_lem fuel mem path s e name z low high enough apart slashes
              (stops, ground arith) in
          (some next, mem', skipelem-element fuel mem path s name found f ∙ returned, element)
    ]

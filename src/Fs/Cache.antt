-- ===== src/Fs/Cache.antt =====
-- fs.c: the inode cache holds an inode once.
use os_2024_project_vm.Base.{
  ℕ, zero, suc, ◌+◌, ◌≤◌, ◌<◌, ◌≡◌, ◌≢◌, ◌⊎◌, inl, inr, refl, sym, true, false, Option, none, some,
  ok, panic, arith, ◌==◌, ==_refl, ==_ne, Bool-cases,
}
use os_2024_project_vm.Fs.State.{Inode, Fs, ninode, set_inode}
use os_2024_project_vm.Fs.Inode.{
  Slot, cached, empty_slot, full, is_inode, remember, find_inode, iget_slot, iget,
}

abbrev Remembered : (ℕ → Inode) → Option ℕ → Type 0
Remembered inodes none = Unit {0}
Remembered inodes (some e) = (e < ninode) × ((inodes e).ref ≡ 0)

-- What the search from `from` up to `to` finds.
abbrev Finds : (ℕ → Inode) → ℕ → ℕ → ℕ → ℕ → Option ℕ → Slot → Type 0
Finds inodes dev inum from to empty (cached r) =
    (from ≤ r) × (r < to) × (is_inode (inodes r) dev inum ≡ true)
Finds inodes dev inum from to empty (empty_slot r) =
    (r < ninode)
    × ((inodes r).ref ≡ 0)
    × ((j : ℕ) → from ≤ j → j < to → is_inode (inodes j) dev inum ≡ false)
Finds inodes dev inum from to empty full =
    (empty ≡ none)
    × ((j : ℕ) → from ≤ j → j < to → (is_inode (inodes j) dev inum ≡ false) × ((inodes j).ref ≢ 0))

from_first : (P : ℕ → Type 0) (a j : ℕ) → P a → (a + 1 ≤ j → P j) → a ≤ j → P j
from_first P a j here later le = elim (split a j le) [ inl e ↦ rw (sym e) here | inr l ↦ later l ]
  where
    split : (a j : ℕ) → a ≤ j → (a ≡ j) ⊎ (a + 1 ≤ j)
    split a j le = ground arith

remember-Remembered :
    (inodes : ℕ → Inode) (empty : Option ℕ) (ip : ℕ)
    → ip < ninode
    → Remembered inodes empty
    → Remembered inodes (remember empty (inodes ip) ip)
remember-Remembered inodes (some e) ip lt r = r
remember-Remembered inodes none ip lt r = elim (Bool-cases ((inodes ip).ref == 0)) [
  | inl e ↦ rw e (lt, ground arith)
  | inr e ↦ rw e tt
]

remember-none :
    (empty : Option ℕ) (i : Inode) (ip : ℕ)
    → remember empty i ip ≡ none
    → (empty ≡ none) × (i.ref ≢ 0)
remember-none (some e) i ip h = absurd (ground arith)
remember-none none i ip h = (refl, ground arith)

Finds-next :
    (inodes : ℕ → Inode) (dev inum from to : ℕ) (empty : Option ℕ) (o : Slot)
    → is_inode (inodes from) dev inum ≡ false
    → Finds inodes dev inum (from + 1) to (remember empty (inodes from) from) o
    → Finds inodes dev inum from to empty o
Finds-next inodes dev inum from to empty (cached r) e (low, high, same) = (omega arith, high, same)
Finds-next inodes dev inum from to empty (empty_slot r) e (lt, free, vain) = (
  lt,
  free,
  λ j le l. from_first (λ k. is_inode (inodes k) dev inum ≡ false) from j e (λ m. vain j m l) le,
)
Finds-next inodes dev inum from to empty full e (never, vain) =
    let (was, used) = remember-none empty (inodes from) from never in
    (
      was,
      λ j le l.
          from_first (λ k. (is_inode (inodes k) dev inum ≡ false) × ((inodes k).ref ≢ 0)) from j
            (e, used) (λ m. vain j m l) le,
    )

find_inode_lem :
    (inodes : ℕ → Inode) (dev inum left from : ℕ) (empty : Option ℕ)
    → from + left ≤ ninode
    → Remembered inodes empty
    → Finds inodes dev inum from (from + left) empty (find_inode inodes dev inum left from empty)
unfolding find_inode
find_inode_lem inodes dev inum zero from none le r = (refl, λ j l g. absurd (omega arith))
find_inode_lem inodes dev inum zero from (some e) le r = (r.0, r.1, λ j l g. absurd (omega arith))
find_inode_lem inodes dev inum (suc left) from empty le r =
    elim (Bool-cases (is_inode (inodes from) dev inum)) [
      | inl e ↦ rw e (omega arith, omega arith, e)
      | inr e ↦ rw e (
          Finds-next inodes dev inum from (from + suc left) empty
            (find_inode inodes dev inum left (from + 1) (remember empty (inodes from) from)) e
            (rw (shift from left) (
              find_inode_lem inodes dev inum left (from + 1) (remember empty (inodes from) from)
                (omega arith) (remember-Remembered inodes empty from (omega arith) r))))
    ]
  where
    shift : (from left : ℕ) → from + suc left ≡ from + 1 + left
    shift from left = omega arith

-- No two slots in use have the same inode.
abbrev pub HoldsOnce : Fs → Type 0
HoldsOnce s =
    (i j : ℕ)
    → i < ninode
    → j < ninode
    → 0 < (s.inodes i).ref
    → 0 < (s.inodes j).ref
    → (s.inodes i).dev ≡ (s.inodes j).dev
    → (s.inodes i).inum ≡ (s.inodes j).inum
    → i ≡ j

-- Slot `ip` has the inode with one reference more than before, or a first one in a slot that was free.
abbrev pub Referenced : ℕ → ℕ → Inode → Inode → Type 0
Referenced dev inum i i' =
    ((0 < i.ref) × (i.dev ≡ dev) × (i.inum ≡ inum) × (i' ≡ record i { ref = i.ref + 1 }))
    ⊎ ((i.ref ≡ 0) × (i' ≡ record i { dev = dev; inum = inum; ref = 1; valid = false }))

abbrev pub Got : ℕ → ℕ → ℕ → Fs → Fs → Type 0
Got dev inum ip s s' =
    (ip < ninode)
    × Referenced dev inum (s.inodes ip) (s'.inodes ip)
    × ((j : ℕ) → j ≢ ip → s'.inodes j ≡ s.inodes j)
    × (s'.sb ≡ s.sb)
    × (s'.log ≡ s.log)
    × HoldsOnce s'

-- A slot that gets the inode `x` keeps the cache without doubles, if no other slot has that inode.
HoldsOnce-update :
    (s : Fs) (ip : ℕ) (x : Inode)
    → HoldsOnce s
    → ((j : ℕ)
        → j < ninode
        → j ≢ ip
        → 0 < (s.inodes j).ref
        → (s.inodes j).dev ≡ x.dev
        → (s.inodes j).inum ≡ x.inum
        → ⊥)
    → HoldsOnce (set_inode ip x s)
HoldsOnce-update s ip x once alone i j li lj = elim (Bool-cases (ip == i)) [
  | inl e ↦ elim (Bool-cases (ip == j)) [
    | inl f ↦ λ p q d n. ground arith
    | inr f ↦ rw (e, f) (λ p q d n. absurd (alone j lj (λ h. ground arith) q (sym d) (sym n)))
  ]
  | inr e ↦ elim (Bool-cases (ip == j)) [
    | inl f ↦ rw (e, f) (λ p q d n. absurd (alone i li (λ h. ground arith) p d n))
    | inr f ↦ rw (e, f) (once i j li lj)
  ]
]

is_inode-true :
    (i : Inode) (dev inum : ℕ)
    → is_inode i dev inum ≡ true
    → (0 < i.ref) × (i.dev ≡ dev) × (i.inum ≡ inum)
is_inode-true i dev inum e = (ground arith, ground arith, ground arith)

is_inode-false :
    (i : Inode) (dev inum : ℕ)
    → is_inode i dev inum ≡ false
    → 0 < i.ref
    → i.dev ≡ dev
    → i.inum ≡ inum
    → ⊥
is_inode-false i dev inum e p d n = ground arith

-- The slot that the search found.
iget_slot-Got :
    (dev inum : ℕ) (s : Fs) (o : Slot)
    → HoldsOnce s
    → Finds s.inodes dev inum 0 ninode none o
    → ((ip : ℕ) × (s' : Fs) × (iget_slot dev inum o s ≡ ok (ip, s')) × Got dev inum ip s s')
      ⊎ ((iget_slot dev inum o s ≡ panic "iget: no inodes")
          × ((j : ℕ)
              → j < ninode
              → (is_inode (s.inodes j) dev inum ≡ false) × ((s.inodes j).ref ≢ 0)))
unfolding iget_slot
iget_slot-Got dev inum s full once (never, vain) = inr (refl, λ j l. vain j (omega arith) l)
iget_slot-Got dev inum s (cached r) once (low, high, same) =
    let (used, d, n) = is_inode-true (s.inodes r) dev inum same in
    let x = record (s.inodes r) { ref = (s.inodes r).ref + 1 } in
    inl (
      r,
      set_inode r x s,
      refl,
      (
        high,
        inl (used, d, n, rw (==_refl r) refl),
        λ j ne. rw (==_ne r j (λ h. ne (sym h))) refl,
        refl,
        refl,
        HoldsOnce-update s r x once (λ j l ne p dj nj. ne (once j r l high p used dj nj)),
      ),
    )
iget_slot-Got dev inum s (empty_slot r) once (lt, free, vain) =
    let x = record (s.inodes r) { dev = dev; inum = inum; ref = 1; valid = false } in
    inl (
      r,
      set_inode r x s,
      refl,
      (
        lt,
        inr (free, rw (==_refl r) refl),
        λ j ne. rw (==_ne r j (λ h. ne (sym h))) refl,
        refl,
        refl,
        HoldsOnce-update s r x once (λ j l ne p dj nj.
            is_inode-false (s.inodes j) dev inum (vain j (omega arith) l) p dj nj),
      ),
    )

-- In a cache that has no inode twice, iget returns the slot of the inode with one reference more, or a free
-- slot that it gives to the inode with one reference and not valid; every other slot, the super block and the
-- log are as they were, and still no inode is there twice. It panics only if no slot has the inode and every
-- slot is in use.
pub iget-Got :
    (dev inum : ℕ) (s : Fs)
    → HoldsOnce s
    → ((ip : ℕ) × (s' : Fs) × (iget dev inum s ≡ ok (ip, s')) × Got dev inum ip s s')
      ⊎ ((iget dev inum s ≡ panic "iget: no inodes")
          × ((j : ℕ)
              → j < ninode
              → (is_inode (s.inodes j) dev inum ≡ false) × ((s.inodes j).ref ≢ 0)))
unfolding iget
iget-Got dev inum s once =
    iget_slot-Got dev inum s (find_inode s.inodes dev inum ninode 0 none) once
      (find_inode_lem s.inodes dev inum ninode 0 none (omega arith) tt)

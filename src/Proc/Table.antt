-- ===== src/Proc/Table.antt =====
-- The loops over the table, slot by slot.
use os_2024_project_vm.Base.{
  ℕ, zero, suc, ◌+◌, ◌≤◌, ◌<◌, ◌≡◌, refl, sym, ap, ◌∙◌, inl, inr, ◌⊎◌, Bool, true, false, ◌&&◌,
  Option, none, some, arith, ltb, leb, ◌==◌, if◌then◌else◌, Bool-cases, ==_refl,
}
use os_2024_project_vm.Memory.{update}
use os_2024_project_vm.Proc.{
  Proc, sleeping, runnable, Chan, is, same_chan, find_proc, nproc, wakeup_loop, wakeup1,
}

-- The loop found the first slot that passes the test, or there is none.
abbrev pub Found : (Proc → Bool) → (ℕ → Proc) → ℕ → ℕ → Option ℕ → Type 0
Found test procs count i none = (j : ℕ) → i ≤ j → j < i + count → test (procs j) ≡ false
Found test procs count i (some k) =
    (i ≤ k)
    × (k < i + count)
    × (test (procs k) ≡ true)
    × ((j : ℕ) → i ≤ j → j < k → test (procs j) ≡ false)

split : (i j : ℕ) → i ≤ j → (i ≡ j) ⊎ (i + 1 ≤ j)
split i j l = ground arith

pass :
    (test : Proc → Bool) (procs : ℕ → Proc) (count i : ℕ) (r : Option ℕ)
    → test (procs i) ≡ false
    → Found test procs count (i + 1) r
    → Found test procs (suc count) i r
pass test procs count i none e rest = λ j l g. elim (split i j l) [
  | inl same ↦ ap (λ k. test (procs k)) (sym same) ∙ e
  | inr later ↦ rest j later (omega arith)
]
pass test procs count i (some k) e (low, high, here, before) =
    (omega arith, omega arith, here, before')
  where
    before' : (j : ℕ) → i ≤ j → j < k → test (procs j) ≡ false
    before' j l g = elim (split i j l) [
      | inl same ↦ ap (λ k. test (procs k)) (sym same) ∙ e
      | inr later ↦ before j later g
    ]

pub find_proc-Found :
    (test : Proc → Bool) (procs : ℕ → Proc) (count i : ℕ)
    → Found test procs count i (find_proc test procs count i)
unfolding find_proc
find_proc-Found test procs zero i = λ j l g. absurd (omega arith)
find_proc-Found test procs (suc count) i = elim (Bool-cases (test (procs i))) [
  | inl e ↦ rw e (omega arith, omega arith, e, λ j l g. absurd (omega arith))
  | inr e ↦ rw e (
      pass test procs count i (find_proc test procs count (i + 1)) e
        (find_proc-Found test procs count (i + 1)))
]

-- What wakeup1 makes of a process.
abbrev pub woken : Chan → Proc → Proc
woken c p = if is p.state sleeping && same_chan p.chan c then record p { state = runnable } else p

woken_here :
    (c : Chan) (procs : ℕ → Proc) (i j : ℕ)
    → (if is (procs i).state sleeping && same_chan (procs i).chan c
          then update procs i (record (procs i) { state = runnable })
          else procs)
        j
      ≡ (if i == j then woken c (procs j) else procs j)
woken_here c procs i j = elim (Bool-cases (i == j)) [
  | inl e ↦ at_same j (equal e)
  | inr e ↦ rw e (elim (Bool-cases (is (procs i).state sleeping && same_chan (procs i).chan c)) [
    | inl f ↦ rw f (rw e refl)
    | inr f ↦ rw f refl
  ])
]
  where
    equal : i == j ≡ true → i ≡ j
    equal e = ground arith

    at_same :
        (j : ℕ)
        → i ≡ j
        → (if is (procs i).state sleeping && same_chan (procs i).chan c
              then update procs i (record (procs i) { state = runnable })
              else procs)
            j
          ≡ (if i == j then woken c (procs j) else procs j)
    at_same j e =
        rw (sym e, ==_refl i)
          (elim (Bool-cases (is (procs i).state sleeping && same_chan (procs i).chan c)) [
            | inl f ↦ rw f (rw (==_refl i) refl)
            | inr f ↦ rw f refl
          ])

in_range : (i j count : ℕ) → i == j ≡ true → leb i j && ltb j (i + suc count) ≡ true
in_range i j count e = ground arith

not_again : (i j count : ℕ) → i == j ≡ true → leb (i + 1) j && ltb j (i + 1 + count) ≡ false
not_again i j count e = ground arith

range_next :
    (i j count : ℕ)
    → i == j ≡ false
    → leb (i + 1) j && ltb j (i + 1 + count) ≡ leb i j && ltb j (i + suc count)
range_next i j count e = ground arith

pub wakeup_loop_lem :
    (c : Chan) (count i : ℕ) (procs : ℕ → Proc) (j : ℕ)
    → wakeup_loop c count i procs j
      ≡ (if leb i j && ltb j (i + count) then woken c (procs j) else procs j)
unfolding wakeup_loop
wakeup_loop_lem c zero i procs j = ground arith
wakeup_loop_lem c (suc count) i procs j =
    wakeup_loop_lem c count (i + 1) _ j ∙ elim (Bool-cases (i == j)) [
      | inl e ↦ rw (not_again i j count e, in_range i j count e, woken_here c procs i j, e) refl
      | inr e ↦ rw (range_next i j count e, woken_here c procs i j, e) refl
    ]

-- Every process sleeping on `c` is woken, and nothing else changes.
pub wakeup1_lem :
    (c : Chan) (procs : ℕ → Proc) (j : ℕ) → j < nproc → wakeup1 c procs j ≡ woken c (procs j)
wakeup1_lem c procs j lt = wakeup_loop_lem c nproc 0 procs j ∙ rw (inside j lt) refl
  where
    inside : (j : ℕ) → j < nproc → leb 0 j && ltb j (0 + nproc) ≡ true
    inside j lt = ground arith

-- What waking keeps, wakeup1 keeps.
pub wakeup1-keeps :
    (P : Proc → Type 0) (c : Chan) (procs : ℕ → Proc) (j : ℕ)
    → (P (procs j) → P (woken c (procs j)))
    → P (procs j)
    → P (wakeup1 c procs j)
wakeup1-keeps P c procs j h p =
    rw (wakeup_loop_lem c nproc 0 procs j)
      (elim (Bool-cases (leb 0 j && ltb j (0 + nproc))) [ inl e ↦ rw e (h p) | inr e ↦ rw e p ])

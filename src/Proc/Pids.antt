-- ===== src/Proc/Pids.antt =====
-- Slots, pids and kill.
use os_2024_project_vm.Base.{
  ℕ, ◌+◌, ◌-◌, ◌%◌, ◌^◌, ◌<◌, ◌≡◌, ◌≢◌, refl, sym, ◌∙◌, inl, inr, Bool, true, false, Option, none,
  some, ok, arith, ◌==◌, Bool-cases, ==_refl, ◌>>=◌, ◌>>◌,
}
use os_2024_project_vm.Memory.{update}
use os_2024_project_vm.Proc.{
  Ptable, unused, embryo, sleeping, runnable, code, is, nproc, acquire_ptable, release_ptable,
  find_proc, claim_slot, kill, kill_proc,
}
use os_2024_project_vm.Proc.Table.{Found, find_proc-Found}

-- No two processes have the same pid, and the next pid is new.
abbrev pub IsUnique : Ptable → Type 0
IsUnique t =
    ((j : ℕ) → j < nproc → is (t.procs j).state unused ≡ false → (t.procs j).pid < t.nextpid)
    × ((i j : ℕ)
        → i < nproc
        → j < nproc
        → is (t.procs i).state unused ≡ false
        → is (t.procs j).state unused ≡ false
        → (t.procs i).pid ≡ (t.procs j).pid
        → i ≡ j)

abbrev pub claimed : ℕ → Ptable → Ptable
claimed i t = record t {
  locked = false;
  procs = update t.procs i (record (t.procs i) { state = embryo; pid = t.nextpid });
  nextpid = t.nextpid + 1;
}

claimed-IsUnique : (t : Ptable) (i : ℕ) → IsUnique t → IsUnique (claimed i t)
unfolding code
claimed-IsUnique t i (below, distinct) = (below', distinct')
  where
    used :
        (j : ℕ)
        → i == j ≡ false
        → is ((claimed i t).procs j).state unused ≡ false
        → is (t.procs j).state unused ≡ false
    used j f u = sym (rw f refl) ∙ u

    old_pid : (j : ℕ) → i == j ≡ false → ((claimed i t).procs j).pid ≡ (t.procs j).pid
    old_pid j f = rw f refl

    new_pid : (j : ℕ) → i == j ≡ true → ((claimed i t).procs j).pid ≡ t.nextpid
    new_pid j f = rw f refl

    clash : {a b : ℕ} → a < b → b ≡ a → ⊥
    clash l h = omega arith

    below' :
        (j : ℕ)
        → j < nproc
        → is ((claimed i t).procs j).state unused ≡ false
        → ((claimed i t).procs j).pid < t.nextpid + 1
    below' j lt u = elim (Bool-cases (i == j)) [
      | inl e ↦ rw e (omega arith)
      | inr e ↦ rw e (let old = below j lt (used j e u) in omega arith)
    ]

    distinct' :
        (j k : ℕ)
        → j < nproc
        → k < nproc
        → is ((claimed i t).procs j).state unused ≡ false
        → is ((claimed i t).procs k).state unused ≡ false
        → ((claimed i t).procs j).pid ≡ ((claimed i t).procs k).pid
        → j ≡ k
    distinct' j k lj lk uj uk e = elim (Bool-cases (i == j)) [
      | inl f ↦ elim (Bool-cases (i == k)) [
        | inl g ↦ ground arith
        | inr g ↦ absurd (clash (below k lk (used k g uk)) (sym (new_pid j f) ∙ e ∙ old_pid k g))
      ]
      | inr f ↦ elim (Bool-cases (i == k)) [
        | inl g ↦
            absurd (clash (below j lj (used j f uj)) (sym (new_pid k g) ∙ sym e ∙ old_pid j f))
        | inr g ↦
            distinct j k lj lk (used j f uj) (used k g uk) (sym (old_pid j f) ∙ e ∙ old_pid k g)
      ]
    ]

-- What the first part of allocproc leaves: nothing if every slot is used, or the first unused slot.
abbrev pub ClaimLeaves : Ptable → Option ℕ → Ptable → Type 0
ClaimLeaves t none t' =
    ((j : ℕ) → j < nproc → is (t.procs j).state unused ≡ false) × (t' ≡ record t { locked = false })
ClaimLeaves t (some i) t' = (i < nproc) × (is (t.procs i).state unused ≡ true) × (t' ≡ claimed i t)

claim_by_find :
    (t : Ptable) (r : Option ℕ)
    → t.locked ≡ false
    → t.nextpid < 2 ^ 31 - 1
    → IsUnique t
    → find_proc (λ p. is p.state unused) t.procs nproc 0 ≡ r
    → Found (λ p. is p.state unused) t.procs nproc 0 r
    → (t' : Ptable) × (claim_slot t ≡ ok (r, t')) × IsUnique t' × ClaimLeaves t r t'
unfolding claim_slot acquire_ptable release_ptable
claim_by_find t none free small unique e found = (
  record t { locked = false },
  rw (◌>>=◌, ◌>>◌, free, e) refl,
  unique,
  (λ j l. found j (omega arith) (omega arith), refl),
)
claim_by_find t (some i) free small unique e (low, lt, here, before) = (
  claimed i t,
  rw (◌>>=◌, ◌>>◌, free, e, next_pid) refl,
  claimed-IsUnique t i unique,
  (omega arith, here, refl),
)
  where
    next_pid : (t.nextpid + 1) % 2 ^ 32 ≡ t.nextpid + 1
    next_pid = omega (arith, small)

-- allocproc, up to its kalloc, with the lock free and the next pid below the largest int, keeps pids unique
-- and the next pid new; it leaves with no slot if every slot is used, and with an unused slot, now EMBRYO with
-- the next pid, otherwise.
pub claim_slot-IsUnique :
    (t : Ptable)
    → t.locked ≡ false
    → t.nextpid < 2 ^ 31 - 1
    → IsUnique t
    → (r : Option ℕ) × (t' : Ptable) × (claim_slot t ≡ ok (r, t'))
      × IsUnique t'
      × ClaimLeaves t r t'
claim_slot-IsUnique t free small unique =
    let r : Option ℕ = find_proc (λ p. is p.state unused) t.procs nproc 0 in
    let (t', run, kept, leaves) =
      claim_by_find t r free small unique refl
        (find_proc-Found (λ p. is p.state unused) t.procs nproc 0) in
    (r, t', run, kept, leaves)

-- What kill leaves: the result and the table.
abbrev pub KillLeaves : ℕ → Ptable → Bool → Ptable → Type 0
KillLeaves pid t false t' =
    ((j : ℕ) → j < nproc → (t.procs j).pid ≢ pid) × (t' ≡ record t { locked = false })
KillLeaves pid t true t' =
    (i : ℕ) × (i < nproc)
    × ((t.procs i).pid ≡ pid)
    × (is (t.procs i).state sleeping ≡ true → (t'.procs i).state ≡ runnable)
    × (is (t.procs i).state sleeping ≡ false → (t'.procs i).state ≡ (t.procs i).state)
    × (t'.procs i ≡ record (t.procs i) { killed = true; state = (t'.procs i).state })
    × ((j : ℕ) → i == j ≡ false → t'.procs j ≡ t.procs j)
    × (t'.locked ≡ false)
    × (t'.nextpid ≡ t.nextpid)
    × (t'.initproc ≡ t.initproc)

kill_by_find :
    (pid : ℕ) (t : Ptable) (r : Option ℕ)
    → t.locked ≡ false
    → find_proc (λ p. p.pid == pid) t.procs nproc 0 ≡ r
    → Found (λ p. p.pid == pid) t.procs nproc 0 r
    → (found : Bool) × (t' : Ptable) × (kill pid t ≡ ok (found, t')) × KillLeaves pid t found t'
unfolding kill acquire_ptable release_ptable code kill_proc
kill_by_find pid t none free e found = (
  false,
  record t { locked = false },
  rw (◌>>=◌, ◌>>◌, free, e) refl,
  (λ j l h. ground (arith, found j (omega arith) (omega arith)), refl),
)
kill_by_find pid t (some i) free e (low, lt, here, before) = (
  true,
  record t { locked = false; procs = update t.procs i (kill_proc (t.procs i)) },
  rw (◌>>=◌, ◌>>◌, free, e) refl,
  (
    i,
    omega arith,
    ground arith,
    λ asleep. rw (==_refl i, asleep) refl,
    λ awake. rw (==_refl i, awake) refl,
    rw (==_refl i) refl,
    λ j f. rw f refl,
    refl,
    refl,
    refl,
  ),
)

-- kill, with the lock free, returns -1 and changes nothing if no slot has the pid; otherwise it returns 0, and
-- one slot with the pid is killed, and RUNNABLE if it was SLEEPING and in its old state if not; its other fields
-- and every other slot are as they were.
pub kill_lem :
    (pid : ℕ) (t : Ptable)
    → t.locked ≡ false
    → (found : Bool) × (t' : Ptable) × (kill pid t ≡ ok (found, t')) × KillLeaves pid t found t'
kill_lem pid t free =
    kill_by_find pid t (find_proc (λ p. p.pid == pid) t.procs nproc 0) free refl
      (find_proc-Found (λ p. p.pid == pid) t.procs nproc 0)

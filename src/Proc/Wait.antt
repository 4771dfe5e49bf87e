-- ===== src/Proc/Wait.antt =====
-- wait finds a child that has exited, and no exit is missed.
use os_2024_project_vm.Base.{
  ℕ, zero, suc, ◌+◌, ◌≤◌, ◌<◌, ◌≡◌, ◌≢◌, refl, sym, ap, ◌∙◌, inl, inr, ◌⊎◌, Bool, true, false, not,
  ◌&&◌, ◌||◌, none, some, ok, arith, ◌==◌, Bool-cases, ==_refl, ◌>>=◌, ◌>>◌,
}
use os_2024_project_vm.Memory.{update}
use os_2024_project_vm.Proc.{
  Waited, sched, sleep, Proc, Ptable, unused, sleeping, zombie, of_proc, code, is, same_chan,
  is_child_of, nproc, exit, acquire_ptable, release_ptable, Scan, reaps, waits, scan, clear_slot,
  reaped, no_children, asleep, wait,
}
use os_2024_project_vm.Proc.Reparent.{asleep_on}
use os_2024_project_vm.Proc.Exit.{exit_lem}

abbrev pub is_dead_child : ℕ → Proc → Bool
is_dead_child me p = is_child_of me p && is p.state zombie

-- The scan stops at a zombie child, or there is none, and it knows whether there are children.
abbrev pub Scanned : ℕ → (ℕ → Proc) → ℕ → ℕ → Bool → Scan → Type 0
Scanned me procs count i havekids (reaps k) = (k < i + count) × (is_dead_child me (procs k) ≡ true)
Scanned me procs count i havekids (waits b) =
    ((j : ℕ) → i ≤ j → j < i + count → is_dead_child me (procs j) ≡ false)
    × (b ≡ false → havekids ≡ false)
    × ((j : ℕ) → i ≤ j → j < i + count → b ≡ false → is_child_of me (procs j) ≡ false)

pass :
    (me : ℕ) (procs : ℕ → Proc) (count i : ℕ) (h h' : Bool) (r : Scan)
    → is_dead_child me (procs i) ≡ false
    → (h' ≡ false → h ≡ false)
    → (h' ≡ false → is_child_of me (procs i) ≡ false)
    → Scanned me procs count (i + 1) h' r
    → Scanned me procs (suc count) i h r
pass me procs count i h h' (reaps k) e w c (lt, dead) = (omega arith, dead)
pass me procs count i h h' (waits b) e w c (none_dead, kids, childless) =
    (λ j l g. here j l g, λ f. w (kids f), λ j l g f. child j l g f)
  where
    split : (i j : ℕ) → i ≤ j → (i ≡ j) ⊎ (i + 1 ≤ j)
    split i j l = ground arith

    here : (j : ℕ) → i ≤ j → j < i + suc count → is_dead_child me (procs j) ≡ false
    here j l g = elim (split i j l) [
      | inl same ↦ ap (λ k. is_dead_child me (procs k)) (sym same) ∙ e
      | inr later ↦ none_dead j later (omega arith)
    ]

    child : (j : ℕ) → i ≤ j → j < i + suc count → b ≡ false → is_child_of me (procs j) ≡ false
    child j l g f = elim (split i j l) [
      | inl same ↦ ap (λ k. is_child_of me (procs k)) (sym same) ∙ c (kids f)
      | inr later ↦ childless j later (omega arith) f
    ]

scan-Scanned :
    (me : ℕ) (procs : ℕ → Proc) (count i : ℕ) (havekids : Bool)
    → Scanned me procs count i havekids (scan me procs count i havekids)
unfolding scan
scan-Scanned me procs zero i h =
    (λ j l g. absurd (omega arith), λ f. f, λ j l g. absurd (omega arith))
scan-Scanned me procs (suc count) i h = elim (Bool-cases (is_child_of me (procs i))) [
  | inl e ↦ elim (Bool-cases (is (procs i).state zombie)) [
    | inl z ↦ rw (e, z) (omega arith, rw (e, z) refl)
    | inr z ↦
        rw (e, z)
          (pass me procs count i h true (scan me procs count (i + 1) true) (rw (e, z) refl)
            (λ f. absurd (ground arith)) (λ f. absurd (ground arith))
            (scan-Scanned me procs count (i + 1) true))
  ]
  | inr e ↦ rw e (
      pass me procs count i h h (scan me procs count (i + 1) h) (rw e refl) (λ f. f) (λ f. e)
        (scan-Scanned me procs count (i + 1) h))
]

abbrev without : ℕ → Ptable → Ptable
without i t = record t { locked = false; procs = update t.procs i (clear_slot (t.procs i)) }

-- The slot `q` is free for a new process, and nothing but the address space and the old channel of `p` is in it.
abbrev pub Cleared : Proc → Proc → Type 0
Cleared p q =
    (q.state ≡ unused)
    × (q.pid ≡ 0)
    × (q.parent ≡ none)
    × (q.killed ≡ false)
    × (q.kstack ≡ 0)
    × (q.sz ≡ p.sz)
    × (q.pgdir ≡ p.pgdir)
    × (q.chan ≡ p.chan)

-- What each way of leaving wait says of the table `t` before and `t'` after.
abbrev pub WaitLeaves : ℕ → Ptable → Waited → Ptable → Type 0
WaitLeaves me t (reaped pid kstack pgdir) t' =
    (i : ℕ) × (i < nproc)
    × (is_dead_child me (t.procs i) ≡ true)
    × (pid ≡ (t.procs i).pid)
    × (kstack ≡ (t.procs i).kstack)
    × (pgdir ≡ (t.procs i).pgdir)
    × Cleared (t.procs i) (t'.procs i)
    × ((j : ℕ) → i == j ≡ false → t'.procs j ≡ t.procs j)
    × (t'.locked ≡ false)
    × (t'.nextpid ≡ t.nextpid)
    × (t'.initproc ≡ t.initproc)
WaitLeaves me t no_children t' =
    ((j : ℕ) → j < nproc → is_dead_child me (t.procs j) ≡ false)
    × (((t.procs me).killed ≡ true) ⊎ ((j : ℕ) → j < nproc → is_child_of me (t.procs j) ≡ false))
    × (t' ≡ record t { locked = false })
WaitLeaves me t asleep t' =
    ((j : ℕ) → j < nproc → is_dead_child me (t.procs j) ≡ false)
    × ((t.procs me).killed ≡ false)
    × (t'.locked ≡ true)
    × (asleep_on (of_proc me) (t'.procs me) ≡ true)
    × ((j : ℕ) → me == j ≡ false → t'.procs j ≡ t.procs j)

wait_by_scan :
    (me : ℕ) (t : Ptable) (r : Scan)
    → t.locked ≡ false
    → scan me t.procs nproc 0 false ≡ r
    → Scanned me t.procs nproc 0 false r
    → (w : Waited) × (t' : Ptable) × (wait me t ≡ ok (w, t')) × WaitLeaves me t w t'
unfolding wait sleep sched acquire_ptable release_ptable code same_chan clear_slot
wait_by_scan me t (reaps i) free e (lt, dead) = (
  reaped (t.procs i).pid (t.procs i).kstack (t.procs i).pgdir,
  without i t,
  rw (◌>>=◌, ◌>>◌, free, e) refl,
  (
    i,
    omega arith,
    dead,
    refl,
    refl,
    refl,
    rw (==_refl i) (refl, refl, refl, refl, refl, refl, refl, refl),
    λ j f. rw f refl,
    refl,
    refl,
    refl,
  ),
)
wait_by_scan me t (waits b) free e (none_dead, kids, childless) =
    elim (Bool-cases (not b || (t.procs me).killed)) [
      | inl done ↦ (
        no_children,
        record t { locked = false },
        rw (◌>>=◌, ◌>>◌, free, e, done) refl,
        (
          λ j l. none_dead j (omega arith) (omega arith),
          elim (Bool-cases b) [
            | inl f ↦ inl (ground arith)
            | inr f ↦ inr (λ j l. childless j (omega arith) (omega arith) f)
          ],
          refl,
        ),
      )
      | inr goes_on ↦ (
        asleep,
        record t {
          locked = true;
          procs = update t.procs me (record (t.procs me) { chan = of_proc me; state = sleeping });
        },
        rw (◌>>=◌, ◌>>◌, free, e, goes_on, ==_refl me) refl,
        (
          λ j l. none_dead j (omega arith) (omega arith),
          ground arith,
          refl,
          rw (==_refl me) (==_refl me),
          λ j f. rw f refl,
        ),
      )
    ]

pub wait_lem :
    (me : ℕ) (t : Ptable)
    → t.locked ≡ false
    → (w : Waited) × (t' : Ptable) × (wait me t ≡ ok (w, t')) × WaitLeaves me t w t'
wait_lem me t free =
    wait_by_scan me t (scan me t.procs nproc 0 false) free refl
      (scan-Scanned me t.procs nproc 0 false)

contra : {b : Bool} → b ≡ false → b ≡ true → ⊥
contra f t = ground arith

-- With a zombie child, wait reaps.
finds_dead :
    (me : ℕ) (t t' : Ptable) (w : Waited) (j : ℕ)
    → j < nproc
    → is_dead_child me (t.procs j) ≡ true
    → WaitLeaves me t w t'
    → (pid kstack pgdir : ℕ) × (w ≡ reaped pid kstack pgdir)
finds_dead me t t' (reaped pid kstack pgdir) j lt dead leaves = (pid, kstack, pgdir, refl)
finds_dead me t t' no_children j lt dead (none_dead, why, same) =
    absurd (contra (none_dead j lt) dead)
finds_dead me t t' asleep j lt dead (none_dead, alive, locked, sleeps, same) =
    absurd (contra (none_dead j lt) dead)

child_by_parent : (p : ℕ) (q : Proc) → q.parent ≡ some p → is_child_of p q ≡ true
unfolding is_child_of
child_by_parent p q e = rw (e, ==_refl p) refl

not_own_parent :
    (child p : ℕ) (q : Proc) → p ≢ child → q.parent ≡ some p → is_child_of child q ≡ false
unfolding is_child_of
not_own_parent child p q other e = rw e (ground arith)

-- No exit is missed: when a process with a parent other than itself exits, the parent is not left asleep in
-- wait, and a call of wait by the parent, once the lock is free, reaps a zombie child.
pub exit-wait :
    (child p : ℕ) (t : Ptable)
    → t.locked ≡ false
    → child ≢ t.initproc
    → child < nproc
    → p < nproc
    → p ≢ child
    → (t.procs child).parent ≡ some p
    → (t' t'' : Ptable) × (pid kstack pgdir : ℕ) × (exit child t ≡ ok (tt, t'))
      × (asleep_on (of_proc p) (t'.procs p) ≡ false)
      × (wait p (record t' { locked = false }) ≡ ok (reaped pid kstack pgdir, t''))
exit-wait child p t free ne small small_p other e =
    let (t', run, locked, dead, no_child, awake, up, kept) = exit_lem child t free ne in
    let (w, t'', run', leaves) = wait_lem p (record t' { locked = false }) refl in
    let (pid, kstack, pgdir, is_reaped) =
      finds_dead p (record t' { locked = false }) t'' w child small
        (rw
          (
            child_by_parent p (t'.procs child)
                (kept child (not_own_parent child p (t.procs child) other e) ∙ e),
            dead,
          )
          (==_refl (code zombie)))
        leaves in
    (t', t'', pid, kstack, pgdir, run, awake p small_p e, run' ∙ ap (λ v. ok (v, t'')) is_reaped)

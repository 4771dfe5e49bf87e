-- ===== src/Proc/Exit.antt =====
-- exit wakes the parent, and gives the children to init.
use mathlib.Core.Path.{subst}
use os_2024_project_vm.Base.{
  ℕ, ◌<◌, ◌≡◌, ◌≢◌, refl, sym, ◌∙◌, inl, inr, Bool, true, false, some, ok, arith, ◌==◌, Bool-cases,
  ==_refl, ◌>>=◌, ◌>>◌,
}
use os_2024_project_vm.Memory.{update}
use os_2024_project_vm.Proc.{
  Proc, Ptable, zombie, Chan, of_proc, code, is, is_child_of, nproc, wakeup1, reparent, parent_chan,
  exit, sched, acquire_ptable,
}
use os_2024_project_vm.Proc.Table.{wakeup1_lem, wakeup1-keeps}
use os_2024_project_vm.Proc.Reparent.{
  asleep_on, equal, reparent-keeps, woken-field, asleep_on-woken, woken-awake, zombie-woken,
  no_child_left, init_awake,
}

-- The table that exit leaves, under the lock.
abbrev pub after_exit : ℕ → Ptable → Ptable
after_exit me t =
    let procs = reparent me t.initproc nproc 0 (wakeup1 (parent_chan (t.procs me)) t.procs) in
    record t { locked = true; procs = update procs me (record (procs me) { state = zombie }) }

exit_runs :
    (me : ℕ) (t : Ptable)
    → t.locked ≡ false
    → me ≢ t.initproc
    → exit me t ≡ ok (tt, after_exit me t)
unfolding exit sched acquire_ptable code
exit_runs me t free ne = rw (not_init, ◌>>=◌, ◌>>◌, free, ==_refl me) refl
  where
    not_init : me == t.initproc ≡ false
    not_init = ground arith

zombie-keeps :
    (P : Proc → Type 0) (me : ℕ) (procs : ℕ → Proc) (j : ℕ)
    → ((p : Proc) → P p → P (record p { state = zombie }))
    → P (procs j)
    → P (update procs me (record (procs me) { state = zombie }) j)
zombie-keeps P me procs j z p = elim (Bool-cases (me == j)) [
  | inl e ↦
      rw e
        (subst (λ k. P (record (procs k) { state = zombie })) (sym (equal me j e)) (z (procs j) p))
  | inr e ↦ rw e p
]

asleep_on-zombie : (c : Chan) (p : Proc) → asleep_on c (record p { state = zombie }) ≡ false
unfolding code
asleep_on-zombie c p = refl

same_parent : (me : ℕ) (p q : Proc) → p.parent ≡ q.parent → is_child_of me p ≡ is_child_of me q
unfolding is_child_of
same_parent me p q h = rw h refl

both : {b : Bool} → b ≡ false → b ≡ true → ⊥
both f t = ground arith

-- exit of a process other than init, with the lock free, gets to the scheduler with the lock held and the
-- process a zombie. No process is its child any more, its parent is not asleep in wait, nor is init if a child
-- that it gives to init is a zombie, and a process that is not its child keeps its parent.
pub exit_lem :
    (me : ℕ) (t : Ptable)
    → t.locked ≡ false
    → me ≢ t.initproc
    → (t' : Ptable) × (exit me t ≡ ok (tt, t'))
      × (t'.locked ≡ true)
      × ((t'.procs me).state ≡ zombie)
      × ((j : ℕ) → j < nproc → is_child_of me (t'.procs j) ≡ false)
      × ((p : ℕ)
          → p < nproc
          → (t.procs me).parent ≡ some p
          → asleep_on (of_proc p) (t'.procs p) ≡ false)
      × ((j : ℕ)
          → j < nproc
          → t.initproc < nproc
          → is_child_of me (t.procs j) ≡ true
          → is (t.procs j).state zombie ≡ true
          → asleep_on (of_proc t.initproc) (t'.procs t.initproc) ≡ false)
      × ((j : ℕ) → is_child_of me (t.procs j) ≡ false → (t'.procs j).parent ≡ (t.procs j).parent)
unfolding is_child_of
exit_lem me t free ne =
    (after_exit me t, exit_runs me t free ne, refl, dead, no_child, parent_awake, init_up, kept)
  where
    first : ℕ → Proc
    first = wakeup1 (parent_chan (t.procs me)) t.procs

    others : ℕ → Proc
    others = reparent me t.initproc nproc 0 first

    dead : ((after_exit me t).procs me).state ≡ zombie
    dead = rw (==_refl me) refl

    no_child : (j : ℕ) → j < nproc → is_child_of me ((after_exit me t).procs j) ≡ false
    no_child j lt =
        zombie-keeps (λ p. is_child_of me p ≡ false) me others j (λ p h. h)
          (no_child_left me t.initproc (λ e. ne (sym e)) nproc 0 first j (omega arith)
            (omega arith))

    parent_awake :
        (p : ℕ)
        → p < nproc
        → (t.procs me).parent ≡ some p
        → asleep_on (of_proc p) ((after_exit me t).procs p) ≡ false
    parent_awake p lt e =
        zombie-keeps (λ q. asleep_on (of_proc p) q ≡ false) me others p
          (λ q h. asleep_on-zombie (of_proc p) q)
          (reparent-keeps (λ q. asleep_on (of_proc p) q ≡ false) me t.initproc nproc 0 first p
            (λ c q h. asleep_on-woken (of_proc p) c q h) (λ q c h. h)
            (rw (e, wakeup1_lem (of_proc p) t.procs p lt) (woken-awake (of_proc p) (t.procs p))))

    init_up :
        (j : ℕ)
        → j < nproc
        → t.initproc < nproc
        → is_child_of me (t.procs j) ≡ true
        → is (t.procs j).state zombie ≡ true
        → asleep_on (of_proc t.initproc) ((after_exit me t).procs t.initproc) ≡ false
    init_up j lt small child z =
        zombie-keeps (λ q. asleep_on (of_proc t.initproc) q ≡ false) me others t.initproc
          (λ q h. asleep_on-zombie (of_proc t.initproc) q)
          (init_awake me t.initproc (λ e. ne (sym e)) nproc 0 first j t.initproc (omega arith)
            (omega arith) small
            (wakeup1-keeps (λ q. is_child_of me q ≡ true) (parent_chan (t.procs me)) t.procs j
              (λ h. woken-field (is_child_of me) (parent_chan (t.procs me)) (t.procs j) refl ∙ h)
              child)
            (wakeup1-keeps (λ q. is q.state zombie ≡ true) (parent_chan (t.procs me)) t.procs j
              (zombie-woken (parent_chan (t.procs me)) (t.procs j)) z))

    kept :
        (j : ℕ)
        → is_child_of me (t.procs j) ≡ false
        → ((after_exit me t).procs j).parent ≡ (t.procs j).parent
    kept j alien =
        zombie-keeps (λ p. p.parent ≡ (t.procs j).parent) me others j (λ p h. h)
          (reparent-keeps (λ p. p.parent ≡ (t.procs j).parent) me t.initproc nproc 0 first j
            (λ c p h. woken-field (λ q. q.parent) c p refl ∙ h)
            (λ p yes h. absurd (both alien (sym (same_parent me p (t.procs j) h) ∙ yes)))
            (wakeup1-keeps (λ p. p.parent ≡ (t.procs j).parent) (parent_chan (t.procs me)) t.procs j
              (λ h. woken-field (λ q. q.parent) (parent_chan (t.procs me)) (t.procs j) refl ∙ h)
              refl))

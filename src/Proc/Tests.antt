-- ===== src/Proc/Tests.antt =====
-- A table with init, its child 1, which sleeps in wait, and 2, a child of 1.
use os_2024_project_vm.Base.{
  ℕ, ◌≡◌, refl, sym, ◌∙◌, Bool-cases, inl, inr, Bool, true, false, ok, arith, if◌then◌else◌, ◌==◌,
  Option, none, some,
}
use os_2024_project_vm.Proc.{
  Proc, ProcState, Ptable, Chan, unused, sleeping, running, runnable, is, no_chan, of_proc, reaped,
  exit, wait, kill, claim_slot, code,
}
use os_2024_project_vm.Proc.Reparent.{asleep_on}
use os_2024_project_vm.Proc.Wait.{exit-wait}
use os_2024_project_vm.Proc.Pids.{IsUnique, ClaimLeaves, KillLeaves, claim_slot-IsUnique, kill_lem}

abbrev process : ProcState → ℕ → Option ℕ → Chan → Proc
process s n par c = record {
  sz = 4096;
  pgdir = 0;
  kstack = 0;
  state = s;
  pid = n;
  parent = par;
  chan = c;
  killed = false;
}

abbrev family : Ptable
family = record {
  locked = false;
  procs = λ i.
      if i == 0
      then process runnable 1 none no_chan
      else (if i == 1
          then process sleeping 2 (some 0) (of_proc 1)
          else (if i == 2
              then process running 3 (some 1) no_chan
              else process unused 0 none no_chan));
  nextpid = 4;
  initproc = 0;
}

exit-wait_example :
    (t' t'' : Ptable) × (pid kstack pgdir : ℕ) × (exit 2 family ≡ ok (tt, t'))
    × (asleep_on (of_proc 1) (t'.procs 1) ≡ false)
    × (wait 1 (record t' { locked = false }) ≡ ok (reaped pid kstack pgdir, t''))
exit-wait_example =
    exit-wait 2 1 family refl (omega arith) (omega arith) (omega arith) (omega arith) refl

kill_lem_example :
    (found : Bool) × (t' : Ptable) × (kill 2 family ≡ ok (found, t')) × KillLeaves 2 family found t'
kill_lem_example = kill_lem 2 family refl

abbrev only_init : Ptable
only_init = record {
  locked = false;
  procs = λ i. if i == 0 then process runnable 1 none no_chan else process unused 0 none no_chan;
  nextpid = 2;
  initproc = 0;
}

used_is_init : (j : ℕ) → is (only_init.procs j).state unused ≡ false → j ≡ 0
unfolding code
used_is_init j h = elim (Bool-cases (j == 0)) [
  | inl e ↦ ground arith
  | inr e ↦ absurd (contra (the_state j e) h)
]
  where
    the_state : (j : ℕ) → j == 0 ≡ false → is (only_init.procs j).state unused ≡ true
    the_state j e = rw e refl

    contra : {b : Bool} → b ≡ true → b ≡ false → ⊥
    contra t f = ground arith

only_init-IsUnique : IsUnique only_init
unfolding code
only_init-IsUnique = (
  λ j l u. rw (used_is_init j u) (omega arith),
  λ i j l m u v e. used_is_init i u ∙ sym (used_is_init j v),
)

claim_slot-IsUnique_example :
    (r : Option ℕ) × (t' : Ptable) × (claim_slot only_init ≡ ok (r, t'))
    × IsUnique t'
    × ClaimLeaves only_init r t'
claim_slot-IsUnique_example = claim_slot-IsUnique only_init refl (omega arith) only_init-IsUnique

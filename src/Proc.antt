-- ===== src/Proc.antt =====
-- proc.c: the table of processes: its slots, sleeping and waking, exit and wait, kill, and the choice of the
-- scheduler. A process is its index in the table; `me` is the index of myproc().
pub mod Table
pub mod Reparent
pub mod Exit
pub mod Wait
pub mod Pids
mod Tests
use os_2024_project_vm.Base.{
  ℕ, zero, suc, ◌+◌, ◌-◌, ◌*◌, ◌%◌, ◌^◌, Bool, true, false, not, ◌&&◌, ◌||◌, Option, none, some,
  Outcome, ok, panic, fault, out_of_fuel, M, pure, ◌>>=◌, ◌>>◌, ltb, leb, ◌==◌, if◌then◌else◌,
}
use os_2024_project_vm.Memory.{update}

abbrev pub nproc : ℕ
nproc = 64

-- `enum procstate`
pub data ProcState : Type 0 where
  unused embryo sleeping runnable running zombie : ProcState

unfoldable pub code : ProcState → ℕ
code unused = 0
code embryo = 1
code sleeping = 2
code runnable = 3
code running = 4
code zombie = 5

abbrev pub is : ProcState → ProcState → Bool
is s t = code s == code t

-- A `void *chan`: no channel, a process, or another object by its address.
pub data Chan : Type 0 where
  no_chan : Chan
  of_proc : ℕ → Chan
  of_object : ℕ → Chan

unfoldable pub same_chan : Chan → Chan → Bool
same_chan no_chan no_chan = true
same_chan (of_proc i) (of_proc j) = i == j
same_chan (of_object a) (of_object b) = a == b
same_chan _ _ = false

-- `struct proc`, without its files, its saved registers and its name; `none` is the null pointer.
pub record Proc : Type 0 where
  pub sz : ℕ
  pub pgdir : ℕ
  pub kstack : ℕ
  pub state : ProcState
  pub pid : ℕ
  pub parent : Option ℕ
  pub chan : Chan
  pub killed : Bool

-- `ptable`, `nextpid` and `initproc`; `locked` is whether this CPU holds the lock. A pid is an int, as the
-- word of its 32 bits.
pub record Ptable : Type 0 where
  pub locked : Bool
  pub procs : ℕ → Proc
  pub nextpid : ℕ
  pub initproc : ℕ

unfoldable pub acquire_ptable : M Ptable (Unit {0})
acquire_ptable t = if t.locked then panic "acquire" else ok (tt, record t { locked = true })

unfoldable pub release_ptable : M Ptable (Unit {0})
release_ptable t = if t.locked then ok (tt, record t { locked = false }) else panic "release"

unfoldable pub is_child_of : ℕ → Proc → Bool
is_child_of me p = elim p.parent [ none ↦ false | some i ↦ i == me ]

-- The slot that a loop over the table stops at, from `i` on, with `count` slots to look at.
unfoldable pub find_proc : (Proc → Bool) → (ℕ → Proc) → ℕ → ℕ → Option ℕ
find_proc test procs zero i = none
find_proc test procs (suc count) i =
    let rest = find_proc test procs count (i + 1) in if test (procs i) then some i else rest

-- wakeup1 from slot `i` on.
unfoldable pub wakeup_loop : Chan → ℕ → ℕ → (ℕ → Proc) → ℕ → Proc
wakeup_loop c zero i procs = procs
wakeup_loop c (suc count) i procs = wakeup_loop c count (i + 1) (
    if is (procs i).state sleeping && same_chan (procs i).chan c
    then update procs i (record (procs i) { state = runnable })
    else procs)

abbrev pub wakeup1 : Chan → (ℕ → Proc) → ℕ → Proc
wakeup1 c procs = wakeup_loop c nproc 0 procs

unfoldable pub wakeup : Chan → M Ptable (Unit {0})
wakeup c = do acquire_ptable; (λ t. ok (tt, record t { procs = wakeup1 c t.procs })); release_ptable

-- What kill does to the process it finds.
unfoldable pub kill_proc : Proc → Proc
kill_proc p = record p { killed = true; state = if is p.state sleeping then runnable else p.state }

-- The result is whether kill returns 0.
unfoldable pub kill : ℕ → M Ptable Bool
kill pid = do
  acquire_ptable
  r ← (λ t. elim (find_proc (λ p. p.pid == pid) t.procs nproc 0) [
    | none ↦ ok (false, t)
    | some i ↦ ok (true, record t { procs = update t.procs i (kill_proc (t.procs i)) })
  ])
  release_ptable
  pure r

-- The part of allocproc up to its kalloc: the slot and its pid.
unfoldable pub claim_slot : M Ptable (Option ℕ)
claim_slot = do
  acquire_ptable
  r ← (λ t. elim (find_proc (λ p. is p.state unused) t.procs nproc 0) [
    | none ↦ ok (none, t)
    | some i ↦ ok (
      some i,
      record t {
        procs = update t.procs i (record (t.procs i) { state = embryo; pid = t.nextpid });
        nextpid = (t.nextpid + 1) % 2 ^ 32;
      },
    )
  ])
  release_ptable
  pure r

-- The rest: `kstack` is what kalloc returned. Without a stack the slot is given back.
unfoldable pub set_kstack : ℕ → ℕ → Ptable → Option ℕ × Ptable
set_kstack kstack i t =
    if kstack == 0
    then (
      none,
      record t { procs = update t.procs i (record (t.procs i) { kstack = 0; state = unused }) },
    )
    else (some i, record t { procs = update t.procs i (record (t.procs i) { kstack = kstack }) })

unfoldable pub allocproc : ℕ → M Ptable (Option ℕ)
allocproc kstack t = elim (claim_slot t) [
  | ok (none, t') ↦ ok (none, t')
  | ok (some i, t') ↦ ok (set_kstack kstack i t')
  | panic e ↦ panic e
  | fault ↦ fault
  | out_of_fuel ↦ out_of_fuel
]

-- The loop of exit that passes the children of `me` to init, from slot `i` on.
unfoldable pub reparent : ℕ → ℕ → ℕ → ℕ → (ℕ → Proc) → ℕ → Proc
reparent me init zero i procs = procs
reparent me init (suc count) i procs =
    let given = update procs i (record (procs i) { parent = some init }) in
    reparent me init count (i + 1) (
      if is_child_of me (procs i)
      then (if is (procs i).state zombie then wakeup1 (of_proc init) given else given)
      else procs)

abbrev pub parent_chan : Proc → Chan
parent_chan p = elim p.parent [ none ↦ no_chan | some i ↦ of_proc i ]

-- sched, for the process `me`: the CPU goes to the scheduler, which holds the lock from here on. Its checks
-- of the interrupt flag and of the depth of pushcli are not in the model.
unfoldable pub sched : ℕ → M Ptable (Unit {0})
sched me t =
    if not t.locked
    then panic "sched ptable.lock"
    else (if is (t.procs me).state running then panic "sched running" else ok (tt, t))

-- exit, after the files are closed: up to the switch to the scheduler.
unfoldable pub exit : ℕ → M Ptable (Unit {0})
exit me t =
    if me == t.initproc
    then panic "init exiting"
    else (do
      acquire_ptable
      (λ t. ok (tt, record t { procs = wakeup1 (parent_chan (t.procs me)) t.procs }))
      (λ t. ok (tt, record t { procs = reparent me t.initproc nproc 0 t.procs }))
      (λ t.
          ok (tt, record t { procs = update t.procs me (record (t.procs me) { state = zombie }) }))
      sched me)
        t

-- sleep under the table's lock, up to the switch.
unfoldable pub sleep : ℕ → Chan → M Ptable (Unit {0})
sleep me c t =
    sched me
      (record t { procs = update t.procs me (record (t.procs me) { chan = c; state = sleeping }) })

unfoldable pub yield : ℕ → M Ptable (Unit {0})
yield me = do
  acquire_ptable
  (λ t. ok (tt, record t { procs = update t.procs me (record (t.procs me) { state = runnable }) }))
  sched me

-- The scan of wait: a zombie child, or whether there are children.
pub data Scan : Type 0 where
  reaps : ℕ → Scan
  waits : (havekids : Bool) → Scan

unfoldable pub scan : ℕ → (ℕ → Proc) → ℕ → ℕ → Bool → Scan
scan me procs zero i havekids = waits havekids
scan me procs (suc count) i havekids =
    let next = scan me procs count (i + 1) havekids in
    let child = scan me procs count (i + 1) true in
    if not (is_child_of me (procs i))
    then next
    else (if is (procs i).state zombie then reaps i else child)

-- The slot after its stack and its page table are freed.
unfoldable pub clear_slot : Proc → Proc
clear_slot p = record p { kstack = 0; pid = 0; parent = none; killed = false; state = unused }

-- How a pass of wait leaves: with a pid and the stack and the page table to free, with -1, or asleep.
pub data Waited : Type 0 where
  reaped : (pid kstack pgdir : ℕ) → Waited
  no_children : Waited
  asleep : Waited

-- The freeing, which does not touch the table, is left to the caller; a sleeper holds the lock on return, as
-- sched does.
unfoldable pub wait : ℕ → M Ptable Waited
wait me = do
  acquire_ptable
  (λ t. elim (scan me t.procs nproc 0 false) [
    | reaps i ↦
        (do release_ptable; pure (reaped (t.procs i).pid (t.procs i).kstack (t.procs i).pgdir))
          (record t { procs = update t.procs i (clear_slot (t.procs i)) })
    | waits havekids ↦
        if not havekids || (t.procs me).killed
        then (do release_ptable; pure no_children) t
        else (do sleep me (of_proc me); pure asleep) t
  ])

-- The next process that a round of the scheduler runs, from slot `i` on.
unfoldable pub pick : ℕ → Ptable → Option ℕ × Ptable
pick i t = elim (find_proc (λ p. is p.state runnable) t.procs (nproc - i) i) [
  | none ↦ (none, t)
  | some j ↦
      (some j, record t { procs = update t.procs j (record (t.procs j) { state = running }) })
]

-- ===== src/Spinlock/Owner.antt =====
-- A lock has one holder.
use os_2024_project_vm.Base.{
  ℕ, ◌+◌, ◌-◌, ◌<◌, ◌≡◌, ◌≢◌, refl, sym, ◌∙◌, inl, inr, true, false, ◌&&◌, none, some, ok, panic,
  out_of_fuel, arith, ◌==◌, if◌then◌else◌, Bool-cases, ==_refl, ◌>>=◌, ◌>>◌,
}
use os_2024_project_vm.Spinlock.{
  Cpu, Spinlock, Locking, pushcli, popcli, held_by, holding, acquire, release, xchg_loop,
}

-- After a pushcli.
abbrev pub pushed : Cpu → Cpu
pushed c = record {
  ncli = c.ncli + 1;
  intena = if c.ncli == 0 then c.interrupts else c.intena;
  interrupts = false;
}

-- holding answers, and leaves a CPU with interrupts off as it was.
holding_lem :
    (me : ℕ) (s : Locking)
    → s.self.interrupts ≡ false
    → 0 < s.self.ncli
    → holding me s ≡ ok (held_by me s.lock, s)
unfolding holding pushcli popcli
holding_lem me s off deep = rw (◌>>=◌, ◌>>◌, not_bottom, back, not_zero, off) refl
  where
    not_bottom : s.self.ncli + 1 == 0 ≡ false
    not_bottom = ground arith

    back : s.self.ncli + 1 - 1 ≡ s.self.ncli
    back = omega arith

    not_zero : s.self.ncli == 0 ≡ false
    not_zero = ground arith

abbrev pub pushed_state : Locking → Locking
pushed_state s = record s { self = pushed s.self }

holding_pushed :
    (me : ℕ) (s : Locking) (l : Spinlock)
    → holding me (record (pushed_state s) { lock = l })
      ≡ ok (held_by me l, record (pushed_state s) { lock = l })
holding_pushed me s l = holding_lem me (record (pushed_state s) { lock = l }) refl (omega arith)

-- What acquire does: it panics, spins or takes the lock.
acquire_lem :
    (me : ℕ) (s : Locking)
    → acquire me s ≡ (
        if held_by me s.lock
        then panic "acquire"
        else (if s.lock.locked
            then out_of_fuel
            else ok
                (tt, record (pushed_state s) { lock = record { locked = true; cpu = some me } })))
unfolding acquire pushcli xchg_loop
acquire_lem me s =
    rw (◌>>=◌, ◌>>◌, holding_pushed me s s.lock)
      (elim (Bool-cases (held_by me s.lock)) [ inl e ↦ rw e refl | inr e ↦ rw e refl ])

-- The CPU after a pushcli and its popcli.
abbrev settled : Cpu → Cpu
settled c = record {
  ncli = c.ncli + 1 - 1;
  intena = if c.ncli == 0 then c.interrupts else c.intena;
  interrupts = (c.ncli + 1 - 1 == 0) && (if c.ncli == 0 then c.interrupts else c.intena);
}

not_bottom : (n : ℕ) → n + 1 == 0 ≡ false
not_bottom n = ground arith

holding_any :
    (me : ℕ) (s : Locking)
    → holding me s ≡ ok (held_by me s.lock, record s { self = settled s.self })
unfolding holding pushcli popcli
holding_any me s = rw (◌>>=◌, ◌>>◌, not_bottom s.self.ncli) refl

release_refuses :
    (me : ℕ) (s : Locking) → held_by me s.lock ≡ false → release me s ≡ panic "release"
unfolding release
release_refuses me s e = rw (◌>>=◌, ◌>>◌, holding_any me s, e) refl

held : (me : ℕ) → held_by me (record { locked = true; cpu = some me }) ≡ true
unfolding held_by
held me = ==_refl me

not_held :
    (me other : ℕ) → me ≢ other → held_by other (record { locked = true; cpu = some me }) ≡ false
unfolding held_by
not_held me other ne = ground arith

unheld : (me : ℕ) (l : Spinlock) → l.locked ≡ false → held_by me l ≡ false
unfolding held_by
unheld me l e = rw e refl

abbrev taken : ℕ → Spinlock
taken me = record { locked = true; cpu = some me }

abbrev free_lock : Spinlock
free_lock = record { locked = false; cpu = none }

release-taken :
    (me : ℕ) (s : Locking)
    → release me (record (pushed_state s) { lock = taken me })
      ≡ ok (tt, record { self = settled s.self; lock = free_lock })
unfolding release popcli
release-taken me s =
    rw (◌>>=◌, ◌>>◌, holding_pushed me s (taken me), held me, not_bottom s.self.ncli) refl

settled_interrupts :
    (c : Cpu) → (0 < c.ncli → c.interrupts ≡ false) → (settled c).interrupts ≡ c.interrupts
settled_interrupts c off = elim (Bool-cases (c.ncli == 0)) [
  | inl e ↦ rw (back, e) refl
  | inr e ↦ rw (back, e) (sym (off (ground arith)))
]
  where
    back : c.ncli + 1 - 1 ≡ c.ncli
    back = omega arith

-- A free lock is taken by acquire, on a CPU whose interrupts are off if its depth is not 0: interrupts are off
-- then, a second acquire by the holder panics, on every other CPU acquire spins and release panics, and the
-- release by the holder frees the lock and leaves the depth and the interrupts as they were before the
-- acquire.
pub acquire-release :
    (me : ℕ) (s : Locking)
    → s.lock.locked ≡ false
    → (0 < s.self.ncli → s.self.interrupts ≡ false)
    → (s1 s2 : Locking) × (acquire me s ≡ ok (tt, s1))
      × (s1.self.interrupts ≡ false)
      × (acquire me s1 ≡ panic "acquire")
      × ((other : ℕ) (o : Cpu)
          → me ≢ other
          → (acquire other (record { self = o; lock = s1.lock }) ≡ out_of_fuel)
            × (release other (record { self = o; lock = s1.lock }) ≡ panic "release"))
      × (release me s1 ≡ ok (tt, s2))
      × (s2.lock.locked ≡ false)
      × (s2.self.ncli ≡ s.self.ncli)
      × (s2.self.interrupts ≡ s.self.interrupts)
acquire-release me s free off = (
  record (pushed_state s) { lock = taken me },
  record { self = settled s.self; lock = free_lock },
  acquire_lem me s ∙ rw (unheld me s.lock free, free) refl,
  refl,
  acquire_lem me (record (pushed_state s) { lock = taken me }) ∙ rw (held me) refl,
  λ other o ne. (
    acquire_lem other (record { self = o; lock = taken me }) ∙ rw (not_held me other ne) refl,
    release_refuses other (record { self = o; lock = taken me }) (not_held me other ne),
  ),
  release-taken me s,
  refl,
  omega arith,
  settled_interrupts s.self off,
)

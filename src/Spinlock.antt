-- ===== src/Spinlock.antt =====
-- spinlock.c: spin locks, and the nesting of disabled interrupts that they use. The state is one CPU and one
-- lock; the identity of the CPU is a number.
pub mod Nesting
pub mod Owner
mod Tests
use os_2024_project_vm.Base.{
  ℕ, zero, suc, ◌+◌, ◌-◌, Bool, true, false, not, ◌&&◌, ◌||◌, Option, none, some, Outcome, ok,
  panic, out_of_fuel, M, pure, ◌>>=◌, ◌>>◌, ltb, leb, ◌==◌, if◌then◌else◌,
}

-- The part of `struct cpu` that pushcli uses, and FL_IF of the CPU's flags.
pub record Cpu : Type 0 where
  pub ncli : ℕ
  pub intena : Bool
  pub interrupts : Bool

-- `struct spinlock`: `cpu` is the holder, `none` the null pointer. The name and the call stack are left out.
pub record Spinlock : Type 0 where
  pub locked : Bool
  pub cpu : Option ℕ

pub record Locking : Type 0 where
  pub self : Cpu
  pub lock : Spinlock

unfoldable pub initlock : Spinlock
initlock = record { locked = false; cpu = none }

unfoldable pub pushcli : M Locking (Unit {0})
pushcli s = ok (
  tt,
  record s {
    self = record {
      ncli = s.self.ncli + 1;
      intena = if s.self.ncli == 0 then s.self.interrupts else s.self.intena;
      interrupts = false;
    };
  },
)

-- A depth of 0 would become -1.
unfoldable pub popcli : M Locking (Unit {0})
popcli s =
    if s.self.interrupts
    then panic "popcli - interruptible"
    else (if s.self.ncli == 0
        then panic "popcli"
        else ok (
          tt,
          record s {
            self = record {
              ncli = s.self.ncli - 1;
              intena = s.self.intena;
              interrupts = (s.self.ncli - 1 == 0) && s.self.intena;
            };
          },
        ))

unfoldable pub held_by : ℕ → Spinlock → Bool
held_by me l = l.locked && (elim l.cpu [ none ↦ false | some c ↦ c == me ])

-- `me` is mycpu().
module _ (me : ℕ) where
  unfoldable pub holding : M Locking Bool
  holding = do pushcli; r ← (λ s. ok (held_by me s.lock, s)); popcli; pure r

  -- The loop on xchg: while another CPU holds the lock it does not end, and `out_of_fuel` stands for that.
  unfoldable pub xchg_loop : M Locking (Unit {0})
  xchg_loop s =
      if s.lock.locked
      then out_of_fuel
      else ok (tt, record s { lock = record { locked = true; cpu = some me } })

  unfoldable pub acquire : M Locking (Unit {0})
  acquire = do pushcli; r ← holding; if r then (λ s. panic "acquire") else xchg_loop

  unfoldable pub release : M Locking (Unit {0})
  release = do
    r ← holding
    if r
        then (do (λ s. ok (tt, record s { lock = record { locked = false; cpu = none } })); popcli)
        else (λ s. panic "release")

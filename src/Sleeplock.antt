-- ===== src/Sleeplock.antt =====
-- sleeplock.c: locks that are held across sleeps. `me` is the pid of the calling process.
pub mod Holder
mod Tests
use os_2024_project_vm.Base.{
  ℕ, suc, ◌+◌, Bool, true, false, not, ◌&&◌, Outcome, ok, panic, M, pure, ◌>>=◌, ◌>>◌, ◌==◌,
  if◌then◌else◌,
}

-- `struct sleeplock`. `lk` is whether this CPU holds the spin lock that protects it; `woken` counts the calls
-- of wakeup.
pub record Sleeplock : Type 0 where
  pub lk : Bool
  pub locked : Bool
  pub pid : ℕ
  pub woken : ℕ

unfoldable pub acquire_lk : M Sleeplock (Unit {0})
acquire_lk l = if l.lk then panic "acquire" else ok (tt, record l { lk = true })

unfoldable pub release_lk : M Sleeplock (Unit {0})
release_lk l = if l.lk then ok (tt, record l { lk = false }) else panic "release"

unfoldable pub initsleeplock : Sleeplock
initsleeplock = record { lk = false; locked = false; pid = 0; woken = 0 }

-- One pass of acquiresleep: whether it takes the lock. If it does not it sleeps, which releases the spin lock,
-- and makes a new pass when it is woken.
unfoldable pub acquiresleep : ℕ → M Sleeplock Bool
acquiresleep me = do
  acquire_lk
  r ← (λ l. if l.locked then ok (false, l) else ok (true, record l { locked = true; pid = me }))
  release_lk
  pure r

unfoldable pub releasesleep : M Sleeplock (Unit {0})
releasesleep = do
  acquire_lk
  (λ l. ok (tt, record l { locked = false; pid = 0; woken = l.woken + 1 }))
  release_lk

unfoldable pub holdingsleep : ℕ → M Sleeplock Bool
holdingsleep me = do acquire_lk; r ← (λ l. ok (l.locked && (l.pid == me), l)); release_lk; pure r

-- ===== src/Fs/Room.antt =====
-- fs.c: a changed buffer of a transaction with room for it in the log.
use os_2024_project_vm.Base.{ℕ, suc, ◌+◌, ◌≤◌, ◌<◌, ◌≡◌, refl, false, ok, arith, M}
use os_2024_project_vm.Memory.{update}
use os_2024_project_vm.Blocks.{Block, pin}
use os_2024_project_vm.Log.{Header, Log, logsize, log_write}
use os_2024_project_vm.Log.Absorb.{IsDistinct, Added, log_write-Added}
use os_2024_project_vm.Fs.State.{Fs, write_buf, set_data, on_log}

-- A transaction is open, the lock is free, and `k` more blocks fit in the log.
abbrev pub Room : ℕ → Log → Type 0
Room k l =
    (l.locked ≡ false)
    × (0 < l.outstanding)
    × (l.lh.n + k ≤ logsize)
    × (l.lh.n + k < l.size)
    × IsDistinct l.lh

-- The state after the data of block `b` have become `d`: only the log changes, and it has `b`.
abbrev pub Wrote : ℕ → ℕ → Block → Fs → Fs → Type 0
Wrote k b d s s' =
    (s'.sb ≡ s.sb)
    × (s'.inodes ≡ s.inodes)
    × (s'.log.blocks.view ≡ update s.log.blocks.view b d)
    × Added b s.log.lh s'.log.lh
    × Room k s'.log

on_log-ok :
    {A : Type 0} (m : M Log A) (s : Fs) (l : Log) (a : A)
    → m s.log ≡ ok (a, l)
    → on_log m s ≡ ok (a, record s { log = l })
on_log-ok m s l a e = rw (on_log, e) refl

pub write_buf-Wrote :
    (k b : ℕ) (d : Block) (s : Fs)
    → Room (suc k) s.log
    → (s' : Fs) × (write_buf b d s ≡ ok (tt, s')) × Wrote k b d s s'
unfolding write_buf pin
write_buf-Wrote k b d s (free, inside, fits, space, distinct) =
    let (h, returned, added) =
      log_write-Added b (set_data b d s).log distinct free (omega arith) (omega arith) inside in
    (
      record (set_data b d s) {
        log = record (set_data b d s).log { lh = h; blocks = pin b (set_data b d s).log.blocks };
      },
      on_log-ok (log_write b) (set_data b d s)
          (record (set_data b d s).log { lh = h; blocks = pin b (set_data b d s).log.blocks }) tt
          returned,
      (
        refl,
        refl,
        refl,
        added,
        (free, inside, grown h added.3 fits, grown_size h added.3 space, added.0),
      ),
    )
  where
    grown : (h : Header) → h.n ≤ s.log.lh.n + 1 → s.log.lh.n + suc k ≤ logsize → h.n + k ≤ logsize
    grown h l m = omega arith

    grown_size :
        (h : Header) → h.n ≤ s.log.lh.n + 1 → s.log.lh.n + suc k < s.log.size → h.n + k < s.log.size
    grown_size h l m = omega arith

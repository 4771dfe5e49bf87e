-- ===== src/Log.antt =====
-- log.c: the redo log that makes the block writes of a group of system calls atomic, over the buffer cache
-- as Blocks describes it.
pub mod Absorb
pub mod Steps
pub mod Reserve
pub mod Install
pub mod Commit
pub mod Recover
mod Tests
use os_2024_project_vm.Base.{
  ℕ, zero, suc, ◌+◌, ◌-◌, ◌*◌, Bool, true, false, not, ◌&&◌, ◌||◌, Outcome, ok, panic, M, pure,
  ◌>>=◌, ◌>>◌, ltb, leb, ◌==◌, if◌then◌else◌,
}
use os_2024_project_vm.Memory.{update}
use os_2024_project_vm.Blocks.{Block, Disk, Blocks, write_block, pin, restart}

abbrev pub maxopblocks : ℕ
maxopblocks = 10

abbrev pub logsize : ℕ
logsize = 30

-- `struct logheader`; in its block, word 0 is `n` and word `i + 1` is `block[i]`.
pub record Header : Type 0 where
  pub n : ℕ
  pub block : ℕ → ℕ

-- `struct log`, and the blocks it works on. `locked` is whether this CPU holds `log.lock`; `woken` counts the
-- calls of wakeup.
pub record Log : Type 0 where
  pub locked : Bool
  pub start : ℕ
  pub size : ℕ
  pub outstanding : ℕ
  pub committing : Bool
  pub lh : Header
  pub woken : ℕ
  pub blocks : Blocks

unfoldable pub acquire_log : M Log (Unit {0})
acquire_log l = if l.locked then panic "acquire" else ok (tt, record l { locked = true })

unfoldable pub release_log : M Log (Unit {0})
release_log l = if l.locked then ok (tt, record l { locked = false }) else panic "release"

-- One round of the loop of install_trans: the log block `tail` goes to its home.
unfoldable pub install_block : ℕ → Log → Log
install_block tail l = record l {
  blocks = write_block (l.lh.block tail) (l.blocks.view (l.start + tail + 1)) l.blocks;
}

unfoldable pub write_log_block : ℕ → Log → Log
write_log_block tail l = record l {
  blocks = write_block (l.start + tail + 1) (l.blocks.view (l.lh.block tail)) l.blocks;
}

-- `for (tail = 0; tail < count; tail++)`, with `count` rounds left.
unfoldable pub tail_loop : (ℕ → Log → Log) → ℕ → ℕ → Log → Log
tail_loop round zero tail l = l
tail_loop round (suc count) tail l = tail_loop round count (tail + 1) (round tail l)

unfoldable pub install_trans : Log → Log
install_trans l = tail_loop install_block l.lh.n 0 l

unfoldable pub write_log : Log → Log
write_log l = tail_loop write_log_block l.lh.n 0 l

-- The loops over `block[i]` of read_head and write_head: the first `count` entries are copied.
unfoldable pub copy_entries : ℕ → (ℕ → ℕ) → (ℕ → ℕ) → ℕ → ℕ
copy_entries zero from to = to
copy_entries (suc i) from to = update (copy_entries i from to) i (from i)

unfoldable pub copy_words : ℕ → (ℕ → ℕ) → Block → Block
copy_words zero from to = to
copy_words (suc i) from to = update (copy_words i from to) (i + 1) (from i)

unfoldable pub read_head : Log → Log
read_head l =
    let b = l.blocks.view l.start in
    record l { lh = record { n = b 0; block = copy_entries (b 0) (λ i. b (i + 1)) l.lh.block } }

unfoldable pub write_head : Log → Log
write_head l =
    let b = l.blocks.view l.start in
    record l {
      blocks = write_block l.start (copy_words l.lh.n l.lh.block (update b 0 l.lh.n)) l.blocks;
    }

unfoldable pub clear_head : Log → Log
clear_head l = record l { lh = record { n = 0; block = l.lh.block } }

unfoldable pub recover_from_log : Log → Log
recover_from_log l = write_head (clear_head (install_trans (read_head l)))

-- initlog after a restart: `logstart` and `nlog` come from the super block, and static data is zero.
unfoldable pub initlog : ℕ → ℕ → Disk → Log
initlog logstart nlog d = recover_from_log record {
  locked = false;
  start = logstart;
  size = nlog;
  outstanding = 0;
  committing = false;
  lh = record { n = 0; block = λ i. 0 };
  woken = 0;
  blocks = restart d;
}

unfoldable pub commit : Log → Log
commit l =
    if ltb 0 l.lh.n then write_head (clear_head (install_trans (write_head (write_log l)))) else l

pub data Begun : Type 0 where
  begun : Begun
  asleep : Begun

-- One pass of begin_op, up to where it returns or sleeps; a sleeper that is woken makes a new pass.
unfoldable pub begin_op : M Log Begun
begin_op = do
  acquire_log
  r ← (λ l.
      if l.committing || ltb logsize (l.lh.n + (l.outstanding + 1) * maxopblocks)
      then ok (asleep, l)
      else ok (begun, record l { outstanding = l.outstanding + 1 }))
  release_log
  pure r

-- The first critical section of end_op; the result is `do_commit`: no operation is left. A call with none
-- outstanding, which would make the int -1, leaves it 0.
unfoldable pub end_op_first : M Log Bool
end_op_first = do
  acquire_log
  r ← (λ l.
      if l.committing
      then panic "log.committing"
      else (if l.outstanding == 1
          then ok (true, record l { outstanding = l.outstanding - 1; committing = true })
          else ok (false, record l { outstanding = l.outstanding - 1; woken = l.woken + 1 })))
  release_log
  pure r

unfoldable pub end_op_last : M Log (Unit {0})
end_op_last = do
  acquire_log
  (λ l. ok (tt, record l { committing = false; woken = l.woken + 1 }))
  release_log

unfoldable pub end_op : M Log (Unit {0})
end_op = do
  do_commit ← end_op_first
  (λ l. if do_commit then end_op_last (commit l) else ok (tt, l))

-- The loop of log_write: the first entry below `n` that is `blockno`, or `n`. `left` are the entries to look
-- at from `i` on.
unfoldable pub find_entry : (ℕ → ℕ) → ℕ → ℕ → ℕ → ℕ
find_entry block blockno zero i = i
find_entry block blockno (suc left) i =
    let rest = find_entry block blockno left (i + 1) in if block i == blockno then i else rest

unfoldable pub add_entry : ℕ → Header → Header
add_entry blockno h =
    let i = find_entry h.block blockno h.n 0 in
    record { n = if i == h.n then h.n + 1 else h.n; block = update h.block i blockno }

unfoldable pub log_write : ℕ → M Log (Unit {0})
log_write blockno l =
    if leb logsize l.lh.n || leb (l.size - 1) l.lh.n
    then panic "too big a transaction"
    else (if ltb l.outstanding 1
        then panic "log_write outside of trans"
        else (do
          acquire_log
          (λ k. ok (tt, record k { lh = add_entry blockno k.lh; blocks = pin blockno k.blocks }))
          release_log)
            l)

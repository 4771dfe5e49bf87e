-- ===== src/Log/Tests.antt =====
-- The log on small transactions.
use os_2024_project_vm.Base.{
  ◌≤◌, ◌≡◌, refl, inr, ◌⊎◌, false, ok, arith, if◌then◌else◌, ◌==◌, List, [], ◌∷◌, Returns, All,
}
use mathlib.Core.List.{Memᴰ}
use os_2024_project_vm.Blocks.{Disk, pin, restart, write_block}
use os_2024_project_vm.Log.{
  Header, Log, begun, logsize, acquire_log, release_log, begin_op, log_write, end_op, commit,
  initlog, write_log, install_trans, tail_loop, write_head, clear_head, install_block,
  write_log_block,
}
use os_2024_project_vm.Log.Absorb.{Added, log_write-Added}
use os_2024_project_vm.Log.Install.{IsEmpty, IsInstalled, IsRecoverable}
use os_2024_project_vm.Log.Commit.{commit-IsInstalled}
use os_2024_project_vm.Log.Recover.{never, commit_atomic}
use os_2024_project_vm.Log.Steps.{begins, starts, goes}
use os_2024_project_vm.Log.Reserve.{reservation_suffices}

-- A log at block 2 of a disk of empty blocks.
abbrev log_at_rest : Log
log_at_rest = record {
  locked = false;
  start = 2;
  size = 31;
  outstanding = 0;
  committing = false;
  lh = record { n = 0; block = λ i. 0 };
  woken = 0;
  blocks = restart (λ b i. 0);
}

-- Block 50 is logged, and its buffer holds sevens.
abbrev one_logged : Log
one_logged = record log_at_rest {
  outstanding = 1;
  lh = record { n = 1; block = λ i. 50 };
  blocks = record {
    view = λ b i. if b == 50 then 7 else 0;
    disk = λ b i. 0;
    past = [];
    pinned = λ b. b == 50;
  };
}

log_write-Added_example :
    (h : Header) × (log_write 60 one_logged
      ≡ ok (tt, record one_logged { lh = h; blocks = pin 60 one_logged.blocks }))
    × Added 60 one_logged.lh h
log_write-Added_example =
    log_write-Added 60 one_logged (λ i j p q e. omega arith) refl (omega arith) (omega arith)
      (omega arith)

commit-IsInstalled_example :
    All
      (IsRecoverable 2 31 one_logged.lh one_logged.blocks.disk one_logged.blocks.view)
      ((commit one_logged).blocks.disk ∷ (commit one_logged).blocks.past)
    × IsInstalled 2 31 one_logged.lh one_logged.blocks.disk one_logged.blocks.view
        (commit one_logged).blocks.disk
commit-IsInstalled_example =
    commit-IsInstalled one_logged (omega arith, λ i lt. inr (omega arith)) refl refl

abbrev newest : List Disk → Disk
newest [] = λ b i. 0
newest (d ∷ ds) = d

-- The crash is before the last write to the disk, when block 50 is in its home.
abbrev home_written : Disk
home_written = newest (commit one_logged).blocks.past

home_written_left :
    Memᴰ home_written ((commit one_logged).blocks.disk ∷ (commit one_logged).blocks.past)
unfolding commit write_log install_trans tail_loop write_head clear_head install_block
    write_log_block write_block
home_written_left = Memᴰ.tail (Memᴰ.head refl)

begins_at_rest : begin_op log_at_rest ≡ ok (begun, record log_at_rest { outstanding = 1 })
unfolding begin_op acquire_log release_log
begins_at_rest = refl

commit_atomic_example :
    IsEmpty 2 31 one_logged.lh one_logged.blocks.disk one_logged.blocks.view
      (initlog 2 31 home_written).blocks.disk
    ⊎ IsInstalled 2 31 one_logged.lh one_logged.blocks.disk one_logged.blocks.view
        (initlog 2 31 home_written).blocks.disk
commit_atomic_example =
    commit_atomic one_logged home_written home_written (omega arith, λ i lt. inr (omega arith)) refl
      refl home_written_left never

reservation_suffices_example :
    Returns (λ (r, l'). l'.lh.n ≤ logsize) (log_write 60 (record log_at_rest { outstanding = 1 }))
    × Returns (λ (r, l'). l'.lh.n ≤ logsize) (end_op (record log_at_rest { outstanding = 1 }))
    × Returns (λ (r, l'). l'.lh.n ≤ logsize) (begin_op (record log_at_rest { outstanding = 1 }))
reservation_suffices_example =
    reservation_suffices log_at_rest (record log_at_rest { outstanding = 1 }) 9 60 [] (omega arith)
      refl refl refl refl (goes starts (begins begins_at_rest))

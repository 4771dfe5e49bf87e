-- ===== src/Log/Commit.antt =====
-- A commit, write by write.
use os_2024_project_vm.Base.{
  ℕ, zero, suc, ◌+◌, ◌<◌, ◌≡◌, refl, sym, ap, ◌∙◌, inl, inr, false, arith, ltb, Bool-cases, [], ◌∷◌,
  All,
}
use os_2024_project_vm.Memory.{update}
use os_2024_project_vm.Blocks.{Block, Disk, Blocks, write_block}
use os_2024_project_vm.Log.{
  Log, install_block, install_trans, write_log_block, write_log, copy_words, write_head, clear_head,
  commit,
}
use os_2024_project_vm.Log.Absorb.{logged, logged_index}
use os_2024_project_vm.Log.Install.{
  tail_loop-induct, copy_words_zero, copy_words_entry, IsHome, FitsLog, IsCommitted, target,
  IsInstalled, IsRecoverable, Writing, Installing, Writing-step, Installing-step,
}

module _ (l : Log) (old new : Disk) where
  -- write_head with the whole log written commits.
  head-commits :
      (s : Blocks)
      → FitsLog l.start l.size l.lh old new
      → Writing l.start l.size l.lh old new l.lh.n s
      → (w : Block) × (write_head (record l { blocks = s })
          ≡ record l { blocks = write_block l.start w s })
        × IsCommitted l.start l.size l.lh old new (update s.disk l.start w)
  unfolding write_head
  head-commits s (fits, homes) (before, (none_yet, same), views, written, seen) = (
    copy_words l.lh.n l.lh.block (update (s.view l.start) 0 l.lh.n),
    refl,
    (
      at_start 0
          ∙ copy_words_zero l.lh.n l.lh.block (update (s.view l.start) 0 l.lh.n)
          ∙ ground arith,
      λ i lt.
          at_start (i + 1)
          ∙ copy_words_entry l.lh.n l.lh.block (update (s.view l.start) 0 l.lh.n) i lt,
      λ i lt. ground (arith, written i lt),
      λ b home out. ground (arith, same b home),
    ),
  )
    where
      at_start :
          (i : ℕ)
          → update s.disk l.start
              (copy_words l.lh.n l.lh.block (update (s.view l.start) 0 l.lh.n))
              l.start
              i
            ≡ copy_words l.lh.n l.lh.block (update (s.view l.start) 0 l.lh.n) i
      at_start i = ground arith

  -- write_head with an empty header and every block in its home ends the transaction.
  head-clears :
      (s : Blocks)
      → FitsLog l.start l.size l.lh old new
      → Installing l.start l.size l.lh old new l.lh.n s
      → (w : Block) × (write_head (clear_head (record l { blocks = s }))
          ≡ clear_head (record l { blocks = write_block l.start w s }))
        × IsInstalled l.start l.size l.lh old new (update s.disk l.start w)
  unfolding write_head clear_head
  head-clears s (fits, homes) (before, (count, entries, copies, others), views, installed) = (
    copy_words 0 l.lh.block (update (s.view l.start) 0 0),
    refl,
    (
      ground (arith, copy_words_zero 0 l.lh.block (update (s.view l.start) 0 0)),
      λ b home. elsewhere b home ∙ at_home b home,
    ),
  )
    where
      elsewhere :
          (b : ℕ)
          → IsHome l.start l.size l.lh old new b
          → update s.disk l.start (copy_words 0 l.lh.block (update (s.view l.start) 0 0)) b
            ≡ s.disk b
      elsewhere b home = ground arith

      at_home :
          (b : ℕ)
          → IsHome l.start l.size l.lh old new b
          → s.disk b ≡ target l.start l.size l.lh old new b
      at_home b home = elim (Bool-cases (logged l.lh.n l.lh.block b)) [
        | inl e ↦ rw e (
            let (i, lt, at) = logged_index l.lh.n l.lh.block b e in
            ap s.disk (sym at) ∙ installed i lt ∙ ap new at)
        | inr e ↦ rw e (others b home e)
      ]

  -- The end of a commit and of a recovery: install, and clear the header.
  pub installs :
      (s : Blocks)
      → FitsLog l.start l.size l.lh old new
      → Installing l.start l.size l.lh old new 0 s
      → (s' : Blocks) × (write_head (clear_head (install_trans (record l { blocks = s })))
          ≡ clear_head (record l { blocks = s' }))
        × All (IsRecoverable l.start l.size l.lh old new) s'.past
        × IsInstalled l.start l.size l.lh old new s'.disk
  unfolding install_trans write_block install_block
  installs s fits start =
      let (s1, run1, done) =
        tail_loop-induct install_block
          (λ t s. write_block (l.lh.block t) (s.view (l.start + t + 1)) s) l
          (Installing l.start l.size l.lh old new) l.lh.n (λ t s. refl)
          (λ t s lt inv. Installing-step l.start l.size l.lh old new t s lt fits inv) l.lh.n 0 s
          (omega arith) start in
      let (w, run2, installed) = head-clears s1 fits done in
      (write_block l.start w s1, rw run1 run2, (inr (inl done.1), done.0), installed)

  -- The first half of a commit: the log is written, and then its header.
  logs :
      (s : Blocks)
      → FitsLog l.start l.size l.lh old new
      → Writing l.start l.size l.lh old new 0 s
      → (s' : Blocks) × (write_head (write_log (record l { blocks = s }))
          ≡ record l { blocks = s' })
        × All (IsRecoverable l.start l.size l.lh old new) s'.past
        × IsCommitted l.start l.size l.lh old new s'.disk
        × ((i : ℕ) → i < l.lh.n → s'.view (l.start + i + 1) ≡ new (l.lh.block i))
  unfolding write_log write_block write_log_block
  logs s fits start =
      let (s1, run1, done) =
        tail_loop-induct write_log_block
          (λ t s. write_block (l.start + t + 1) (s.view (l.lh.block t)) s) l
          (Writing l.start l.size l.lh old new) l.lh.n (λ t s. refl)
          (λ t s lt inv. Writing-step l.start l.size l.lh old new t s lt fits inv) l.lh.n 0 s
          (omega arith) start in
      let (w, run2, committed) = head-commits s1 fits done in
      (
        write_block l.start w s1,
        rw run1 run2,
        (inl done.1, done.0),
        committed,
        λ i lt. ground (arith, done.4 i lt),
      )

nothing : (n : ℕ) (block : ℕ → ℕ) (b : ℕ) → ltb 0 n ≡ false → logged n block b ≡ false
unfolding logged
nothing zero block b e = refl
nothing (suc n) block b e = absurd (ground arith)

-- A commit of a log that is empty on the disk: it leaves the header empty and every logged block in its home,
-- and each disk on the way is recoverable.
pub commit-IsInstalled :
    (l : Log)
    → FitsLog l.start l.size l.lh l.blocks.disk l.blocks.view
    → l.blocks.disk l.start 0 ≡ 0
    → l.blocks.past ≡ []
    → All
        (IsRecoverable l.start l.size l.lh l.blocks.disk l.blocks.view)
        ((commit l).blocks.disk ∷ (commit l).blocks.past)
      × IsInstalled l.start l.size l.lh l.blocks.disk l.blocks.view (commit l).blocks.disk
unfolding commit clear_head
commit-IsInstalled l fits none_yet fresh = elim (Bool-cases (ltb 0 l.lh.n)) [
  | inl e ↦
      let (s1, run1, past1, committed, views) = logs l l.blocks.disk l.blocks.view l.blocks fits (
        rw fresh tt,
        (none_yet, λ b home. refl),
        λ i lt. refl,
        λ i lt. absurd (omega arith),
        λ i lt. absurd (omega arith),
      ) in
      let (s2, run2, past2, installed) =
        installs l l.blocks.disk l.blocks.view s1 fits
          (past1, committed, views, λ i lt. absurd (omega arith)) in
      rw (e, run1, run2) ((inr (inr installed), past2), installed)
  | inr e ↦
      rw (e, fresh)
        (
          (inl (none_yet, λ b home. refl), tt),
          (none_yet, λ b home. rw (nothing l.lh.n l.lh.block b e) refl),
        )
]

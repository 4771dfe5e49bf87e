-- ===== src/Log/Recover.antt =====
-- Recovery, and that a commit is atomic: whichever writes to the disk a crash lets through, and however
-- often recovery is interrupted as well.
use os_2024_project_vm.Base.{
  ℕ, zero, suc, ◌+◌, ◌≤◌, ◌<◌, ◌≡◌, refl, sym, ap, ◌∙◌, inl, inr, ◌⊎◌, false, arith, List, [], ◌∷◌,
  All,
}
use mathlib.Core.List.{Memᴰ}
use os_2024_project_vm.Blocks.{Block, Disk, restart}
use os_2024_project_vm.Log.{
  Header, Log, copy_entries, read_head, clear_head, recover_from_log, initlog, commit,
}
use os_2024_project_vm.Log.Absorb.{logged, logged-ext}
use os_2024_project_vm.Log.Install.{FitsLog, IsEmpty, IsCommitted, IsInstalled, IsRecoverable}
use os_2024_project_vm.Log.Commit.{installs, commit-IsInstalled}

All-map :
    {A : Type 0} {P Q : A → Type 0} (f : (x : A) → P x → Q x) (xs : List A) → All P xs → All Q xs
All-map f [] all = tt
All-map f (x ∷ xs) (p, all) = (f x p, All-map f xs all)

-- The header that read_head reads from a disk.
abbrev head_of : Block → Header
head_of b = record { n = b 0; block = copy_entries (b 0) (λ i. b (i + 1)) (λ i. 0) }

copy_entries_lem : (n : ℕ) (from to : ℕ → ℕ) (i : ℕ) → i < n → copy_entries n from to i ≡ from i
unfolding copy_entries
copy_entries_lem zero from to i lt = absurd (omega arith)
copy_entries_lem (suc n) from to i lt = ground (arith, copy_entries_lem n from to i, ap from)

-- Two headers with the same entries.
abbrev Agree : Header → Header → Type 0
Agree h k = (k.n ≡ h.n) × ((i : ℕ) → i < h.n → k.block i ≡ h.block i)

Agree-sym : (h k : Header) → Agree h k → Agree k h
Agree-sym h k (same, entries) = (sym same, λ i lt. sym (entries i (ground arith)))

logged-Agree : (h k : Header) (b : ℕ) → Agree h k → logged k.n k.block b ≡ logged h.n h.block b
logged-Agree h k b (same, entries) = rw same (logged-ext h.n h.block k.block b entries)

module _ (start size : ℕ) (old new : Disk) (h k : Header) (agree : Agree h k) where
  FitsLog-Agree : FitsLog start size h old new → FitsLog start size k old new
  FitsLog-Agree (fits, homes) =
      (ground (arith, agree.0), λ i lt. ground (arith, agree.0, agree.1 i, homes i))

  IsCommitted-Agree :
      (d : Disk) → IsCommitted start size h old new d → IsCommitted start size k old new d
  IsCommitted-Agree d (count, entries, copies, others) = (
    count ∙ sym agree.0,
    λ i lt. entries i (smaller i lt) ∙ sym (agree.1 i (smaller i lt)),
    λ i lt. copies i (smaller i lt) ∙ ap new (sym (agree.1 i (smaller i lt))),
    λ b home out. others b home (sym (logged-Agree h k b agree) ∙ out),
  )
    where
      smaller : (i : ℕ) → i < k.n → i < h.n
      smaller i lt = ground (arith, agree.0)

  IsInstalled-Agree :
      (d : Disk) → IsInstalled start size h old new d → IsInstalled start size k old new d
  IsInstalled-Agree d (none, homes) = (none, λ b home. rw (logged-Agree h k b agree) (homes b home))

  IsRecoverable-Agree :
      (d : Disk) → IsRecoverable start size h old new d → IsRecoverable start size k old new d
  IsRecoverable-Agree d (inl e) = inl e
  IsRecoverable-Agree d (inr (inl c)) = inr (inl (IsCommitted-Agree d c))
  IsRecoverable-Agree d (inr (inr i)) = inr (inr (IsInstalled-Agree d i))

no_entry : (n : ℕ) (block : ℕ → ℕ) (b : ℕ) → n ≡ 0 → logged n block b ≡ false
unfolding logged
no_entry zero block b e = refl
no_entry (suc n) block b e = absurd (omega arith)

-- What a restart makes of a disk: `r`, and the disks on the way.
module _ (start size : ℕ) (h : Header) (old new : Disk) (d : Disk) where
  restarted : Header → Log
  restarted k = record {
    locked = false;
    start = start;
    size = size;
    outstanding = 0;
    committing = false;
    lh = k;
    woken = 0;
    blocks = restart d;
  }

  -- A disk that is committed for the header that is read from it.
  recovers :
      FitsLog start size (head_of (d start)) old new
      → IsCommitted start size (head_of (d start)) old new d
      → All
          (IsRecoverable start size (head_of (d start)) old new)
          (initlog start size d).blocks.past
        × IsInstalled start size (head_of (d start)) old new (initlog start size d).blocks.disk
  unfolding initlog recover_from_log read_head restart restarted clear_head
  recovers fits committed =
      let (s, run, past, installed) =
        installs (restarted (head_of (d start))) old new (restart d) fits
          (tt, committed, λ i lt. committed.2 i lt, λ i lt. absurd (omega arith)) in
      rw run (past, installed)

-- On `e` the header is empty and the homes are as on `d`.
abbrev Quiet : ℕ → ℕ → Disk → Disk → Type 0
Quiet start size d e = (e start 0 ≡ 0) × ((b : ℕ) → (b < start) ⊎ (start + size ≤ b) → e b ≡ d b)

quiet :
    (start size : ℕ) (d new : Disk) (k : Header) (e : Disk)
    → k.n ≡ 0
    → IsRecoverable start size k d new e
    → Quiet start size d e
quiet start size d new k e none (inl empty) = empty
quiet start size d new k e none (inr (inl (count, entries, copies, others))) =
    (count ∙ none, λ b home. others b home (no_entry k.n k.block b none))
quiet start size d new k e none (inr (inr (count, homes))) =
    (count, λ b home. homes b home ∙ rw (no_entry k.n k.block b none) refl)

-- A disk whose header is empty keeps its homes.
keeps_homes :
    (start size : ℕ) (d : Disk)
    → 0 < size
    → d start 0 ≡ 0
    → All (Quiet start size d) (initlog start size d).blocks.past
      × Quiet start size d (initlog start size d).blocks.disk
keeps_homes start size d fits empty =
    let k : Header = head_of (d start) in
    let (past, installed) =
      recovers start size k d d d (ground (arith, empty), λ i lt. absurd (ground (arith, empty)))
        (
          refl,
          λ i lt. absurd (ground (arith, empty)),
          λ i lt. absurd (ground (arith, empty)),
          λ b home out. refl,
        ) in
    (
      All-map (λ e r. quiet start size d d k e empty r) (initlog start size d).blocks.past past,
      quiet start size d d k (initlog start size d).blocks.disk empty (inr (inr installed)),
    )

-- Recovery of a recoverable disk leaves all or nothing, and recoverable disks on the way.
whole_or_none :
    (start size : ℕ) (h : Header) (old new d : Disk)
    → FitsLog start size h old new
    → IsRecoverable start size h old new d
    → All (IsRecoverable start size h old new) (initlog start size d).blocks.past
      × (IsEmpty start size h old new (initlog start size d).blocks.disk
          ⊎ IsInstalled start size h old new (initlog start size d).blocks.disk)
whole_or_none start size h old new d fits (inl (none, homes)) =
    let (past, last) = keeps_homes start size d (ground (arith, fits.0)) none in
    (
      All-map (λ e q. inl (as_old e q)) (initlog start size d).blocks.past past,
      inl (as_old (initlog start size d).blocks.disk last),
    )
  where
    as_old : (e : Disk) → Quiet start size d e → IsEmpty start size h old new e
    as_old e (empty, same) = (empty, λ b home. same b home ∙ homes b home)
whole_or_none start size h old new d fits (inr (inr (none, homes))) =
    let (past, last) = keeps_homes start size d (ground (arith, fits.0)) none in
    (
      All-map (λ e q. inr (inr (as_new e q))) (initlog start size d).blocks.past past,
      inr (as_new (initlog start size d).blocks.disk last),
    )
  where
    as_new : (e : Disk) → Quiet start size d e → IsInstalled start size h old new e
    as_new e (empty, same) = (empty, λ b home. same b home ∙ homes b home)
whole_or_none start size h old new d fits (inr (inl committed)) =
    let k : Header = head_of (d start) in
    let agree : Agree h k = (
      committed.0,
      λ i lt.
          copy_entries_lem (d start 0) (λ j. d start (j + 1)) (λ j. 0) i
            (ground (arith, committed.0))
          ∙ committed.1 i lt,
    ) in
    let (past, last) =
      recovers start size k old new d (FitsLog-Agree start size old new h k agree fits)
        (IsCommitted-Agree start size old new h k agree d committed) in
    let back : Agree k h = Agree-sym h k agree in
    (
      All-map (λ e r. IsRecoverable-Agree start size old new k h back e r)
          (initlog start size d).blocks.past past,
      inr (IsInstalled-Agree start size old new k h back (initlog start size d).blocks.disk last),
    )

-- What a crash in any number of recoveries may leave of the disk `d`.
pub data Crashed (start size : ℕ) (d : Disk) : Disk → Type 0 where
  never : Crashed start size d d
  again :
      {e f : Disk}
      → Crashed start size d e
      → Memᴰ f (initlog start size e).blocks.past
      → Crashed start size d f

All-at : {A : Type 0} (P : A → Type 0) (xs : List A) (x : A) → All P xs → Memᴰ x xs → P x
All-at P [] x all m = elim m [ ]
All-at P (y ∷ xs) x (p, all) (Memᴰ.head e) = rw e p
All-at P (y ∷ xs) x (p, all) (Memᴰ.tail m) = All-at P xs x all m

Crashed-IsRecoverable :
    (start size : ℕ) (h : Header) (old new d e : Disk)
    → FitsLog start size h old new
    → IsRecoverable start size h old new d
    → Crashed start size d e
    → IsRecoverable start size h old new e
Crashed-IsRecoverable start size h old new d e fits r never = r
Crashed-IsRecoverable start size h old new d f fits r (again c m) =
    All-at (IsRecoverable start size h old new) (initlog start size _).blocks.past f
      (whole_or_none start size h old new _ fits
        (Crashed-IsRecoverable start size h old new d _ fits r c)).0
      m

-- A commit of a log whose header on the disk is empty, with entries that fit the log and are homes, is atomic:
-- whichever disk a crash leaves during the commit or after it, and also if any number of recoveries crash
-- in turn, the recovery that ends leaves an empty header and either every home as it was before the commit,
-- or every logged block as the transaction has it and the other homes as they were.
pub commit_atomic :
    (l : Log) (d e : Disk)
    → FitsLog l.start l.size l.lh l.blocks.disk l.blocks.view
    → l.blocks.disk l.start 0 ≡ 0
    → l.blocks.past ≡ []
    → Memᴰ d ((commit l).blocks.disk ∷ (commit l).blocks.past)
    → Crashed l.start l.size d e
    → IsEmpty l.start l.size l.lh l.blocks.disk l.blocks.view (initlog l.start l.size e).blocks.disk
      ⊎ IsInstalled l.start l.size l.lh l.blocks.disk l.blocks.view
          (initlog l.start l.size e).blocks.disk
commit_atomic l d e fits empty fresh left crashed =
    (whole_or_none l.start l.size l.lh l.blocks.disk l.blocks.view e fits (
      Crashed-IsRecoverable l.start l.size l.lh l.blocks.disk l.blocks.view d e fits
        (All-at (IsRecoverable l.start l.size l.lh l.blocks.disk l.blocks.view)
          ((commit l).blocks.disk ∷ (commit l).blocks.past) d
          (commit-IsInstalled l fits empty fresh).0 left)
        crashed)).1

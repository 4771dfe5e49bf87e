-- ===== src/Log/Install.antt =====
-- The loops and the header of log.c: what a write to the disk keeps of a log that is empty, committed or
-- installed.
use os_2024_project_vm.Base.{
  ℕ, zero, suc, ◌+◌, ◌≤◌, ◌<◌, ◌≡◌, ◌≢◌, refl, ap, ◌∙◌, inl, inr, ◌⊎◌, true, false, arith, ◌==◌,
  if◌then◌else◌, Bool-cases, All,
}
use os_2024_project_vm.Memory.{update}
use os_2024_project_vm.Blocks.{Block, Disk, Blocks, write_block}
use os_2024_project_vm.Log.{Header, Log, tail_loop, copy_words}
use os_2024_project_vm.Log.Absorb.{logged, logged_at}

-- A loop whose rounds keep `Inv` and change the blocks only.
pub tail_loop-induct :
    (round : ℕ → Log → Log) (step : ℕ → Blocks → Blocks) (l : Log) (Inv : ℕ → Blocks → Type 0)
    (n : ℕ)
    → ((t : ℕ) (s : Blocks) → round t (record l { blocks = s }) ≡ record l { blocks = step t s })
    → ((t : ℕ) (s : Blocks) → t < n → Inv t s → Inv (t + 1) (step t s))
    → (count tail : ℕ) (s : Blocks) → tail + count ≡ n
    → Inv tail s
    → (s' : Blocks) × (tail_loop round count tail (record l { blocks = s })
        ≡ record l { blocks = s' })
      × Inv n s'
unfolding tail_loop
tail_loop-induct round step l Inv n runs keeps zero tail s e inv =
    let whole : n ≡ tail = omega arith in (s, refl, rw whole inv)
tail_loop-induct round step l Inv n runs keeps (suc count) tail s e inv = rw (runs tail s) (
    tail_loop-induct round step l Inv n runs keeps count (tail + 1) (step tail s) (omega arith)
      (keeps tail s (omega arith) inv))

pub copy_words_zero : (n : ℕ) (from : ℕ → ℕ) (to : Block) → copy_words n from to 0 ≡ to 0
unfolding copy_words
copy_words_zero zero from to = refl
copy_words_zero (suc n) from to = ground (arith, copy_words_zero n from to)

pub copy_words_entry :
    (n : ℕ) (from : ℕ → ℕ) (to : Block) (i : ℕ) → i < n → copy_words n from to (i + 1) ≡ from i
unfolding copy_words
copy_words_entry zero from to i lt = absurd (omega arith)
copy_words_entry (suc n) from to i lt = ground (arith, copy_words_entry n from to i, ap from)

-- A log at `start` of `size` blocks, and the header `h` of a transaction that takes the blocks from `old` to
-- `new`.
module _ (start size : ℕ) (h : Header) (old new : Disk) where
  -- not a block of the log
  abbrev pub IsHome : ℕ → Type 0
  IsHome b = (b < start) ⊎ (start + size ≤ b)

  -- The entries fit the log, and are homes.
  abbrev pub FitsLog : Type 0
  FitsLog = (h.n < size) × ((i : ℕ) → i < h.n → IsHome (h.block i))

  abbrev pub IsEmpty : Disk → Type 0
  IsEmpty d = (d start 0 ≡ 0) × ((b : ℕ) → IsHome b → d b ≡ old b)

  -- The header is on the disk, and the log has the new blocks.
  abbrev pub IsCommitted : Disk → Type 0
  IsCommitted d =
      (d start 0 ≡ h.n)
      × ((i : ℕ) → i < h.n → d start (i + 1) ≡ h.block i)
      × ((i : ℕ) → i < h.n → d (start + i + 1) ≡ new (h.block i))
      × ((b : ℕ) → IsHome b → logged h.n h.block b ≡ false → d b ≡ old b)

  abbrev pub target : Disk
  target b = if logged h.n h.block b then new b else old b

  abbrev pub IsInstalled : Disk → Type 0
  IsInstalled d = (d start 0 ≡ 0) × ((b : ℕ) → IsHome b → d b ≡ target b)

  -- What a crash may leave.
  abbrev pub IsRecoverable : Disk → Type 0
  IsRecoverable d = IsEmpty d ⊎ IsCommitted d ⊎ IsInstalled d

  -- A log block is written: an empty log stays empty.
  IsEmpty-write :
      (d : Disk) (t : ℕ) (w : Block)
      → t < h.n
      → h.n < size
      → IsEmpty d
      → IsEmpty (update d (start + t + 1) w)
  IsEmpty-write d t w lt fits (none_yet, homes) =
      (ground arith, λ b home. ground (arith, homes b home))

  -- A home is written: a committed log stays committed.
  IsCommitted-write :
      (d : Disk) (t : ℕ) (w : Block)
      → t < h.n
      → FitsLog
      → IsCommitted d
      → IsCommitted (update d (h.block t) w)
  IsCommitted-write d t w lt (fits, homes) (count, entries, copies, others) = (
    ap (λ b. b 0) (away start (ground (arith, homes t lt))) ∙ count,
    λ i l. ap (λ b. b (i + 1)) (away start (ground (arith, homes t lt))) ∙ entries i l,
    λ i l. away (start + i + 1) (ground (arith, homes t lt)) ∙ copies i l,
    λ b home out. away b (listed b out) ∙ others b home out,
  )
    where
      away : (b : ℕ) → h.block t ≢ b → update d (h.block t) w b ≡ d b
      away b ne = ground arith

      listed : (b : ℕ) → logged h.n h.block b ≡ false → h.block t ≢ b
      listed b out e = ground (arith, logged_at h.n h.block b t lt e)

  -- While write_log is at block `t`: nothing on the disk but log blocks has changed.
  abbrev pub Writing : ℕ → Blocks → Type 0
  Writing t s =
      All IsRecoverable s.past
      × IsEmpty s.disk
      × ((i : ℕ) → i < h.n → s.view (h.block i) ≡ new (h.block i))
      × ((i : ℕ) → i < t → s.disk (start + i + 1) ≡ new (h.block i))
      × ((i : ℕ) → i < t → s.view (start + i + 1) ≡ new (h.block i))

  -- While install_trans is at block `t`
  abbrev pub Installing : ℕ → Blocks → Type 0
  Installing t s =
      All IsRecoverable s.past
      × IsCommitted s.disk
      × ((i : ℕ) → i < h.n → s.view (start + i + 1) ≡ new (h.block i))
      × ((i : ℕ) → i < t → s.disk (h.block i) ≡ new (h.block i))

  pub Writing-step :
      (t : ℕ) (s : Blocks)
      → t < h.n
      → FitsLog
      → Writing t s
      → Writing (t + 1) (write_block (start + t + 1) (s.view (h.block t)) s)
  unfolding write_block
  Writing-step t s lt (fits, homes) (before, empty, views, written, seen) = (
    (inl empty, before),
    IsEmpty-write s.disk t (s.view (h.block t)) lt fits empty,
    λ i l. ground (arith, homes i l, views i l),
    λ i l. upto s.disk i l (written i),
    λ i l. upto s.view i l (seen i),
  )
    where
      upto :
          (f : Disk) (i : ℕ)
          → i < t + 1
          → (i < t → f (start + i + 1) ≡ new (h.block i))
          → update f (start + t + 1) (s.view (h.block t)) (start + i + 1) ≡ new (h.block i)
      upto f i l earlier = elim (Bool-cases (i == t)) [
        | inl e ↦ ground (arith, views t lt, ap (λ k. new (h.block k)) (same i e))
        | inr e ↦ ground (arith, earlier)
      ]
        where
          same : (i : ℕ) → i == t ≡ true → i ≡ t
          same i e = ground arith

  pub Installing-step :
      (t : ℕ) (s : Blocks)
      → t < h.n
      → FitsLog
      → Installing t s
      → Installing (t + 1) (write_block (h.block t) (s.view (start + t + 1)) s)
  unfolding write_block
  Installing-step t s lt fits (before, committed, views, installed) = (
    (inr (inl committed), before),
    IsCommitted-write s.disk t (s.view (start + t + 1)) lt fits committed,
    λ i l. ground (arith, fits.1 i l, fits.1 t lt, views i l),
    λ i l. upto i l,
  )
    where
      upto :
          (i : ℕ)
          → i < t + 1
          → update s.disk (h.block t) (s.view (start + t + 1)) (h.block i) ≡ new (h.block i)
      upto i l = elim (Bool-cases (h.block t == h.block i)) [
        | inl e ↦ ground (arith, views t lt, ap new (same i e))
        | inr e ↦ ground (arith, installed i (earlier i l e))
      ]
        where
          same : (i : ℕ) → h.block t == h.block i ≡ true → h.block t ≡ h.block i
          same i e = ground arith

          earlier : (i : ℕ) → i < t + 1 → h.block t == h.block i ≡ false → i < t
          earlier i l e = ground (arith, ap h.block)

-- ===== src/Log/Absorb.antt =====
-- log_write absorbs a block that is logged already.
use os_2024_project_vm.Base.{
  ℕ, zero, suc, ◌+◌, ◌-◌, ◌≤◌, ◌<◌, ◌≡◌, ◌≢◌, refl, sym, ap, ◌∙◌, inl, inr, ◌⊎◌, Bool, true, false,
  ◌||◌, ok, arith, ltb, leb, ◌==◌, Bool-cases, ◌>>=◌, ◌>>◌,
}
use os_2024_project_vm.Memory.{update}
use os_2024_project_vm.Blocks.{pin}
use os_2024_project_vm.Log.{
  Header, Log, logsize, find_entry, add_entry, log_write, acquire_log, release_log,
}

-- `b` is one of the first `n` entries.
unfoldable pub logged : ℕ → (ℕ → ℕ) → ℕ → Bool
logged zero block b = false
logged (suc i) block b = (block i == b) || logged i block b

-- No block is logged twice.
abbrev pub IsDistinct : Header → Type 0
IsDistinct h = (i j : ℕ) → i < h.n → j < h.n → h.block i ≡ h.block j → i ≡ j

-- The entry `r` that the loop stops at from `i` on.
abbrev Found : (ℕ → ℕ) → ℕ → ℕ → ℕ → ℕ → Type 0
Found block b left i r =
    (i ≤ r)
    × (r ≤ i + left)
    × (r < i + left → block r ≡ b)
    × ((j : ℕ) → i ≤ j → j < r → block j ≢ b)

Found-next :
    (block : ℕ → ℕ) (b left i r : ℕ)
    → block i == b ≡ false
    → Found block b left (i + 1) r
    → Found block b (suc left) i r
Found-next block b left i r e (low, high, here, before) =
    (omega arith, omega arith, λ lt. here (omega arith), before')
  where
    before' : (j : ℕ) → i ≤ j → j < r → block j ≢ b
    before' j l g h = elim (trichotomy i j l) [
      | inl same ↦ ground (arith, ap block same)
      | inr later ↦ before j later g h
    ]
      where
        trichotomy : (i j : ℕ) → i ≤ j → (i ≡ j) ⊎ (i + 1 ≤ j)
        trichotomy i j l = ground arith

find_entry_lem : (block : ℕ → ℕ) (b left i : ℕ) → Found block b left i (find_entry block b left i)
unfolding find_entry
find_entry_lem block b zero i =
    (omega arith, omega arith, λ lt. absurd (omega arith), λ j l g. absurd (omega arith))
find_entry_lem block b (suc left) i = elim (Bool-cases (block i == b)) [
  | inl e ↦ rw e (omega arith, omega arith, λ lt. ground arith, λ j l g. absurd (omega arith))
  | inr e ↦ rw e (
      Found-next block b left i (find_entry block b left (i + 1)) e
        (find_entry_lem block b left (i + 1)))
]

pub logged_at : (n : ℕ) (block : ℕ → ℕ) (b i : ℕ) → i < n → block i ≡ b → logged n block b ≡ true
unfolding logged
logged_at zero block b i lt h = absurd (omega arith)
logged_at (suc n) block b i lt h = elim (split n i lt) [
  | inl e ↦ ground (arith, logged_at n block b i e h)
  | inr e ↦ ground (arith, ap block e)
]
  where
    split : (n i : ℕ) → i < suc n → (i < n) ⊎ (i ≡ n)
    split n i lt = ground arith

pub logged_index :
    (n : ℕ) (block : ℕ → ℕ) (b : ℕ) → logged n block b ≡ true → (i : ℕ) × (i < n) × (block i ≡ b)
unfolding logged
logged_index zero block b h = absurd (ground arith)
logged_index (suc n) block b h = elim (Bool-cases (block n == b)) [
  | inl e ↦ (n, omega arith, ground arith)
  | inr e ↦ let (i, lt, at) = logged_index n block b (ground arith) in (i, omega arith, at)
]

pub logged-ext :
    (n : ℕ) (block block' : ℕ → ℕ) (b : ℕ)
    → ((i : ℕ) → i < n → block' i ≡ block i)
    → logged n block' b ≡ logged n block b
unfolding logged
logged-ext zero block block' b h = refl
logged-ext (suc n) block block' b h =
    rw (h n (omega arith), logged-ext n block block' b (λ i lt. h i (omega arith))) refl

-- What log_write makes of the header: `b` is logged besides what was logged, and one entry is added at most,
-- none if `b` was logged.
abbrev pub Added : ℕ → Header → Header → Type 0
Added b h h' =
    IsDistinct h'
    × ((c : ℕ) → logged h'.n h'.block c ≡ (b == c) || logged h.n h.block c)
    × (h.n ≤ h'.n)
    × (h'.n ≤ h.n + 1)
    × (logged h.n h.block b ≡ true → h'.n ≡ h.n)

absorbed :
    (b : ℕ) (h : Header) (i : ℕ)
    → IsDistinct h
    → i < h.n
    → h.block i ≡ b
    → Added b h (record { n = h.n; block = update h.block i b })
absorbed b h i distinct lt at = (
  λ j k lj lk e. distinct j k lj lk (sym (same j) ∙ e ∙ same k),
  all_logged,
  omega arith,
  omega arith,
  λ l. refl,
)
  where
    same : (j : ℕ) → update h.block i b j ≡ h.block j
    same j = ground (arith, ap h.block)

    all_logged : (c : ℕ) → logged h.n (update h.block i b) c ≡ (b == c) || logged h.n h.block c
    all_logged c =
        logged-ext h.n h.block (update h.block i b) c (λ j lj. same j)
        ∙ ground (arith, logged_at h.n h.block c i lt)

logged-append :
    (n : ℕ) (block : ℕ → ℕ) (b c : ℕ)
    → logged (suc n) (update block n b) c ≡ (b == c) || logged n block c
unfolding logged
logged-append n block b c =
    rw (logged-ext n block (update block n b) c (λ j lj. ground arith)) (ground arith)

not_logged :
    (n : ℕ) (block : ℕ → ℕ) (b : ℕ) → ((j : ℕ) → j < n → block j ≢ b) → logged n block b ≢ true
not_logged n block b fresh h = let (i, lt, at) = logged_index n block b h in fresh i lt at

appended :
    (b : ℕ) (h : Header)
    → IsDistinct h
    → ((j : ℕ) → j < h.n → h.block j ≢ b)
    → Added b h (record { n = h.n + 1; block = update h.block h.n b })
appended b h distinct fresh = (
  distinct',
  λ c. rw (one_more h.n) (logged-append h.n h.block b c),
  omega arith,
  omega arith,
  λ l. absurd (not_logged h.n h.block b fresh l),
)
  where
    one_more : (n : ℕ) → n + 1 ≡ suc n
    one_more n = omega arith

    distinct' : IsDistinct (record { n = h.n + 1; block = update h.block h.n b })
    distinct' j k lj lk e = ground (arith, distinct j k, fresh j, fresh k, sym e)

add_entry-Added : (b : ℕ) (h : Header) → IsDistinct h → Added b h (add_entry b h)
unfolding add_entry
add_entry-Added b h distinct =
    let (low, high, here, before) = find_entry_lem h.block b h.n 0 in
    elim (Bool-cases (find_entry h.block b h.n 0 == h.n)) [
      | inl e ↦
          rw (e, at_end e) (appended b h distinct (λ j lt. before j (omega arith) (ground arith)))
      | inr e ↦
          rw e (
            absorbed b h (find_entry h.block b h.n 0) distinct (ground arith) (here (ground arith)))
    ]
  where
    at_end : find_entry h.block b h.n 0 == h.n ≡ true → find_entry h.block b h.n 0 ≡ h.n
    at_end e = ground arith

-- log_write in a transaction, with the lock free and room in the log, returns with the lock free; `b` is
-- logged besides the blocks that were, still no block is logged twice, the log grows by one entry at most and
-- not at all if `b` was logged, and the buffer of `b` is pinned.
pub log_write-Added :
    (b : ℕ) (l : Log)
    → IsDistinct l.lh
    → l.locked ≡ false
    → l.lh.n < logsize
    → l.lh.n < l.size - 1
    → 0 < l.outstanding
    → (h : Header) × (log_write b l ≡ ok (tt, record l { lh = h; blocks = pin b l.blocks }))
      × Added b l.lh h
unfolding log_write acquire_log release_log
log_write-Added b l distinct free room space inside =
    (add_entry b l.lh, rw (fits, opened, ◌>>=◌, ◌>>◌, free) refl, add_entry-Added b l.lh distinct)
  where
    fits : leb logsize l.lh.n || leb (l.size - 1) l.lh.n ≡ false
    fits = ground arith

    opened : ltb l.outstanding 1 ≡ false
    opened = ground arith

-- ===== src/Fs/Lookup.antt =====
-- fs.c: dirlookup finds the first entry of a name.
use os_2024_project_vm.Base.{
  ℕ, zero, suc, ◌+◌, ◌*◌, ◌/◌, ◌%◌, ◌^◌, ◌≤◌, ◌<◌, ◌≡◌, ◌≢◌, ◌⊎◌, inl, inr, refl, sym, ap, ◌∙◌,
  fun_ext, Bool, true, false, not, ◌&&◌, Option, none, some, Outcome, ok, arith, ltb, leb, M, ◌==◌,
  Bool-cases, ◌>>=◌, pure, ltb→lt,
}
use os_2024_project_vm.Mmu.{uint}
use os_2024_project_vm.Strings.{Bytes}
use os_2024_project_vm.Fs.State.{Fs, bsize}
use os_2024_project_vm.Fs.Content.{counts, readi, t_dev}
use os_2024_project_vm.Fs.Inode.{iget}
use os_2024_project_vm.Fs.Dir.{t_dir, same_name, entry_inum, dirlookup_loop, dirlookup}
use os_2024_project_vm.Fs.FileBytes.{HasBlock, file_byte}
use os_2024_project_vm.Fs.Read.{with_bytes, to_read, readi-Reads}

-- A directory with whole entries and every block below its size.
abbrev pub IsDirectory : ℕ → Fs → Type 0
IsDirectory dp s =
    ((s.inodes dp).type ≡ t_dir)
    × ((s.inodes dp).size % 16 ≡ 0)
    × ((s.inodes dp).size < 2 ^ 31)
    × ((bn : ℕ) → bn * bsize < (s.inodes dp).size → HasBlock dp s bn)

-- The memory with the entry at `off` of the directory read into `de`.
abbrev pub entry_mem : ℕ → ℕ → Fs → Bytes → ℕ → Bytes
entry_mem de dp s mem off = with_bytes (file_byte dp s) off de 16 mem

-- That entry is in use and has the name.
abbrev pub is_match : ℕ → ℕ → Fs → Bytes → ℕ → ℕ → Bool
is_match de dp s mem name off =
    not (entry_inum (entry_mem de dp s mem off) de == 0)
    && same_name (entry_mem de dp s mem off) name (de + 2)

-- A second entry in the same place leaves nothing of the first.
overwritten :
    (f : ℕ → ℕ) (off off' de : ℕ) (mem : Bytes)
    → with_bytes f off de 16 (with_bytes f off' de 16 mem) ≡ with_bytes f off de 16 mem
overwritten f off off' de mem =
    fun_ext
      λ a. elim (Bool-cases (leb de a && ltb a (de + 16))) [ inl e ↦ rw e refl | inr e ↦ rw e refl ]

readi-entry :
    (has_device : ℕ → Bool) (de dp off : ℕ) (mem : Bytes) (s : Fs)
    → IsDirectory dp s
    → off % 16 ≡ 0
    → off < (s.inodes dp).size
    → readi has_device dp mem de off 16 s ≡ ok ((counts 16, entry_mem de dp s mem off), s)
readi-entry has_device de dp off mem s (ty, whole, small, has) aligned lt =
    let (mem', returned, bytes) =
      (readi-Reads has_device dp mem de off 16 s (λ e. differ (sym ty ∙ e)) has (omega arith)
          (omega arith)).2
        (omega arith) (omega arith) in
    let count = all_16 (s.inodes dp).size off whole aligned lt in
    returned
    ∙ ap (λ c. ok ((counts c, mem'), s)) count
    ∙ ap (λ m. ok ((counts 16, m), s))
        (fun_ext λ a. bytes a ∙ ap (λ c. with_bytes (file_byte dp s) off de c mem a) count)
  where
    differ : t_dir ≢ t_dev
    differ e = absurd (omega (arith, e))

    all_16 : (size off : ℕ) → size % 16 ≡ 0 → off % 16 ≡ 0 → off < size → to_read size off 16 ≡ 16
    all_16 size off a b l = omega arith

-- The rest of dirlookup for the entry at `off` in `m`.
abbrev pub found_entry : ℕ → ℕ → Bytes → ℕ → M Fs (Option (ℕ × ℕ))
found_entry de dp m off s =
    (do ip ← iget (s.inodes dp).dev (entry_inum m de); pure (some (ip, off))) s

module _ (has_device : ℕ → Bool) (de dp name : ℕ) (s : Fs) where
  loop-end :
      (rounds off : ℕ) (mem : Bytes)
      → ltb off (s.inodes dp).size ≡ false
      → dirlookup_loop has_device de (suc rounds) dp mem name off s ≡ ok (none, s)
  unfolding dirlookup_loop
  loop-end rounds off mem e = rw (dirlookup_loop, e) refl

  loop-found :
      (rounds off : ℕ) (mem m : Bytes)
      → ltb off (s.inodes dp).size ≡ true
      → readi has_device dp mem de off 16 s ≡ ok ((counts 16, m), s)
      → not (entry_inum m de == 0) && same_name m name (de + 2) ≡ true
      → dirlookup_loop has_device de (suc rounds) dp mem name off s ≡ found_entry de dp m off s
  unfolding dirlookup_loop
  loop-found rounds off mem m e f g = rw (dirlookup_loop, e, ◌>>=◌, f, g) refl

  loop-next :
      (rounds off : ℕ) (mem m : Bytes)
      → ltb off (s.inodes dp).size ≡ true
      → readi has_device dp mem de off 16 s ≡ ok ((counts 16, m), s)
      → not (entry_inum m de == 0) && same_name m name (de + 2) ≡ false
      → dirlookup_loop has_device de (suc rounds) dp mem name off s
        ≡ dirlookup_loop has_device de rounds dp m name (uint (off + 16)) s
  unfolding dirlookup_loop
  loop-next rounds off mem m e f g = rw (dirlookup_loop, e, ◌>>=◌, f, g) refl

-- What the search finds from entry `k` on: the first match, which iget gets, or none.
abbrev pub FirstMatch : ℕ → ℕ → ℕ → Bytes → Fs → ℕ → Outcome (Option (ℕ × ℕ) × Fs) → Type 0
FirstMatch de dp name mem s k o =
    (((j : ℕ) → k ≤ j → j * 16 < (s.inodes dp).size → is_match de dp s mem name (j * 16) ≡ false)
      × (o ≡ ok (none, s)))
    ⊎ ((j : ℕ) × (k ≤ j)
        × (j * 16 < (s.inodes dp).size)
        × (is_match de dp s mem name (j * 16) ≡ true)
        × ((i : ℕ) → k ≤ i → i < j → is_match de dp s mem name (i * 16) ≡ false)
        × (o ≡ found_entry de dp (entry_mem de dp s mem (j * 16)) (j * 16) s))

FirstMatch-next :
    (de dp name k : ℕ) (mem : Bytes) (s : Fs) (o : Outcome (Option (ℕ × ℕ) × Fs))
    → is_match de dp s mem name (k * 16) ≡ false
    → FirstMatch de dp name mem s (k + 1) o
    → FirstMatch de dp name mem s k o
FirstMatch-next de dp name k mem s o e (inl (vain, r)) =
    inl (λ j le lt. elim (split k j le) [ inl same ↦ rw (sym same) e | inr l ↦ vain j l lt ], r)
  where
    split : (a j : ℕ) → a ≤ j → (a ≡ j) ⊎ (a + 1 ≤ j)
    split a j le = ground arith
FirstMatch-next de dp name k mem s o e (inr (j, le, lt, hit, vain, r)) = inr (
  j,
  omega arith,
  lt,
  hit,
  λ i low l. elim (split k i low) [ inl same ↦ rw (sym same) e | inr m ↦ vain i m l ],
  r,
)
  where
    split : (a j : ℕ) → a ≤ j → (a ≡ j) ⊎ (a + 1 ≤ j)
    split a j le = ground arith

dirlookup_loop-FirstMatch :
    (has_device : ℕ → Bool) (de dp name rounds k : ℕ) (mem now : Bytes) (s : Fs)
    → IsDirectory dp s
    → ((off : ℕ) → entry_mem de dp s now off ≡ entry_mem de dp s mem off)
    → (s.inodes dp).size < (k + rounds) * 16
    → k * 16 ≤ (s.inodes dp).size
    → FirstMatch de dp name mem s k (dirlookup_loop has_device de rounds dp now name (k * 16) s)
dirlookup_loop-FirstMatch has_device de dp name zero k mem now s dir same enough within =
    absurd (omega arith)
dirlookup_loop-FirstMatch has_device de dp name (suc rounds) k mem now s dir same enough within =
    elim (Bool-cases (ltb (k * 16) (s.inodes dp).size)) [
      | inr e ↦ inl (
        λ j le lt. absurd (ground (arith, e)),
        loop-end has_device de dp name s rounds (k * 16) now e,
      )
      | inl e ↦
          let reads =
            readi-entry has_device de dp (k * 16) now s dir (omega arith)
              (ltb→lt (k * 16) (s.inodes dp).size e)
            ∙ ap (λ m. ok ((counts 16, m), s)) (same (k * 16)) in
          elim (Bool-cases (is_match de dp s mem name (k * 16))) [
            | inl f ↦ inr (
              k,
              omega arith,
              ltb→lt (k * 16) (s.inodes dp).size e,
              f,
              λ i low l. absurd (omega arith),
              loop-found has_device de dp name s rounds (k * 16) now
                  (entry_mem de dp s mem (k * 16)) e reads f,
            )
            | inr f ↦
                FirstMatch-next de dp name k mem s
                  (dirlookup_loop has_device de (suc rounds) dp now name (k * 16) s) f
                  (rw
                    (
                      loop-next has_device de dp name s rounds (k * 16) now
                          (entry_mem de dp s mem (k * 16)) e reads f,
                      further k (s.inodes dp).size within dir.2,
                    )
                    (dirlookup_loop-FirstMatch has_device de dp name rounds (k + 1) mem
                      (entry_mem de dp s mem (k * 16)) s dir
                      (λ off. overwritten (file_byte dp s) off (k * 16) de mem) (omega arith)
                      (next k (s.inodes dp).size dir.1 (ltb→lt (k * 16) (s.inodes dp).size e))))
          ]
    ]
  where
    further : (k size : ℕ) → k * 16 ≤ size → size < 2 ^ 31 → uint (k * 16 + 16) ≡ (k + 1) * 16
    further k size le lt = omega arith

    next : (k size : ℕ) → size % 16 ≡ 0 → k * 16 < size → (k + 1) * 16 ≤ size
    next k size whole lt = omega arith

-- dirlookup of a name in a directory with whole entries and without holes: either no entry in use has the
-- name, and the result is 0; or the result is the first entry in use that has the name, with the inode that
-- iget returns for its number, or iget's panic. Nothing else changes.
pub dirlookup-FirstMatch :
    (has_device : ℕ → Bool) (de dp name : ℕ) (mem : Bytes) (s : Fs)
    → IsDirectory dp s
    → FirstMatch de dp name mem s 0 (dirlookup has_device de dp mem name s)
unfolding dirlookup
dirlookup-FirstMatch has_device de dp name mem s dir = rw (is_dir (s.inodes dp).type dir.0) (
    dirlookup_loop-FirstMatch has_device de dp name ((s.inodes dp).size / 16 + 2) 0 mem mem s dir
      (λ off. refl) (omega arith) (omega arith))
  where
    is_dir : (t : ℕ) → t ≡ t_dir → (t == t_dir) ≡ true
    is_dir t e = ground arith

-- ===== src/Sysfile/Dup.antt =====
-- sysfile.c: sys_dup and sys_close take back each other.
use os_2024_project_vm.Base.{
  ℕ, zero, suc, ◌+◌, ◌-◌, ◌≤◌, ◌<◌, ◌≡◌, ◌≢◌, ◌⊎◌, inl, inr, refl, sym, ap, ◌∙◌, true, false,
  Option, none, some, ok, arith, ltb, leb, ◌==◌, ==_refl, Bool-cases, Option-cases, ◌>>=◌, ◌>>◌,
}
use os_2024_project_vm.Memory.{update}
use os_2024_project_vm.File.{
  Ftable, filedup, fileclose, still_open, with_ref, acquire_ftable, release_ftable,
}
use os_2024_project_vm.Sysfile.State.{Kernel, on_ftable}
use os_2024_project_vm.Sysfile.Descriptors.{
  nofile, argfd, find_fd, fdalloc, dup_to, sys_dup, let_go, close_file, sys_close,
}

-- The lowest free descriptor from `fd` up to `to`, or none.
abbrev FreeFd : (ℕ → Option ℕ) → ℕ → ℕ → Option ℕ → Type 0
FreeFd ofile fd to none = (j : ℕ) → fd ≤ j → j < to → ofile j ≢ none
FreeFd ofile fd to (some r) =
    (fd ≤ r) × (r < to) × (ofile r ≡ none) × ((j : ℕ) → fd ≤ j → j < r → ofile j ≢ none)

FreeFd-next :
    (ofile : ℕ → Option ℕ) (fd to : ℕ) (o : Option ℕ)
    → ofile fd ≢ none
    → FreeFd ofile (fd + 1) to o
    → FreeFd ofile fd to o
FreeFd-next ofile fd to none used rest =
    λ j le lt. elim (split fd j le) [ inl e ↦ rw (sym e) used | inr l ↦ rest j l lt ]
  where
    split : (a j : ℕ) → a ≤ j → (a ≡ j) ⊎ (a + 1 ≤ j)
    split a j le = ground arith
FreeFd-next ofile fd to (some r) used (low, high, free, before) = (
  omega arith,
  high,
  free,
  λ j le lt. elim (split fd j le) [ inl e ↦ rw (sym e) used | inr l ↦ before j l lt ],
)
  where
    split : (a j : ℕ) → a ≤ j → (a ≡ j) ⊎ (a + 1 ≤ j)
    split a j le = ground arith

find_fd-FreeFd :
    (ofile : ℕ → Option ℕ) (left fd : ℕ) → FreeFd ofile fd (fd + left) (find_fd ofile left fd)
unfolding find_fd
find_fd-FreeFd ofile zero fd = λ j le lt. absurd (omega arith)
find_fd-FreeFd ofile (suc left) fd = elim (Option-cases (ofile fd)) [
  | inl e ↦ rw (FreeFd, e) (omega arith, omega arith, e, λ j le lt. absurd (omega arith))
  | inr (f, e) ↦
      rw (FreeFd, e)
        (FreeFd-next ofile fd (fd + suc left) (find_fd ofile left (fd + 1))
          (λ n. used f (sym e ∙ n)) (rw (further fd left) (find_fd-FreeFd ofile left (fd + 1))))
]
  where
    further : (fd left : ℕ) → fd + suc left ≡ fd + 1 + left
    further fd left = omega arith

    used : (f : ℕ) → some f ≢ none
    used f h = ground arith

-- The table with `n` references to `f`, and its lock free.
abbrev pub counted : ℕ → ℕ → Ftable → Ftable
counted f n t = record (with_ref f n t) { locked = false }

filedup-ok :
    (f : ℕ) (t : Ftable)
    → t.locked ≡ false
    → ltb (t.files f).ref 1 ≡ false
    → filedup f t ≡ ok (f, counted f ((t.files f).ref + 1) t)
unfolding filedup acquire_ftable release_ftable
filedup-ok f t free e = rw (filedup, ◌>>=◌, ◌>>◌, free, e) refl

fileclose-ok :
    (f : ℕ) (t : Ftable)
    → t.locked ≡ false
    → ltb (t.files f).ref 1 ≡ false
    → ltb 0 ((t.files f).ref - 1) ≡ true
    → fileclose f t ≡ ok (still_open, counted f ((t.files f).ref - 1) t)
unfolding fileclose acquire_ftable release_ftable
fileclose-ok f t free e g = rw (fileclose, ◌>>=◌, ◌>>◌, free, e, g) refl

-- The state after sys_dup gave `fd` to the file `f`.
abbrev dupped : ℕ → ℕ → Kernel → Kernel
dupped f fd s = record s {
  ofile = update s.ofile fd (some f);
  ftable = counted f ((s.ftable.files f).ref + 1) s.ftable;
}

sys_dup-ok :
    (arg f fd : ℕ) (s : Kernel)
    → argfd arg s ≡ some f
    → find_fd s.ofile nofile 0 ≡ some fd
    → filedup f s.ftable ≡ ok (f, counted f ((s.ftable.files f).ref + 1) s.ftable)
    → sys_dup arg s ≡ ok (some fd, dupped f fd s)
unfolding sys_dup fdalloc dup_to
sys_dup-ok arg f fd s e g h = rw (sys_dup, e, ◌>>=◌, fdalloc, g, dup_to, on_ftable, h) refl

sys_dup-full :
    (arg f : ℕ) (s : Kernel)
    → argfd arg s ≡ some f
    → find_fd s.ofile nofile 0 ≡ none
    → sys_dup arg s ≡ ok (none, s)
unfolding sys_dup fdalloc dup_to
sys_dup-full arg f s e g = rw (sys_dup, e, ◌>>=◌, fdalloc, g) refl

sys_close-ok :
    (arg f n : ℕ) (s : Kernel)
    → argfd arg s ≡ some f
    → fileclose f s.ftable ≡ ok (still_open, counted f n s.ftable)
    → sys_close arg s
      ≡ ok (
        some still_open,
        record s { ofile = update s.ofile arg none; ftable = counted f n s.ftable },
      )
unfolding sys_close close_file let_go
sys_close-ok arg f n s e h = rw (sys_close, e, ◌>>=◌, ◌>>◌, close_file, on_ftable, h) refl

-- Everything is as it was, up to the way descriptors and files are written down.
abbrev pub Restored : Kernel → Kernel → Type 0
Restored s s' =
    ((j : ℕ) → s'.ofile j ≡ s.ofile j)
    × ((g : ℕ) → s'.ftable.files g ≡ s.ftable.files g)
    × (s'.ftable.locked ≡ false)
    × (s'.fs ≡ s.fs)
    × (s'.cwd ≡ s.cwd)
    × (s'.mem ≡ s.mem)

abbrev closed : ℕ → ℕ → Kernel → Kernel
closed f fd s = record (dupped f fd s) {
  ofile = update (dupped f fd s).ofile fd none;
  ftable = counted f ((s.ftable.files f).ref + 1 - 1) (dupped f fd s).ftable;
}

closed-Restored : (f fd : ℕ) (s : Kernel) → s.ofile fd ≡ none → Restored s (closed f fd s)
closed-Restored f fd s free = (descriptors, files, refl, refl, refl, refl)
  where
    descriptors : (j : ℕ) → (closed f fd s).ofile j ≡ s.ofile j
    descriptors j = elim (Bool-cases (fd == j)) [
      | inl e ↦ rw e (sym free ∙ ap s.ofile (same fd j e))
      | inr e ↦ rw e refl
    ]
      where
        same : (a b : ℕ) → a == b ≡ true → a ≡ b
        same a b e = ground arith

    files : (g : ℕ) → (closed f fd s).ftable.files g ≡ s.ftable.files g
    files g = elim (Bool-cases (f == g)) [
      | inl e ↦ rw (e, back, same f g e) (rw (==_refl g) refl)
      | inr e ↦ rw e refl
    ]
      where
        same : (a b : ℕ) → a == b ≡ true → a ≡ b
        same a b e = ground arith

        back : (s.ftable.files f).ref + 1 - 1 ≡ (s.ftable.files f).ref
        back = omega arith

dupped-argfd : (f fd : ℕ) (s : Kernel) → fd < nofile → argfd fd (dupped f fd s) ≡ some f
unfolding argfd
dupped-argfd f fd s l = rw (within fd l, ==_refl fd) refl
  where
    within : (fd : ℕ) → fd < nofile → leb nofile fd ≡ false
    within fd l = ground arith

dupped-ref :
    (f fd : ℕ) (s : Kernel) → ((dupped f fd s).ftable.files f).ref ≡ (s.ftable.files f).ref + 1
dupped-ref f fd s = rw (==_refl f) refl

dupped-fileclose :
    (f fd : ℕ) (s : Kernel)
    → 0 < (s.ftable.files f).ref
    → fileclose f (dupped f fd s).ftable
      ≡ ok (still_open, counted f ((s.ftable.files f).ref + 1 - 1) (dupped f fd s).ftable)
dupped-fileclose f fd s used =
    fileclose-ok f (dupped f fd s).ftable refl
      (ap (λ n. ltb n 1) (dupped-ref f fd s) ∙ more_than_one (s.ftable.files f).ref)
      (ap (λ n. ltb 0 (n - 1)) (dupped-ref f fd s) ∙ more (s.ftable.files f).ref used)
    ∙ ap (λ n. ok (still_open, counted f (n - 1) (dupped f fd s).ftable)) (dupped-ref f fd s)
  where
    more : (n : ℕ) → 0 < n → ltb 0 (n + 1 - 1) ≡ true
    more n l = ground arith

    more_than_one : (n : ℕ) → ltb (n + 1) 1 ≡ false
    more_than_one n = ground arith

-- sys_dup of a descriptor of the file `f` fails, with all descriptors in use, or returns the lowest free one,
-- with one reference to `f` more, and sys_close of it restores the state.
abbrev pub DupsAndCloses : ℕ → ℕ → Kernel → Type 0
DupsAndCloses arg f s =
    (((j : ℕ) → j < nofile → s.ofile j ≢ none) × (sys_dup arg s ≡ ok (none, s)))
    ⊎ ((fd : ℕ) × (s' : Kernel) × (s'' : Kernel) × (fd < nofile)
        × (s.ofile fd ≡ none)
        × ((j : ℕ) → j < fd → s.ofile j ≢ none)
        × (sys_dup arg s ≡ ok (some fd, s'))
        × (argfd fd s' ≡ some f)
        × ((s'.ftable.files f).ref ≡ (s.ftable.files f).ref + 1)
        × (sys_close fd s' ≡ ok (some still_open, s''))
        × Restored s s'')

dup-found :
    (arg f : ℕ) (s : Kernel) (o : Option ℕ)
    → argfd arg s ≡ some f
    → s.ftable.locked ≡ false
    → 0 < (s.ftable.files f).ref
    → find_fd s.ofile nofile 0 ≡ o
    → FreeFd s.ofile 0 nofile o
    → DupsAndCloses arg f s
dup-found arg f s none at unlocked used e vain =
    inl (λ j l. vain j (omega arith) l, sys_dup-full arg f s at e)
dup-found arg f s (some fd) at unlocked used e (low, high, free, before) = inr (
  fd,
  dupped f fd s,
  closed f fd s,
  high,
  free,
  λ j l. before j (omega arith) l,
  sys_dup-ok arg f fd s at e (filedup-ok f s.ftable unlocked (has_ref (s.ftable.files f).ref used)),
  dupped-argfd f fd s high,
  dupped-ref f fd s,
  sys_close-ok fd f ((s.ftable.files f).ref + 1 - 1) (dupped f fd s) (dupped-argfd f fd s high)
      (dupped-fileclose f fd s used),
  closed-Restored f fd s free,
)
  where
    has_ref : (n : ℕ) → 0 < n → ltb n 1 ≡ false
    has_ref n l = ground arith

-- For a descriptor of an open file, with the lock of the table free: either all descriptors are in use and
-- sys_dup fails and changes nothing; or it returns the lowest free descriptor, which stands for the same file
-- with one reference more, and sys_close of it drops that reference only and leaves all as it was.
pub sys_dup-sys_close :
    (arg f : ℕ) (s : Kernel)
    → argfd arg s ≡ some f
    → s.ftable.locked ≡ false
    → 0 < (s.ftable.files f).ref
    → DupsAndCloses arg f s
sys_dup-sys_close arg f s at unlocked used =
    dup-found arg f s (find_fd s.ofile nofile 0) at unlocked used refl
      (find_fd-FreeFd s.ofile nofile 0)

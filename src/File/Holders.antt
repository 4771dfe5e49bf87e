-- ===== src/File/Holders.antt =====
-- file.c: what filealloc, filedup and fileclose do to the counts of references.
use os_2024_project_vm.Base.{
  ℕ, zero, suc, ◌+◌, ◌-◌, ◌<◌, ◌≡◌, ◌≢◌, refl, sym, ap, Bool, ◌∙◌, inl, inr, true, false, Option,
  none, some, ok, arith, ltb, ◌==◌, if◌then◌else◌, Bool-cases, ==_refl, ==_ne, ◌>>=◌, ◌>>◌, List,
  [], ◌∷◌,
}
use os_2024_project_vm.Memory.{update}
use os_2024_project_vm.File.{
  File, Ftable, nfile, acquire_ftable, release_ftable, find_unused, with_ref, filealloc, filedup,
  FileKind, Closing, fd_none, fd_pipe, fd_inode, still_open, nothing_left, closes_pipe, puts_inode,
  close_last, fileclose,
}

-- how often `f` is in the list
abbrev pub count : ℕ → List ℕ → ℕ
count f [] = 0
count f (g ∷ gs) = (if g == f then 1 else 0) + count f gs

-- The list without the first `f`.
abbrev pub without : ℕ → List ℕ → List ℕ
without f [] = []
without f (g ∷ gs) = if g == f then gs else g ∷ without f gs

count-without :
    (f g : ℕ) (hs : List ℕ)
    → 0 < count f hs
    → count g (without f hs) ≡ (if f == g then count g hs - 1 else count g hs)
count-without f g [] h = absurd (omega arith)
count-without f g (x ∷ hs) h = elim (Bool-cases (x == f)) [
  | inl e ↦ ground arith
  | inr e ↦ ground (arith, count-without f g hs)
]

-- The lock is free, and `holders` has each file as often as it has references.
abbrev pub IsCounted : Ftable → List ℕ → Type 0
IsCounted t holders = (t.locked ≡ false) × ((f : ℕ) → f < nfile → (t.files f).ref ≡ count f holders)

abbrev pub Found : (ℕ → File) → ℕ → ℕ → Option ℕ → Type 0
Found files left i none = Unit
Found files left i (some f) = (f < i + left) × ((files f).ref ≡ 0)

find_unused-Found : (files : ℕ → File) (left i : ℕ) → Found files left i (find_unused files left i)
unfolding find_unused
find_unused-Found files zero i = tt
find_unused-Found files (suc left) i = elim (Bool-cases ((files i).ref == 0)) [
  | inl e ↦ rw e (omega arith, ground arith)
  | inr e ↦ rw e (wider (find_unused files left (i + 1)) (find_unused-Found files left (i + 1)))
]
  where
    wider : (r : Option ℕ) → Found files left (i + 1) r → Found files (suc left) i r
    wider none h = tt
    wider (some f) (lt, z) = (omega arith, z)

refs :
    (files : ℕ → File) (f g n : ℕ) (x : File)
    → (f ≡ g → x.ref ≡ n)
    → (f == g ≡ false → (files g).ref ≡ n)
    → (update files f x g).ref ≡ n
refs files f g n x here there = elim (Bool-cases (f == g)) [
  | inl e ↦ rw e (here (ground arith))
  | inr e ↦ rw e (there e)
]

-- The caller of filealloc holds the file that it gets.
abbrev pub AllocLeaves : List ℕ → Option ℕ → Ftable → Type 0
AllocLeaves holders none t = IsCounted t holders
AllocLeaves holders (some f) t = IsCounted t (f ∷ holders)

pub IsCounted-alloc :
    (t : Ftable) (holders : List ℕ)
    → IsCounted t holders
    → (r : Option ℕ) × (t' : Ftable) × (filealloc t ≡ ok (r, t')) × AllocLeaves holders r t'
unfolding filealloc acquire_ftable release_ftable
IsCounted-alloc t holders (free, counts) =
    by_search (find_unused t.files nfile 0) refl (find_unused-Found t.files nfile 0)
  where
    by_search :
        (o : Option ℕ)
        → find_unused t.files nfile 0 ≡ o
        → Found t.files nfile 0 o
        → (r : Option ℕ) × (t' : Ftable) × (filealloc t ≡ ok (r, t')) × AllocLeaves holders r t'
    by_search none e h =
        (none, record t { locked = false }, rw (◌>>=◌, ◌>>◌, free, e) refl, (refl, counts))
    by_search (some f) e (lt, z) = (
      some f,
      record (with_ref f 1 t) { locked = false },
      rw (◌>>=◌, ◌>>◌, free, e) refl,
      (
        refl,
        λ g l.
            refs t.files f g (count g (f ∷ holders)) (record (t.files f) { ref = 1 })
              (λ same. ground (arith, counts g l, ap (λ k. (t.files k).ref) same, z))
              (λ e'. ground (arith, counts g l)),
      ),
    )

pub IsCounted-dup :
    (t : Ftable) (holders : List ℕ) (f : ℕ)
    → IsCounted t holders
    → f < nfile
    → 0 < count f holders
    → (t' : Ftable) × (filedup f t ≡ ok (f, t')) × IsCounted t' (f ∷ holders)
unfolding filedup acquire_ftable release_ftable
IsCounted-dup t holders f (free, counts) lt held = (
  record (with_ref f ((t.files f).ref + 1) t) { locked = false },
  rw (◌>>=◌, ◌>>◌, free, used) refl,
  (
    refl,
    λ g l.
        refs t.files f g (count g (f ∷ holders)) (record (t.files f) { ref = (t.files f).ref + 1 })
          (λ same. ground (arith, counts g l, ap (λ k. (t.files k).ref) same))
          (λ e'. ground (arith, counts g l)),
  ),
)
  where
    used : ltb (t.files f).ref 1 ≡ false
    used = ground (arith, counts f lt)

-- What is let go of the file: the end of its pipe, or its inode.
abbrev pub LetsGo : File → Closing → Type 0
LetsGo ff still_open = ⊥
LetsGo ff nothing_left = ff.kind ≡ fd_none
LetsGo ff (closes_pipe p w) = (ff.kind ≡ fd_pipe p) × (w ≡ ff.writable)
LetsGo ff (puts_inode ip) = ff.kind ≡ fd_inode ip

close_last-LetsGo : (ff : File) → LetsGo ff (close_last ff)
unfolding close_last
close_last-LetsGo ff = by_kind ff.kind refl
  where
    by_kind : (k : FileKind) → ff.kind ≡ k → LetsGo ff (close_last ff)
    by_kind fd_none e = rw e refl
    by_kind (fd_pipe p) e = rw e (refl, refl)
    by_kind (fd_inode ip) e = rw e refl

-- What a close by a holder leaves: the file is free without a holder, and no other file changes.
abbrev pub Closed : ℕ → List ℕ → Ftable → Closing → Ftable → Type 0
Closed f holders t a t' =
    IsCounted t' (without f holders)
    × (0 < count f (without f holders) → (a ≡ still_open) × ((t'.files f).kind ≡ (t.files f).kind))
    × (count f (without f holders) ≡ 0 → LetsGo (t.files f) a × ((t'.files f).kind ≡ fd_none))
    × ((g : ℕ) → g ≢ f → t'.files g ≡ t.files g)

-- A holder that fills in the fields of its file, as pipealloc and sys_open do, and that moves the offset.
abbrev pub filled : ℕ → FileKind → Bool → Bool → ℕ → Ftable → Ftable
filled f kind readable writable off t = record t {
  files =
      update t.files f
        (record (t.files f) { kind = kind; readable = readable; writable = writable; off = off });
}

pub IsCounted-filled :
    (t : Ftable) (holders : List ℕ) (f : ℕ) (kind : FileKind) (r w : Bool) (off : ℕ)
    → IsCounted t holders
    → IsCounted (filled f kind r w off t) holders
IsCounted-filled t holders f kind r w off (free, counts) = (
  free,
  λ g l.
      refs t.files f g (count g holders)
        (record (t.files f) { kind = kind; readable = r; writable = w; off = off })
        (λ same. ap (λ k. (t.files k).ref) same ∙ counts g l) (λ e. counts g l),
)

-- fileclose by a holder of the file gives the file up, and lets its pipe or inode go exactly when nobody
-- holds the file any more.
pub IsCounted-close :
    (t : Ftable) (holders : List ℕ) (f : ℕ)
    → IsCounted t holders
    → f < nfile
    → 0 < count f holders
    → (a : Closing) × (t' : Ftable) × (fileclose f t ≡ ok (a, t')) × Closed f holders t a t'
unfolding fileclose acquire_ftable release_ftable
IsCounted-close t holders f (free, counts) lt held =
    elim (Bool-cases (ltb 0 ((t.files f).ref - 1))) [
      | inl e ↦ (
        still_open,
        record (with_ref f ((t.files f).ref - 1) t) { locked = false },
        rw (◌>>=◌, ◌>>◌, free, used, e) refl,
        (
          (
            refl,
            λ g l.
                refs t.files f g (count g (without f holders))
                  (record (t.files f) { ref = (t.files f).ref - 1 })
                  (λ same. ground (
                    arith,
                    counts g l,
                    ap (λ k. (t.files k).ref) same,
                    count-without f g holders held,
                  ))
                  (λ e'. ground (arith, counts g l, count-without f g holders held)),
          ),
          λ held. (refl, rw (==_refl f) refl),
          λ none_left. absurd (others e none_left),
          λ g n. rw (==_ne f g (λ e. n (sym e))) refl,
        ),
      )
      | inr e ↦ (
        close_last (t.files f),
        record t {
          locked = false;
          files = update t.files f (record (t.files f) { ref = 0; kind = fd_none });
        },
        rw (◌>>=◌, ◌>>◌, free, used, e) refl,
        (
          (
            refl,
            λ g l.
                refs t.files f g (count g (without f holders))
                  (record (t.files f) { ref = 0; kind = fd_none })
                  (λ same. ground (
                    arith,
                    counts g l,
                    ap (λ k. (t.files k).ref) same,
                    count-without f g holders held,
                  ))
                  (λ e'. ground (arith, counts g l, count-without f g holders held)),
          ),
          λ held. absurd (last e held),
          λ none_left. (close_last-LetsGo (t.files f), rw (==_refl f) refl),
          λ g n. rw (==_ne f g (λ e. n (sym e))) refl,
        ),
      )
    ]
  where
    used : ltb (t.files f).ref 1 ≡ false
    used = ground (arith, counts f lt)

    left : count f (without f holders) ≡ count f holders - 1
    left = count-without f f holders held ∙ rw (==_refl f) refl

    others : ltb 0 ((t.files f).ref - 1) ≡ true → count f (without f holders) ≡ 0 → ⊥
    others e none_left = ground (arith, left, counts f lt)

    last : ltb 0 ((t.files f).ref - 1) ≡ false → 0 < count f (without f holders) → ⊥
    last e held = ground (arith, left, counts f lt)

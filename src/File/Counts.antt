-- ===== src/File/Counts.antt =====
-- The count of a file is the number of its holders.
use os_2024_project_vm.Base.{
  ℕ, Bool, ◌<◌, ◌≡◌, sym, ◌∙◌, false, Option, none, some, ok, List, [], ◌∷◌, Outcome,
}
use mathlib.Core.Path.{subst}
use os_2024_project_vm.File.{FileKind, Ftable, nfile, filealloc, filedup, Closing, fileclose}
use os_2024_project_vm.File.Holders.{
  count, without, IsCounted, Closed, filled, IsCounted-filled, AllocLeaves, IsCounted-alloc,
  IsCounted-dup, IsCounted-close,
}

-- What holders of files do, one after the other; `holders` has a file once for each reference. `fills` stands for
-- the stores of other files to the fields of a file that they hold.
pub data Reaches (t0 : Ftable) : Ftable → List ℕ → Type 0 where
  starts : Reaches t0 t0 []
  opens :
      {t t' : Ftable} {holders : List ℕ} (f : ℕ)
      → Reaches t0 t holders
      → filealloc t ≡ ok (some f, t')
      → Reaches t0 t' (f ∷ holders)
  fills :
      {t : Ftable} {holders : List ℕ} (f : ℕ) (kind : FileKind) (r w : Bool) (off : ℕ)
      → Reaches t0 t holders
      → 0 < count f holders
      → Reaches t0 (filled f kind r w off t) holders
  dups :
      {t t' : Ftable} {holders : List ℕ} (f : ℕ)
      → Reaches t0 t holders
      → f < nfile
      → 0 < count f holders
      → filedup f t ≡ ok (f, t')
      → Reaches t0 t' (f ∷ holders)
  closes :
      {t t' : Ftable} {holders : List ℕ} (f : ℕ) (a : Closing)
      → Reaches t0 t holders
      → f < nfile
      → 0 < count f holders
      → fileclose f t ≡ ok (a, t')
      → Reaches t0 t' (without f holders)

abbrev done : {A : Type 0} → A → Ftable → Outcome (A × Ftable)
done a t = ok (a, t)

same_table : {A : Type 0} {a b : A} {t u : Ftable} → done a t ≡ done b u → t ≡ u
same_table h = cc

opened :
    (t t' u : Ftable) (holders : List ℕ) (f : ℕ) (r : Option ℕ)
    → done r u ≡ done (some f) t'
    → AllocLeaves holders r u
    → IsCounted t' (f ∷ holders)
opened t t' u holders f none h leaves = absurd (differ h)
  where
    differ : {f : ℕ} {t u : Ftable} → done none u ≡ done (some f) t → ⊥
    differ h = cc
opened t t' u holders f (some g) h leaves =
    subst (λ k. IsCounted t' (k ∷ holders)) (same_file h)
      (subst (λ v. IsCounted v (g ∷ holders)) (same_table h) leaves)
  where
    same_file : {f g : ℕ} {t u : Ftable} → done (some g) u ≡ done (some f) t → g ≡ f
    same_file h = cc

Reaches-IsCounted :
    (t0 t : Ftable) (holders : List ℕ)
    → IsCounted t0 []
    → Reaches t0 t holders
    → IsCounted t holders
Reaches-IsCounted t0 t holders i starts = i
Reaches-IsCounted t0 t' holders i (opens {t = t} {holders = hs} f before e) =
    let (r, u, run, leaves) = IsCounted-alloc t hs (Reaches-IsCounted t0 t hs i before) in
    opened t t' u hs f r (sym run ∙ e) leaves
Reaches-IsCounted t0 t' holders i (fills {t = t} f kind r w off before held) =
    IsCounted-filled t holders f kind r w off (Reaches-IsCounted t0 t holders i before)
Reaches-IsCounted t0 t' holders i (dups {t = t} {holders = hs} f before lt held e) =
    let (u, run, counted) = IsCounted-dup t hs f (Reaches-IsCounted t0 t hs i before) lt held in
    subst (λ v. IsCounted v (f ∷ hs)) (same_table (sym run ∙ e)) counted
Reaches-IsCounted t0 t' holders i (closes {t = t} {holders = hs} f a before lt held e) =
    let (b, u, run, (counted, goes_on, lets_go, kept)) =
      IsCounted-close t hs f (Reaches-IsCounted t0 t hs i before) lt held in
    subst (λ v. IsCounted v (without f hs)) (same_table (sym run ∙ e)) counted

-- From a table without references and with its lock free, after any history of filealloc, and of filedup,
-- fileclose and stores to the fields by holders, a holder of a file may close it: fileclose does not panic, the
-- other holders stay counted, and no other file changes. While the file has another holder, nothing is let go and
-- its kind stays; when it has none, the end of its pipe or its inode is let go, as its kind says, and it has no
-- kind any more.
pub closes_with_last :
    (t0 t : Ftable) (holders : List ℕ) (f : ℕ)
    → t0.locked ≡ false
    → ((g : ℕ) → g < nfile → (t0.files g).ref ≡ 0)
    → Reaches t0 t holders
    → f < nfile
    → 0 < count f holders
    → (a : Closing) × (t' : Ftable) × (fileclose f t ≡ ok (a, t')) × Closed f holders t a t'
closes_with_last t0 t holders f free empty reached lt held =
    IsCounted-close t holders f (Reaches-IsCounted t0 t holders (free, empty) reached) lt held

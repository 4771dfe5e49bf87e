-- ===== src/Log/Steps.antt =====
-- log.c: the processes that use the log as a step relation, and what their steps keep.
use os_2024_project_vm.Base.{
  ℕ, zero, suc, ◌+◌, ◌*◌, ◌≤◌, ◌≡◌, refl, ◌∙◌, inl, inr, false, ok, arith, ltb, Bool-cases, List,
  [], ◌∷◌, ◌++◌, length, All,
}
use os_2024_project_vm.Log.{
  Log, Begun, begun, asleep, logsize, maxopblocks, log_write, begin_op, end_op, commit, tail_loop,
  install_block, write_log_block, install_trans, write_log, write_head, clear_head,
}

-- What operations do to the log, one critical section after the other. `left` holds for each operation in
-- progress how many blocks it may still write: `maxopblocks` at its start. The operation in front acts.
pub data Step : Log → List ℕ → Log → List ℕ → Type 0 where
  begins :
      {l l' : Log} {left : List ℕ}
      → begin_op l ≡ ok (begun, l')
      → Step l left l' (maxopblocks ∷ left)
  waits : {l l' : Log} {left : List ℕ} → begin_op l ≡ ok (asleep, l') → Step l left l' left
  writes :
      {l l' : Log} {k : ℕ} {left : List ℕ} (b : ℕ)
      → log_write b l ≡ ok (tt, l')
      → Step l (suc k ∷ left) l' (k ∷ left)
  ends : {l l' : Log} {k : ℕ} {left : List ℕ} → end_op l ≡ ok (tt, l') → Step l (k ∷ left) l' left
  turns : {l : Log} (left right : List ℕ) → Step l (left ++ right) l (right ++ left)

-- From a log with nothing in it on.
pub data Reaches (l0 : Log) : Log → List ℕ → Type 0 where
  starts : Reaches l0 l0 []
  goes :
      {l l' : Log} {left left' : List ℕ}
      → Reaches l0 l left
      → Step l left l' left'
      → Reaches l0 l' left'

abbrev pub sum : List ℕ → ℕ
sum [] = 0
sum (k ∷ ks) = k + sum ks

pub sum-append : (xs ys : List ℕ) → sum (xs ++ ys) ≡ sum xs + sum ys
sum-append [] ys = omega arith
sum-append (x ∷ xs) ys = ground (arith, sum-append xs ys)

pub sum_small : (xs : List ℕ) → All (λ k. k ≤ maxopblocks) xs → sum xs ≤ length xs * maxopblocks
sum_small [] all = omega arith
sum_small (x ∷ xs) (p, all) = let rest = sum_small xs all in ground arith

pub All-append : (P : ℕ → Type 0) (xs ys : List ℕ) → All P (xs ++ ys) → All P xs × All P ys
All-append P [] ys all = (tt, all)
All-append P (x ∷ xs) ys (p, all) = let (a, b) = All-append P xs ys all in ((p, a), b)

pub append-All : (P : ℕ → Type 0) (xs ys : List ℕ) → All P xs → All P ys → All P (xs ++ ys)
append-All P [] ys a b = b
append-All P (x ∷ xs) ys (p, a) b = (p, append-All P xs ys a b)

-- Nobody holds the lock, the operations in progress are counted, and what they may write fits.
abbrev pub IsReserved : ℕ → Log → List ℕ → Type 0
IsReserved size l left =
    (l.locked ≡ false)
    × (l.committing ≡ false)
    × (l.size ≡ size)
    × (l.outstanding ≡ length left)
    × (l.lh.n + sum left ≤ logsize)
    × All (λ k. k ≤ maxopblocks) left

tail_loop-keeps :
    {A : Type 0} (f : Log → A) (round : ℕ → Log → Log)
    → ((t : ℕ) (l : Log) → f (round t l) ≡ f l)
    → (count tail : ℕ) (l : Log) → f (tail_loop round count tail l) ≡ f l
unfolding tail_loop
tail_loop-keeps f round keeps zero tail l = refl
tail_loop-keeps f round keeps (suc count) tail l =
    tail_loop-keeps f round keeps count (tail + 1) (round tail l) ∙ keeps tail l

-- A field that no write changes is kept by a commit.
pub commit-keeps :
    {A : Type 0} (f : Log → A)
    → ((l : Log) (t : ℕ) → f (install_block t l) ≡ f l)
    → ((l : Log) (t : ℕ) → f (write_log_block t l) ≡ f l)
    → ((l : Log) → f (write_head l) ≡ f l)
    → ((l : Log) → f (clear_head l) ≡ f l)
    → (l : Log) → f (commit l) ≡ f l
unfolding commit install_trans write_log
commit-keeps f i w h c l = elim (Bool-cases (ltb 0 l.lh.n)) [
  | inl e ↦ rw e (
      h (clear_head (install_trans (write_head (write_log l))))
      ∙ c (install_trans (write_head (write_log l)))
      ∙ tail_loop-keeps f install_block (λ t k. i k t) (write_head (write_log l)).lh.n 0
          (write_head (write_log l))
      ∙ h (write_log l)
      ∙ tail_loop-keeps f write_log_block (λ t k. w k t) l.lh.n 0 l)
  | inr e ↦ rw e refl
]

pub commit_empties : (l : Log) → (commit l).lh.n ≡ 0
unfolding commit write_head clear_head
commit_empties l = elim (Bool-cases (ltb 0 l.lh.n)) [
  | inl e ↦ rw e refl
  | inr e ↦ rw e (ground arith)
]

abbrev pub AfterBegin : ℕ → List ℕ → Begun × Log → Type 0
AfterBegin size left (begun, l) = IsReserved size l (maxopblocks ∷ left)
AfterBegin size left (asleep, l) = IsReserved size l left

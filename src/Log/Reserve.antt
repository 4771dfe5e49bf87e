-- ===== src/Log/Reserve.antt =====
-- begin_op reserves room in the log for the writes of each operation.
use mathlib.Core.Path.{subst}
use os_2024_project_vm.Base.{
  ℕ, suc, ◌+◌, ◌-◌, ◌*◌, ◌≤◌, ◌<◌, ◌≡◌, refl, sym, ◌∙◌, inl, inr, true, false, ◌||◌, ok, panic,
  arith, ltb, leb, ◌==◌, Bool-cases, List, [], ◌∷◌, ◌++◌, ◌>>=◌, ◌>>◌, length-append, Returns,
  Outcome, fault, out_of_fuel,
}
use os_2024_project_vm.Log.{
  Header, Log, Begun, begun, asleep, logsize, maxopblocks, add_entry, log_write, acquire_log,
  release_log, begin_op, end_op_first, end_op_last, end_op, commit, install_block, write_log_block,
  write_head, clear_head,
}
use os_2024_project_vm.Log.Steps.{
  begins, waits, writes, ends, turns, starts, goes, Step, Reaches, sum-append, sum_small,
  All-append, append-All, IsReserved, commit-keeps, commit_empties, AfterBegin,
}

begin_op-IsReserved :
    (size : ℕ) (l : Log) (left : List ℕ)
    → IsReserved size l left
    → Returns (AfterBegin size left) (begin_op l)
unfolding begin_op acquire_log release_log
begin_op-IsReserved size l left (free, idle, same, count, room, small) =
    elim (Bool-cases (ltb logsize (l.lh.n + (l.outstanding + 1) * maxopblocks))) [
      | inl e ↦ rw (◌>>=◌, ◌>>◌, free, idle, e) (refl, refl, same, count, room, small)
      | inr e ↦
          rw (◌>>=◌, ◌>>◌, free, idle, e)
            (let bound = sum_small left small in
              (refl, refl, same, ground arith, ground arith, (omega arith, small)))
    ]

add_entry_grows : (b : ℕ) (h : Header) → (add_entry b h).n ≤ h.n + 1
unfolding add_entry
add_entry_grows b h = ground arith

log_write-IsReserved :
    (size b k : ℕ) (l : Log) (left : List ℕ)
    → logsize < size
    → IsReserved size l (suc k ∷ left)
    → Returns (λ (r, l'). IsReserved size l' (k ∷ left)) (log_write b l)
unfolding log_write acquire_log release_log
log_write-IsReserved size b k l left roomy (free, idle, same, count, room, (p, small)) =
    rw (fits, opened, ◌>>=◌, ◌>>◌, free)
      (refl, idle, same, count, ground (arith, add_entry_grows b l.lh), (omega arith, small))
  where
    fits : leb logsize l.lh.n || leb (l.size - 1) l.lh.n ≡ false
    fits = ground arith

    opened : ltb l.outstanding 1 ≡ false
    opened = ground arith

end_op_last_lem :
    (l : Log)
    → l.locked ≡ false
    → end_op_last l ≡ ok (tt, record l { locked = false; committing = false; woken = l.woken + 1 })
unfolding end_op_last acquire_log release_log
end_op_last_lem l free = rw (◌>>=◌, ◌>>◌, free) refl

-- What end_op goes on with when it commits.
abbrev last_out : Log → Log
last_out l = record l { locked = false; outstanding = l.outstanding - 1; committing = true }

end_op_commits :
    (l : Log)
    → l.locked ≡ false
    → l.committing ≡ false
    → l.outstanding ≡ 1
    → end_op l ≡ end_op_last (commit (last_out l))
unfolding end_op end_op_first acquire_log release_log
end_op_commits l free idle one = rw (◌>>=◌, ◌>>◌, free, idle, one) refl

end_op_goes_on :
    (l : Log)
    → l.locked ≡ false
    → l.committing ≡ false
    → l.outstanding == 1 ≡ false
    → end_op l
      ≡ ok (
        tt,
        record l {
          locked = false;
          outstanding = l.outstanding - 1;
          woken = l.woken + 1;
          committing = false;
        },
      )
unfolding end_op end_op_first acquire_log release_log
end_op_goes_on l free idle more = rw (◌>>=◌, ◌>>◌, free, idle, more) refl

end_op-IsReserved :
    (size k : ℕ) (l : Log) (left : List ℕ)
    → IsReserved size l (k ∷ left)
    → Returns (λ (r, l'). IsReserved size l' left) (end_op l)
unfolding install_block write_log_block write_head clear_head
end_op-IsReserved size k l [] (free, idle, same, count, room, (p, small)) =
    rw (end_op_commits l free idle count, end_op_last_lem (commit (last_out l)) unlocked)
      (
        refl,
        refl,
        sized ∙ same,
        counted ∙ rw count refl,
        rw (commit_empties (last_out l)) (omega arith),
        tt,
      )
  where
    unlocked : (commit (last_out l)).locked ≡ false
    unlocked =
        commit-keeps (λ r. r.locked) (λ r t. refl) (λ r t. refl) (λ r. refl) (λ r. refl)
          (last_out l)

    sized : (commit (last_out l)).size ≡ l.size
    sized =
        commit-keeps (λ r. r.size) (λ r t. refl) (λ r t. refl) (λ r. refl) (λ r. refl) (last_out l)

    counted : (commit (last_out l)).outstanding ≡ l.outstanding - 1
    counted =
        commit-keeps (λ r. r.outstanding) (λ r t. refl) (λ r t. refl) (λ r. refl) (λ r. refl)
          (last_out l)
end_op-IsReserved size k l (j ∷ left) (free, idle, same, count, room, (p, small)) =
    rw (end_op_goes_on l free idle (ground arith))
      (refl, refl, same, ground arith, ground arith, small)

turns-IsReserved :
    (size : ℕ) (l : Log) (xs ys : List ℕ)
    → IsReserved size l (xs ++ ys)
    → IsReserved size l (ys ++ xs)
turns-IsReserved size l xs ys (free, idle, same, count, room, small) =
    let (a, b) = All-append (λ k. k ≤ maxopblocks) xs ys small in
    (
      free,
      idle,
      same,
      count ∙ length-append xs ys ∙ omega arith ∙ sym (length-append ys xs),
      ground (arith, sum-append xs ys, sum-append ys xs),
      append-All (λ k. k ≤ maxopblocks) ys xs b a,
    )

Step-IsReserved :
    (size : ℕ) (l l' : Log) (left left' : List ℕ)
    → logsize < size
    → IsReserved size l left
    → Step l left l' left'
    → IsReserved size l' left'
Step-IsReserved size l l' left left' roomy r (begins e) =
    subst (Returns (AfterBegin size left)) e (begin_op-IsReserved size l left r)
Step-IsReserved size l l' left left' roomy r (waits e) =
    subst (Returns (AfterBegin size left)) e (begin_op-IsReserved size l left r)
Step-IsReserved size l l' (suc k ∷ left) left' roomy r (writes b e) =
    subst (Returns (λ (u, m). IsReserved size m (k ∷ left))) e
      (log_write-IsReserved size b k l left roomy r)
Step-IsReserved size l l' (k ∷ left) left' roomy r (ends e) =
    subst (Returns (λ (u, m). IsReserved size m left)) e (end_op-IsReserved size k l left r)
Step-IsReserved size l l' left left' roomy r (turns xs ys) = turns-IsReserved size l xs ys r

Reaches-IsReserved :
    (l0 l : Log) (left : List ℕ)
    → logsize < l0.size
    → IsReserved l0.size l0 []
    → Reaches l0 l left
    → IsReserved l0.size l left
Reaches-IsReserved l0 l left roomy r starts = r
Reaches-IsReserved l0 l left roomy r (goes reached step) =
    Step-IsReserved l0.size _ l _ left roomy (Reaches-IsReserved l0 _ _ roomy r reached) step

Returns-map :
    {A : Type 0} {P Q : A → Type 0} (f : (a : A) → P a → Q a) (o : Outcome A)
    → Returns P o
    → Returns Q o
Returns-map f (ok a) p = f a p
Returns-map f (panic e) p = p
Returns-map f fault p = p
Returns-map f out_of_fuel p = p

within : (size : ℕ) (l : Log) (left : List ℕ) → IsReserved size l left → l.lh.n ≤ logsize
within size l left (free, idle, same, count, room, small) = omega arith

begun_within :
    (size : ℕ) (u : Begun) (l : Log) (left : List ℕ)
    → AfterBegin size left (u, l)
    → l.lh.n ≤ logsize
begun_within size begun l left i = within size l (maxopblocks ∷ left) i
begun_within size asleep l left i = within size l left i

-- From an empty log at rest of more than LOGSIZE blocks on, in any order of operations that write at most
-- MAXOPBLOCKS blocks each, a log_write within its operation's limit does not panic, the end of an operation,
-- with its commit if it was the last, does not either, and nor does begin_op; the log holds at most LOGSIZE
-- blocks.
pub reservation_suffices :
    (l0 l : Log) (k b : ℕ) (left : List ℕ)
    → logsize < l0.size
    → l0.locked ≡ false
    → l0.committing ≡ false
    → l0.outstanding ≡ 0
    → l0.lh.n ≡ 0
    → Reaches l0 l (suc k ∷ left)
    → Returns (λ (r, l'). l'.lh.n ≤ logsize) (log_write b l)
      × Returns (λ (r, l'). l'.lh.n ≤ logsize) (end_op l)
      × Returns (λ (r, l'). l'.lh.n ≤ logsize) (begin_op l)
reservation_suffices l0 l k b left roomy free idle none empty reached =
    let r : IsReserved l0.size l (suc k ∷ left) =
      Reaches-IsReserved l0 l (suc k ∷ left) roomy (free, idle, refl, none, ground arith, tt)
        reached in
    (
      Returns-map (λ (u, m) i. within l0.size m (k ∷ left) i) (log_write b l)
          (log_write-IsReserved l0.size b k l left roomy r),
      Returns-map (λ (u, m) i. within l0.size m left i) (end_op l)
          (end_op-IsReserved l0.size (suc k) l left r),
      Returns-map (λ (u, m) i. begun_within l0.size u m (suc k ∷ left) i) (begin_op l)
          (begin_op-IsReserved l0.size l (suc k ∷ left) r),
    )

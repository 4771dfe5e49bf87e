-- ===== src/Sleeplock/Holder.antt =====
-- A sleep lock has one holder.
use mathlib.Core.Path.{subst}
use os_2024_project_vm.Base.{
  ℕ, ◌+◌, ◌≡◌, refl, sym, ap, ◌∙◌, Bool, true, false, not, ◌&&◌, Option, none, some, ok, Outcome,
  arith, ◌==◌, ◌>>=◌, ◌>>◌,
}
use os_2024_project_vm.Sleeplock.{
  Sleeplock, acquire_lk, release_lk, initsleeplock, acquiresleep, releasesleep, holdingsleep,
}

-- What processes do with the lock, and who holds it: who takes it holds it, and only a holder releases it.
pub data Reaches : Sleeplock → Option ℕ → Type 0 where
  starts : Reaches initsleeplock none
  takes :
      {l l' : Sleeplock} {holder : Option ℕ} (p : ℕ)
      → Reaches l holder
      → acquiresleep p l ≡ ok (true, l')
      → Reaches l' (some p)
  sleeps :
      {l l' : Sleeplock} {holder : Option ℕ} (p : ℕ)
      → Reaches l holder
      → acquiresleep p l ≡ ok (false, l')
      → Reaches l' holder
  releases :
      {l l' : Sleeplock} (p : ℕ)
      → Reaches l (some p)
      → releasesleep l ≡ ok (tt, l')
      → Reaches l' none

-- The fields say who holds the lock.
abbrev pub Records : Sleeplock → Option ℕ → Type 0
Records l none = (l.lk ≡ false) × (l.locked ≡ false)
Records l (some p) = (l.lk ≡ false) × (l.locked ≡ true) × (l.pid ≡ p)

abbrev done : {A : Type 0} → A → Sleeplock → Outcome (A × Sleeplock)
done a l = ok (a, l)

same_lock : {A : Type 0} {a b : A} {l k : Sleeplock} → done a l ≡ done b k → l ≡ k
same_lock h = cc

same_answer : {A : Type 0} {a b : A} {l k : Sleeplock} → done a l ≡ done b k → a ≡ b
same_answer h = cc

apart : true ≡ false → ⊥
apart h = ground arith

acquiresleep_takes :
    (p : ℕ) (l : Sleeplock)
    → l.lk ≡ false
    → l.locked ≡ false
    → acquiresleep p l ≡ ok (true, record l { lk = false; locked = true; pid = p })
unfolding acquiresleep acquire_lk release_lk
acquiresleep_takes p l free e = rw (◌>>=◌, ◌>>◌, free, e) refl

acquiresleep_sleeps :
    (p : ℕ) (l : Sleeplock)
    → l.lk ≡ false
    → l.locked ≡ true
    → acquiresleep p l ≡ ok (false, record l { lk = false })
unfolding acquiresleep acquire_lk release_lk
acquiresleep_sleeps p l free e = rw (◌>>=◌, ◌>>◌, free, e) refl

releasesleep_lem :
    (l : Sleeplock)
    → l.lk ≡ false
    → releasesleep l ≡ ok (tt, record { lk = false; locked = false; pid = 0; woken = l.woken + 1 })
unfolding releasesleep acquire_lk release_lk
releasesleep_lem l free = rw (◌>>=◌, ◌>>◌, free) refl

holdingsleep_lem :
    (q : ℕ) (l : Sleeplock)
    → l.lk ≡ false
    → holdingsleep q l ≡ ok (l.locked && (l.pid == q), record l { lk = false })
unfolding holdingsleep acquire_lk release_lk
holdingsleep_lem q l free = rw (◌>>=◌, ◌>>◌, free) refl

-- Who takes the lock found it free; who sleeps leaves it as it was.
takes-Records :
    (p : ℕ) (l l' : Sleeplock) (holder : Option ℕ)
    → Records l holder
    → acquiresleep p l ≡ ok (true, l')
    → Records l' (some p)
takes-Records p l l' none (free, unlocked) e =
    subst (λ k. Records k (some p)) (same_lock (sym (acquiresleep_takes p l free unlocked) ∙ e))
      (refl, refl, refl)
takes-Records p l l' (some q) (free, locked, pid) e =
    absurd (apart (sym (same_answer (sym (acquiresleep_sleeps p l free locked) ∙ e))))

sleeps-Records :
    (p : ℕ) (l l' : Sleeplock) (holder : Option ℕ)
    → Records l holder
    → acquiresleep p l ≡ ok (false, l')
    → Records l' holder
sleeps-Records p l l' none (free, unlocked) e =
    absurd (apart (same_answer (sym (acquiresleep_takes p l free unlocked) ∙ e)))
sleeps-Records p l l' (some q) (free, locked, pid) e =
    subst (λ k. Records k (some q)) (same_lock (sym (acquiresleep_sleeps p l free locked) ∙ e))
      (refl, locked, pid)

releases-Records :
    (p : ℕ) (l l' : Sleeplock) → Records l (some p) → releasesleep l ≡ ok (tt, l') → Records l' none
releases-Records p l l' (free, locked, pid) e =
    subst (λ k. Records k none) (same_lock (sym (releasesleep_lem l free) ∙ e)) (refl, refl)

initially : Records initsleeplock none
unfolding initsleeplock
initially = (refl, refl)

Reaches-Records : (l : Sleeplock) (holder : Option ℕ) → Reaches l holder → Records l holder
Reaches-Records l holder starts = initially
Reaches-Records l holder (takes {l = k} {holder = h} p before e) =
    takes-Records p k l h (Reaches-Records k h before) e
Reaches-Records l holder (sleeps {l = k} p before e) =
    sleeps-Records p k l holder (Reaches-Records k holder before) e
Reaches-Records l holder (releases {l = k} p before e) =
    releases-Records p k l (Reaches-Records k (some p) before) e

abbrev pub is_holder : ℕ → Option ℕ → Bool
is_holder q holder = elim holder [ none ↦ false | some p ↦ p == q ]

abbrev pub is_held : Option ℕ → Bool
is_held holder = elim holder [ none ↦ false | some p ↦ true ]

-- After any history of acquiresleep, and of releasesleep by the holder, from initsleeplock on: acquiresleep
-- takes the lock if nobody holds it and sleeps otherwise, so there is one holder at most; holdingsleep is true
-- for the holder and for no other pid; and releasesleep returns.
pub one_holder :
    (l : Sleeplock) (holder : Option ℕ) (q : ℕ)
    → Reaches l holder
    → (l1 l2 l3 : Sleeplock) × (acquiresleep q l ≡ ok (not (is_held holder), l1))
      × (holdingsleep q l ≡ ok (is_holder q holder, l2))
      × (releasesleep l ≡ ok (tt, l3))
one_holder l none q reached =
    let (free, unlocked) = Reaches-Records l none reached in
    (
      record l { lk = false; locked = true; pid = q },
      record l { lk = false },
      record { lk = false; locked = false; pid = 0; woken = l.woken + 1 },
      acquiresleep_takes q l free unlocked,
      holdingsleep_lem q l free
          ∙ ap (λ b. done (b && (l.pid == q)) (record l { lk = false })) unlocked,
      releasesleep_lem l free,
    )
one_holder l (some p) q reached =
    let (free, locked, pid) = Reaches-Records l (some p) reached in
    (
      record l { lk = false },
      record l { lk = false },
      record { lk = false; locked = false; pid = 0; woken = l.woken + 1 },
      acquiresleep_sleeps q l free locked,
      holdingsleep_lem q l free
          ∙ ap (λ b. done (b && (l.pid == q)) (record l { lk = false })) locked
          ∙ ap (λ n. done (n == q) (record l { lk = false })) pid,
      releasesleep_lem l free,
    )

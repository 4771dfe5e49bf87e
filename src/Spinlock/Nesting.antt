-- ===== src/Spinlock/Nesting.antt =====
-- pushcli and popcli nest.
use mathlib.Core.Path.{subst}
use os_2024_project_vm.Base.{
  ℕ, zero, suc, ◌+◌, ◌-◌, ◌<◌, ◌≡◌, refl, ap, ◌∙◌, inl, inr, Bool, true, false, ◌&&◌, Option, none,
  some, ok, M, arith, ◌==◌, if◌then◌else◌, Bool-cases, ◌>>=◌, ◌>>◌, List, [], ◌∷◌,
}
use os_2024_project_vm.Spinlock.{Locking, pushcli, popcli}

pub data Call : Type 0 where
  push pop : Call

-- The calls in order.
unfoldable pub run : List Call → M Locking (Unit {0})
run [] s = ok (tt, s)
run (push ∷ cs) s = (pushcli >> run cs) s
run (pop ∷ cs) s = (popcli >> run cs) s

-- The depth after the calls from depth `d` on; `none` if there are more calls of popcli than of pushcli at
-- some point.
unfoldable pub depth : ℕ → List Call → Option ℕ
depth d [] = some d
depth d (push ∷ cs) = depth (d + 1) cs
depth zero (pop ∷ cs) = none
depth (suc d) (pop ∷ cs) = depth d cs

-- At depth `d`, where `before` says whether interrupts were on at depth 0.
abbrev pub IsNested : Bool → ℕ → Locking → Type 0
IsNested before d s =
    (s.self.ncli ≡ d)
    × (d ≡ 0 → s.self.interrupts ≡ before)
    × (0 < d → s.self.interrupts ≡ false)
    × (0 < d → s.self.intena ≡ before)

pushcli-IsNested :
    (before : Bool) (d : ℕ) (s : Locking)
    → IsNested before d s
    → (s' : Locking) × (pushcli s ≡ ok (tt, s')) × IsNested before (d + 1) s' × (s'.lock ≡ s.lock)
unfolding pushcli
pushcli-IsNested before d s (n, on, off, saved) =
    (_, refl, (ap (λ k. k + 1) n, λ e. absurd (omega arith), λ l. refl, λ l. keeps), refl)
  where
    keeps : (if s.self.ncli == 0 then s.self.interrupts else s.self.intena) ≡ before
    keeps = elim (Bool-cases (s.self.ncli == 0)) [
      | inl e ↦ rw e (on (ground arith))
      | inr e ↦ rw e (saved (ground arith))
    ]

popcli-IsNested :
    (before : Bool) (d : ℕ) (s : Locking)
    → IsNested before (suc d) s
    → (s' : Locking) × (popcli s ≡ ok (tt, s')) × IsNested before d s' × (s'.lock ≡ s.lock)
unfolding popcli
popcli-IsNested before d s (n, on, off, saved) = (
  record s {
    self = record {
      ncli = s.self.ncli - 1;
      intena = s.self.intena;
      interrupts = (s.self.ncli - 1 == 0) && s.self.intena;
    };
  },
  rw (off (omega arith), deep) refl,
  (
    omega arith,
    λ e. rw (bottom e) (saved (omega arith)),
    λ l. rw (above l) refl,
    λ l. saved (omega arith),
  ),
  refl,
)
  where
    deep : s.self.ncli == 0 ≡ false
    deep = ground arith

    bottom : d ≡ 0 → s.self.ncli - 1 == 0 ≡ true
    bottom e = ground arith

    above : 0 < d → s.self.ncli - 1 == 0 ≡ false
    above l = ground arith

abbrev the_depth : ℕ → Option ℕ → ℕ
the_depth d none = d
the_depth d (some e) = e

never : (e : ℕ) → none ≡ some e → ⊥
never e h = cc

runs-IsNested :
    (before : Bool) (cs : List Call) (d e : ℕ) (s : Locking)
    → IsNested before d s
    → depth d cs ≡ some e
    → (s' : Locking) × (run cs s ≡ ok (tt, s')) × IsNested before e s' × (s'.lock ≡ s.lock)
unfolding run depth
runs-IsNested before [] d e s nested h =
    (s, refl, subst (λ o. IsNested before (the_depth d o) s) h nested, refl)
runs-IsNested before (push ∷ cs) d e s nested h =
    let (s1, run1, nested1, same1) = pushcli-IsNested before d s nested in
    let (s2, run2, nested2, same2) = runs-IsNested before cs (d + 1) e s1 nested1 h in
    (s2, rw (◌>>◌, ◌>>=◌, run1) run2, nested2, same2 ∙ same1)
runs-IsNested before (pop ∷ cs) zero e s nested h = absurd (never e h)
runs-IsNested before (pop ∷ cs) (suc d) e s nested h =
    let (s1, run1, nested1, same1) = popcli-IsNested before d s nested in
    let (s2, run2, nested2, same2) = runs-IsNested before cs d e s1 nested1 h in
    (s2, rw (◌>>◌, ◌>>=◌, run1) run2, nested2, same2 ∙ same1)

-- Any sequence of pushcli and popcli that starts at depth 0, and in which no popcli comes without its pushcli,
-- does not panic. It ends at its depth; interrupts are off unless that is 0, and as they were at the start if
-- it is. The lock is not touched.
pub pushcli-popcli :
    (cs : List Call) (e : ℕ) (s : Locking)
    → s.self.ncli ≡ 0
    → depth 0 cs ≡ some e
    → (s' : Locking) × (run cs s ≡ ok (tt, s'))
      × IsNested s.self.interrupts e s'
      × (s'.lock ≡ s.lock)
pushcli-popcli cs e s bottom h =
    runs-IsNested s.self.interrupts cs 0 e s
      (bottom, λ z. refl, λ l. absurd (omega arith), λ l. absurd (omega arith)) h

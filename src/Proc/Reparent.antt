-- ===== src/Proc/Reparent.antt =====
-- proc.c: the children that exit hands to the init process.
use mathlib.Core.Path.{subst}
use os_2024_project_vm.Base.{
  ℕ, zero, suc, ◌+◌, ◌≤◌, ◌<◌, ◌≡◌, ◌≢◌, refl, sym, ap, ◌∙◌, inl, inr, Bool, true, false, ◌&&◌,
  some, arith, ◌==◌, if◌then◌else◌, Bool-cases, ==_refl,
}
use os_2024_project_vm.Memory.{update}
use os_2024_project_vm.Proc.{
  Proc, sleeping, runnable, zombie, Chan, of_proc, code, is, same_chan, is_child_of, nproc, wakeup1,
  reparent,
}
use os_2024_project_vm.Proc.Table.{woken, wakeup1_lem, wakeup1-keeps}

-- asleep on `c`
abbrev pub asleep_on : Chan → Proc → Bool
asleep_on c p = is p.state sleeping && same_chan p.chan c

-- A round of the loop of exit.
abbrev given : ℕ → (ℕ → Proc) → ℕ → ℕ → Proc
given init procs i = update procs i (record (procs i) { parent = some init })

abbrev round : ℕ → ℕ → (ℕ → Proc) → ℕ → ℕ → Proc
round me init procs i =
    if is_child_of me (procs i)
    then (if is (procs i).state zombie
        then wakeup1 (of_proc init) (given init procs i)
        else given init procs i)
    else procs

given-keeps :
    (P : Proc → Type 0) (init : ℕ) (procs : ℕ → Proc) (i j : ℕ)
    → (i ≡ j → P (procs j) → P (record (procs j) { parent = some init }))
    → P (procs j)
    → P (given init procs i j)
given-keeps P init procs i j g p = elim (Bool-cases (i == j)) [
  | inl e ↦ at_same j (equal i j e) g p
  | inr e ↦ rw e p
]
  where
    equal : (i j : ℕ) → i == j ≡ true → i ≡ j
    equal i j e = ground arith

    at_same :
        (j : ℕ)
        → i ≡ j
        → (i ≡ j → P (procs j) → P (record (procs j) { parent = some init }))
        → P (procs j)
        → P (given init procs i j)
    at_same j e g p = rw (e, ==_refl j) (g e p)

-- What waking keeps, and giving away a child too, a round keeps.
round-keeps :
    (P : Proc → Type 0) (me init : ℕ) (procs : ℕ → Proc) (i j : ℕ)
    → ((c : Chan) (p : Proc) → P p → P (woken c p))
    → (i ≡ j
        → is_child_of me (procs j) ≡ true
        → P (procs j)
        → P (record (procs j) { parent = some init }))
    → P (procs j)
    → P (round me init procs i j)
round-keeps P me init procs i j w g p = elim (Bool-cases (is_child_of me (procs i))) [
  | inl e ↦
      let given_p : P (given init procs i j) =
        given-keeps P init procs i j
          (λ same. g same (ap (λ k. is_child_of me (procs k)) (sym same) ∙ e)) p in
      rw e (elim (Bool-cases (is (procs i).state zombie)) [
        | inl z ↦ rw z (
            wakeup1-keeps P (of_proc init) (given init procs i) j
              (w (of_proc init) (given init procs i j)) given_p)
        | inr z ↦ rw z given_p
      ])
  | inr e ↦ rw e p
]

-- The slot whose turn it is.
round-own :
    (P : Proc → Type 0) (me init : ℕ) (procs : ℕ → Proc) (i : ℕ)
    → ((c : Chan) (p : Proc) → P p → P (woken c p))
    → (is_child_of me (procs i) ≡ true → P (record (procs i) { parent = some init }))
    → (is_child_of me (procs i) ≡ false → P (procs i))
    → P (round me init procs i i)
round-own P me init procs i w child other = elim (Bool-cases (is_child_of me (procs i))) [
  | inl e ↦
      let given_p : P (given init procs i i) = rw (==_refl i) (child e) in
      rw e (elim (Bool-cases (is (procs i).state zombie)) [
        | inl z ↦ rw z (
            wakeup1-keeps P (of_proc init) (given init procs i) i
              (w (of_proc init) (given init procs i i)) given_p)
        | inr z ↦ rw z given_p
      ])
  | inr e ↦ rw e (other e)
]

pub equal : (i j : ℕ) → i == j ≡ true → i ≡ j
equal i j e = ground arith

pub reparent-keeps :
    (P : Proc → Type 0) (me init count i : ℕ) (procs : ℕ → Proc) (j : ℕ)
    → ((c : Chan) (p : Proc) → P p → P (woken c p))
    → ((p : Proc) → is_child_of me p ≡ true → P p → P (record p { parent = some init }))
    → P (procs j)
    → P (reparent me init count i procs j)
unfolding reparent
reparent-keeps P me init zero i procs j w g p = p
reparent-keeps P me init (suc count) i procs j w g p =
    reparent-keeps P me init count (i + 1) (round me init procs i) j w g
      (round-keeps P me init procs i j w (λ same. g (procs j)) p)

-- A field that is not the state survives waking.
pub woken-field :
    {A : Type 0} (f : Proc → A) (c : Chan) (p : Proc)
    → f (record p { state = runnable }) ≡ f p
    → f (woken c p) ≡ f p
woken-field f c p h = elim (Bool-cases (asleep_on c p)) [ inl e ↦ rw e h | inr e ↦ rw e refl ]

pub asleep_on-woken :
    (c d : Chan) (p : Proc) → asleep_on c p ≡ false → asleep_on c (woken d p) ≡ false
unfolding code
asleep_on-woken c d p h = elim (Bool-cases (asleep_on d p)) [ inl e ↦ rw e refl | inr e ↦ rw e h ]

-- wakeup1 leaves nobody asleep on its channel.
pub woken-awake : (c : Chan) (p : Proc) → asleep_on c (woken c p) ≡ false
unfolding code
woken-awake c p = elim (Bool-cases (asleep_on c p)) [ inl e ↦ rw e refl | inr e ↦ rw e e ]

pub zombie-woken :
    (c : Chan) (p : Proc) → is p.state zombie ≡ true → is (woken c p).state zombie ≡ true
unfolding code
zombie-woken c p h = elim (Bool-cases (asleep_on c p)) [
  | inl e ↦ rw e (ground arith)
  | inr e ↦ rw e h
]

init_woken :
    (me init : ℕ) (procs : ℕ → Proc) (i k : ℕ)
    → k < nproc
    → is_child_of me (procs i) ≡ true
    → is (procs i).state zombie ≡ true
    → asleep_on (of_proc init) (round me init procs i k) ≡ false
init_woken me init procs i k lt child dead =
    rw (child, dead, wakeup1_lem (of_proc init) (given init procs i) k lt)
      (woken-awake (of_proc init) (given init procs i k))

differ : (i j : ℕ) → i == j ≡ false → i ≡ j → ⊥
differ i j e h = ground arith

not_own : (me init : ℕ) → init ≢ me → (init == me) ≡ false
not_own me init ne = ground arith

module _ (me init : ℕ) (ne : init ≢ me) where
  -- The loop leaves no child of `me` among the slots it passes.
  pub no_child_left :
      (count i : ℕ) (procs : ℕ → Proc) (j : ℕ)
      → i ≤ j
      → j < i + count
      → is_child_of me (reparent me init count i procs j) ≡ false
  unfolding reparent is_child_of
  no_child_left zero i procs j l g = absurd (omega arith)
  no_child_left (suc count) i procs j l g = elim (Bool-cases (i == j)) [
    | inl e ↦
        reparent-keeps (λ p. is_child_of me p ≡ false) me init count (i + 1) (round me init procs i)
          j (λ c p h. woken-field (is_child_of me) c p refl ∙ h) (λ p c h. not_own me init ne)
          (subst (λ k. is_child_of me (round me init procs i k) ≡ false) (equal i j e)
            (round-own (λ p. is_child_of me p ≡ false) me init procs i
              (λ c p h. woken-field (is_child_of me) c p refl ∙ h) (λ child. not_own me init ne)
              (λ other. other)))
    | inr e ↦ no_child_left count (i + 1) (round me init procs i) j (ground arith) (omega arith)
  ]

  -- A zombie child in a slot that the loop passes wakes init.
  pub init_awake :
      (count i : ℕ) (procs : ℕ → Proc) (j k : ℕ)
      → i ≤ j
      → j < i + count
      → k < nproc
      → is_child_of me (procs j) ≡ true
      → is (procs j).state zombie ≡ true
      → asleep_on (of_proc init) (reparent me init count i procs k) ≡ false
  unfolding reparent is_child_of
  init_awake zero i procs j k l g lt child dead = absurd (omega arith)
  init_awake (suc count) i procs j k l g lt child dead = elim (Bool-cases (i == j)) [
    | inl e ↦
        reparent-keeps (λ p. asleep_on (of_proc init) p ≡ false) me init count (i + 1)
          (round me init procs i) k (λ c p h. asleep_on-woken (of_proc init) c p h) (λ p c h. h)
          (init_woken me init procs i k lt
            (ap (λ n. is_child_of me (procs n)) (equal i j e) ∙ child)
            (ap (λ n. is (procs n).state zombie) (equal i j e) ∙ dead))
    | inr e ↦
        init_awake count (i + 1) (round me init procs i) j k (ground arith) (omega arith) lt
          (round-keeps (λ p. is_child_of me p ≡ true) me init procs i j
            (λ c p h. woken-field (is_child_of me) c p refl ∙ h)
            (λ same. absurd (differ i j e same)) child)
          (round-keeps (λ p. is p.state zombie ≡ true) me init procs i j zombie-woken
            (λ same. absurd (differ i j e same)) dead)
  ]

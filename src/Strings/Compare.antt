-- ===== src/Strings/Compare.antt =====
-- strncmp decides whether two strings agree.
use os_2024_project_vm.Base.{
  ℕ, zero, suc, ◌+◌, ◌<◌, ◌≡◌, ◌≢◌, ◌↔◌, refl, sym, ap, ◌∙◌, inl, inr, arith, ◌==◌, Bool-cases,
}
use os_2024_project_vm.Base.Int.{pos, sub_ℕ}
use os_2024_project_vm.Strings.{Bytes, strncmp}

-- The strings at `p` and `q` agree on their first `n` bytes, up to the end of the first.
abbrev pub Agree : ℕ → Bytes → ℕ → ℕ → Type 0
Agree n m p q = (i : ℕ) → i < n → ((j : ℕ) → j < i → m (p + j) ≢ 0) → m (p + i) ≡ m (q + i)

sub-zero : (a b : ℕ) → sub_ℕ a b ≡ pos 0 → a ≡ b
sub-zero a b h = ground arith

shift : (m : Bytes) (p i : ℕ) → m (p + 1 + i) ≡ m (p + suc i)
shift m p i = ap m (omega arith)

at_zero : (m : Bytes) (p : ℕ) → m (p + 0) ≡ m p
at_zero m p = ap m (omega arith)

Agree-suc :
    (n : ℕ) (m : Bytes) (p q : ℕ)
    → m p ≡ m q
    → (m p ≢ 0 → Agree n m (p + 1) (q + 1))
    → Agree (suc n) m p q
Agree-suc n m p q e rest zero h before = at_zero m p ∙ e ∙ sym (at_zero m q)
Agree-suc n m p q e rest (suc i) h before =
    sym (shift m p i)
    ∙ rest (λ z. before 0 (omega arith) (at_zero m p ∙ z)) i (omega arith)
        (λ j lt z. before (suc j) (omega arith) (sym (shift m p j) ∙ z))
    ∙ shift m q i

strncmp-Agree : (n : ℕ) (m : Bytes) (p q : ℕ) → strncmp n m p q ≡ pos 0 → Agree n m p q
unfolding strncmp
strncmp-Agree zero m p q h = λ i lt before. absurd (omega arith)
strncmp-Agree (suc n) m p q h =
    Agree-suc n m p q (ground (arith, sub-zero (m p) (m q)))
      (λ nz. strncmp-Agree n m (p + 1) (q + 1) (ground (arith, sub-zero (m p) (m q))))

Agree-tail :
    (n : ℕ) (m : Bytes) (p q : ℕ) → Agree (suc n) m p q → m p ≢ 0 → Agree n m (p + 1) (q + 1)
Agree-tail n m p q a nz i h before =
    shift m p i ∙ a (suc i) (omega arith) (λ j lt z. earlier j lt z) ∙ sym (shift m q i)
  where
    earlier : (j : ℕ) → j < suc i → m (p + j) ≡ 0 → ⊥
    earlier zero lt z = nz (sym (at_zero m p) ∙ z)
    earlier (suc j) lt z = before j (omega arith) (shift m p j ∙ z)

Agree-strncmp : (n : ℕ) (m : Bytes) (p q : ℕ) → Agree n m p q → strncmp n m p q ≡ pos 0
unfolding strncmp
Agree-strncmp zero m p q a = refl
Agree-strncmp (suc n) m p q a =
    let first : m p ≡ m q =
      sym (at_zero m p) ∙ a 0 (omega arith) (λ j lt. absurd (omega arith)) ∙ at_zero m q in
    elim (Bool-cases (m p == 0)) [
      | inl e ↦ ground arith
      | inr e ↦
          ground (arith, Agree-strncmp n m (p + 1) (q + 1) (Agree-tail n m p q a (ground arith)))
    ]

-- strncmp returns 0 exactly when the two strings agree on their first `n` bytes, up to the end of
-- the first string.
pub strncmp_iff : (n : ℕ) (m : Bytes) (p q : ℕ) → (strncmp n m p q ≡ pos 0) ↔ Agree n m p q
strncmp_iff n m p q = (strncmp-Agree n m p q, Agree-strncmp n m p q)

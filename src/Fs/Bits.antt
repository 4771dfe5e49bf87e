-- ===== src/Fs/Bits.antt =====
-- Bits of a word that is set or cleared at one place.
use os_2024_project_vm.Base.{
  ℕ, zero, suc, ◌+◌, ◌*◌, ◌/◌, ◌%◌, ◌<◌, ◌≡◌, ◌≢◌, refl, sym, ap, ◌∙◌, arith,
}
use os_2024_project_vm.Fs.State.{bit_of, set_bit, clear_bit}

-- A digit in front of a number.
abbrev Digit : ℕ → ℕ → ℕ → Type 0
Digit n h d = (n / 2 ≡ h) × (n % 2 ≡ d)

digit : (h d : ℕ) → d < 2 → Digit (h * 2 + d) h d
digit h d lt = (omega arith, omega arith)

bit_of-digit_zero : (h d : ℕ) → d < 2 → bit_of (h * 2 + d) 0 ≡ d
unfolding bit_of
bit_of-digit_zero h d lt = (digit h d lt).1

bit_of-digit_suc : (h d j : ℕ) → d < 2 → bit_of (h * 2 + d) (suc j) ≡ bit_of h j
unfolding bit_of
bit_of-digit_suc h d j lt = ap (λ n. bit_of n j) (digit h d lt).0

digit_of : (w : ℕ) → w % 2 < 2
digit_of w = omega arith

bit_of-suc : (w j : ℕ) → bit_of w (suc j) ≡ bit_of (w / 2) j
unfolding bit_of
bit_of-suc w j = refl

bit_of-zero : (w : ℕ) → bit_of w 0 ≡ w % 2
unfolding bit_of
bit_of-zero w = refl

pub bit_of-set_bit_self : (w k : ℕ) → bit_of (set_bit w k) k ≡ 1
unfolding set_bit
bit_of-set_bit_self w zero = bit_of-digit_zero (w / 2) 1 (omega arith)
bit_of-set_bit_self w (suc k) =
    bit_of-digit_suc (set_bit (w / 2) k) (w % 2) k (digit_of w) ∙ bit_of-set_bit_self (w / 2) k

pub bit_of-set_bit_other : (w k j : ℕ) → k ≢ j → bit_of (set_bit w k) j ≡ bit_of w j
unfolding set_bit
bit_of-set_bit_other w zero zero ne = absurd (ne refl)
bit_of-set_bit_other w zero (suc j) ne =
    bit_of-digit_suc (w / 2) 1 j (omega arith) ∙ sym (bit_of-suc w j)
bit_of-set_bit_other w (suc k) zero ne =
    bit_of-digit_zero (set_bit (w / 2) k) (w % 2) (digit_of w) ∙ sym (bit_of-zero w)
bit_of-set_bit_other w (suc k) (suc j) ne =
    bit_of-digit_suc (set_bit (w / 2) k) (w % 2) j (digit_of w)
    ∙ bit_of-set_bit_other (w / 2) k j (λ e. ne (ap suc e))
    ∙ sym (bit_of-suc w j)

-- The lowest digit 0 is written out by the code as no addition.
even : (h : ℕ) → h * 2 ≡ h * 2 + 0
even h = omega arith

pub bit_of-clear_bit_self : (w k : ℕ) → bit_of (clear_bit w k) k ≡ 0
unfolding clear_bit
bit_of-clear_bit_self w zero =
    ap (λ n. bit_of n 0) (even (w / 2)) ∙ bit_of-digit_zero (w / 2) 0 (omega arith)
bit_of-clear_bit_self w (suc k) =
    bit_of-digit_suc (clear_bit (w / 2) k) (w % 2) k (digit_of w) ∙ bit_of-clear_bit_self (w / 2) k

pub bit_of-clear_bit_other : (w k j : ℕ) → k ≢ j → bit_of (clear_bit w k) j ≡ bit_of w j
unfolding clear_bit
bit_of-clear_bit_other w zero zero ne = absurd (ne refl)
bit_of-clear_bit_other w zero (suc j) ne =
    ap (λ n. bit_of n (suc j)) (even (w / 2))
    ∙ bit_of-digit_suc (w / 2) 0 j (omega arith)
    ∙ sym (bit_of-suc w j)
bit_of-clear_bit_other w (suc k) zero ne =
    bit_of-digit_zero (clear_bit (w / 2) k) (w % 2) (digit_of w) ∙ sym (bit_of-zero w)
bit_of-clear_bit_other w (suc k) (suc j) ne =
    bit_of-digit_suc (clear_bit (w / 2) k) (w % 2) j (digit_of w)
    ∙ bit_of-clear_bit_other (w / 2) k j (λ e. ne (ap suc e))
    ∙ sym (bit_of-suc w j)

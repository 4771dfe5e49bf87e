-- ===== src/Printf/Decimal.antt =====
-- printf.c: printint fits in its buffer, and atoi of ulib.c reads what it prints.
use os_2024_project_vm.Base.{
  ℕ, zero, suc, ◌+◌, ◌-◌, ◌*◌, ◌/◌, ◌%◌, ◌^◌, ◌≤◌, ◌<◌, ◌≡◌, ◌≢◌, refl, sym, ap, ◌∙◌, Bool, true,
  false, Option, none, some, arith, ◌==◌, Bool-cases, inl, inr, List, [], ◌∷◌, length,
}
use native.Mathlib.Nat.{pow-suc}
use os_2024_project_vm.Mmu.{uint}
use os_2024_project_vm.Strings.{Bytes}
use os_2024_project_vm.Ulib.{is_digit, atoi_loop, atoi}
use os_2024_project_vm.Printf.{digit_char, push_digits, takes_sign, with_sign, printint}

-- What atoi makes of the digits `cs` after `n`.
abbrev read_digits : List ℕ → ℕ → ℕ
read_digits [] n = n
read_digits (c ∷ cs) n = read_digits cs (uint (n * 10 + c - 48))

abbrev AreDigits : List ℕ → Type 0
AreDigits [] = Unit {0}
AreDigits (c ∷ cs) = (is_digit c ≡ true) × AreDigits cs

-- The bytes `cs` stand at `s`.
abbrev pub StandAt : Bytes → ℕ → List ℕ → Type 0
StandAt m s [] = Unit {0}
StandAt m s (c ∷ cs) = (m s ≡ c) × StandAt m (s + 1) cs

-- The digits of a number below 10 ^ k, in front of `buf`.
abbrev Printed : ℕ → ℕ → List ℕ → Option (List ℕ) → Type 0
Printed k x buf none = ⊥
Printed k x buf (some out) =
    (length out ≤ k + length buf)
    × (length buf < length out)
    × (read_digits out 0 ≡ read_digits buf x)
    × (AreDigits buf → AreDigits out)

digit_value :
    (x n : ℕ) → x < 10 → n * 10 + x < 2 ^ 32 → uint (n * 10 + digit_char x - 48) ≡ n * 10 + x
digit_value x n l h = ground arith

digit_is_digit : (x : ℕ) → x < 10 → is_digit (digit_char x) ≡ true
digit_is_digit x l = ground arith

-- The last digit is pushed.
Printed-next :
    (k x : ℕ) (buf : List ℕ) (o : Option (List ℕ))
    → x < 2 ^ 32
    → Printed k (x / 10) (digit_char (x % 10) ∷ buf) o
    → Printed (suc k) x buf o
Printed-next k x buf none small p = p
Printed-next k x buf (some out) small (short, longer, reads, digits) = (
  omega (arith, short),
  omega (arith, longer),
  reads ∙ ap (read_digits buf) (whole x small),
  λ h. digits (digit_is_digit (x % 10) (omega arith), h),
)
  where
    whole : (x : ℕ) → x < 2 ^ 32 → uint (x / 10 * 10 + digit_char (x % 10) - 48) ≡ x
    whole x small = digit_value (x % 10) (x / 10) (omega arith) (omega arith) ∙ omega arith

Printed-last :
    (k x : ℕ) (buf : List ℕ)
    → x / 10 == 0 ≡ true
    → Printed (suc k) x buf (some (digit_char (x % 10) ∷ buf))
Printed-last k x buf e = (
  omega arith,
  omega arith,
  ap (read_digits buf) (only x e),
  λ h. (digit_is_digit (x % 10) (omega arith), h),
)
  where
    only : (x : ℕ) → x / 10 == 0 ≡ true → uint (0 * 10 + digit_char (x % 10) - 48) ≡ x
    only x e = digit_value (x % 10) 0 (omega arith) (omega arith) ∙ ground arith

below_next : (k x : ℕ) → x < 10 ^ suc k → x / 10 < 10 ^ k
below_next k x lt = omega (arith, pow-suc 10 k, lt)

push_digits-Printed :
    (fuel k x : ℕ) (buf : List ℕ)
    → k ≤ fuel
    → x < 10 ^ k
    → x < 2 ^ 32
    → 0 < k
    → Printed k x buf (push_digits fuel 10 x buf)
unfolding push_digits
push_digits-Printed zero k x buf le lt small positive = absurd (omega arith)
push_digits-Printed (suc fuel) zero x buf le lt small positive = absurd (omega arith)
push_digits-Printed (suc fuel) (suc k) x buf le lt small positive =
    elim (Bool-cases (x / 10 == 0)) [
      | inl e ↦ rw e (Printed-last k x buf e)
      | inr e ↦ rw e (
          Printed-next k x buf (push_digits fuel 10 (x / 10) (digit_char (x % 10) ∷ buf)) small (
            push_digits-Printed fuel k (x / 10) (digit_char (x % 10) ∷ buf) (omega arith)
              (below_next k x lt) (omega arith) (another k x e lt)))
    ]
  where
    another : (k x : ℕ) → x / 10 == 0 ≡ false → x < 10 ^ suc k → 0 < k
    another zero x e lt = absurd (ground (arith, pow-suc 10 0))
    another (suc k) x e lt = omega arith

-- atoi of the bytes `cs`, with a byte behind them that is no digit.
atoi_loop-digits :
    (fuel : ℕ) (m : Bytes) (s n : ℕ) (cs : List ℕ)
    → AreDigits cs
    → StandAt m s cs
    → is_digit (m (s + length cs)) ≡ false
    → length cs < fuel
    → atoi_loop fuel m s n ≡ some (read_digits cs n)
unfolding atoi_loop
atoi_loop-digits zero m s n cs d st stop lt = absurd (omega arith)
atoi_loop-digits (suc fuel) m s n [] d st stop lt = rw (none_left stop) refl
  where
    none_left : is_digit (m (s + 0)) ≡ false → is_digit (m s) ≡ false
    none_left h = ap (λ k. is_digit (m k)) (omega arith) ∙ h
atoi_loop-digits (suc fuel) m s n (c ∷ cs) (d, ds) (at, st) stop lt =
    rw (at, d)
      (atoi_loop-digits fuel m (s + 1) (uint (n * 10 + c - 48)) cs ds st (further stop)
        (omega arith))
  where
    further : is_digit (m (s + suc (length cs))) ≡ false → is_digit (m (s + 1 + length cs)) ≡ false
    further h = ap (λ k. is_digit (m k)) (omega arith) ∙ h

unsigned : (xx : ℕ) → xx < 2 ^ 32 → Printed 10 xx [] (push_digits 32 10 xx [])
unsigned xx lt = push_digits-Printed 32 10 xx [] (omega arith) (omega arith) lt (omega arith)

-- What printint prints of the word `xx` in base 10.
abbrev pub Decimal : ℕ → Bool → Option (List ℕ) → Type 0
Decimal xx sgn none = ⊥
Decimal xx sgn (some out) =
    (length out ≤ 11)
    × (takes_sign xx sgn ≡ false
        → (fuel : ℕ) (m : Bytes) (s : ℕ) → StandAt m s out
        → is_digit (m (s + length out)) ≡ false
        → length out < fuel
        → atoi fuel m s ≡ some xx)

with_sign-Decimal :
    (xx x : ℕ) (sgn neg : Bool) (o : Option (List ℕ))
    → takes_sign xx sgn ≡ neg
    → (neg ≡ false → x ≡ xx)
    → Printed 10 x [] o
    → Decimal xx sgn (with_sign neg o)
unfolding atoi
with_sign-Decimal xx x sgn neg none e same p = elim p [ ]
with_sign-Decimal xx x sgn true (some out) e same (short, longer, reads, digits) =
    (omega (arith, short), λ f. absurd (contradiction (sym e ∙ f)))
  where
    contradiction : true ≢ false
    contradiction h = ground arith
with_sign-Decimal xx x sgn false (some out) e same (short, longer, reads, digits) = (
  omega (arith, short),
  λ f fuel m s st stop lt.
      atoi_loop-digits fuel m s 0 out (digits tt) st stop lt ∙ ap some (reads ∙ same refl),
)

-- printint of a word in base 10 returns, and puts at most 11 bytes into its buffer of 16; if the word is not
-- printed with a sign, atoi of what is printed, with a byte behind it that is no digit, is the word.
pub printint-Decimal : (xx : ℕ) (sgn : Bool) → xx < 2 ^ 32 → Decimal xx sgn (printint xx 10 sgn)
unfolding printint
printint-Decimal xx sgn lt = elim (Bool-cases (takes_sign xx sgn)) [
  | inl e ↦ rw e (
      with_sign-Decimal xx (2 ^ 32 - xx) sgn true (push_digits 32 10 (2 ^ 32 - xx) []) e
        (λ f. absurd (contradiction f)) (unsigned (2 ^ 32 - xx) (negated xx sgn e)))
  | inr e ↦
      rw e
        (with_sign-Decimal xx xx sgn false (push_digits 32 10 xx []) e (λ f. refl) (unsigned xx lt))
]
  where
    contradiction : true ≢ false
    contradiction h = ground arith

    negated : (xx : ℕ) (sgn : Bool) → takes_sign xx sgn ≡ true → 2 ^ 32 - xx < 2 ^ 32
    negated xx sgn e = ground arith

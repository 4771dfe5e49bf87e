-- ===== src/Grep/Pattern.antt =====
-- grep.c: what the patterns mean.
use os_2024_project_vm.Base.{
  ℕ, zero, suc, ◌+◌, ◌<◌, ◌≡◌, ◌≢◌, ◌⊎◌, inl, inr, sym, Bool, true, false, not, ◌&&◌, ◌||◌, Option,
  none, some, arith, ◌==◌,
}
use os_2024_project_vm.Strings.{Bytes}
use os_2024_project_vm.Grep.{dollar, asterisk, dot, caret, or_else}

-- The pattern character `c` stands for the byte `t` of the text.
abbrev pub IsFit : ℕ → ℕ → Type 0
IsFit c t = (t ≢ 0) × ((c ≡ t) ⊎ (c ≡ dot))

-- The pattern at `re` matches a beginning of the text at `text`: its end matches everything; `c*` matches any
-- number of bytes that `c` stands for; a last `$` the end of the text; another character one byte.
pub data Here (m : Bytes) : ℕ → ℕ → Type 0 where
  ends : {re text : ℕ} → m re ≡ 0 → Here m re text
  star :
      {re text : ℕ} (k : ℕ)
      → m re ≢ 0
      → m (re + 1) ≡ asterisk
      → ((i : ℕ) → i < k → IsFit (m re) (m (text + i)))
      → Here m (re + 2) (text + k)
      → Here m re text
  anchor : {re text : ℕ} → m re ≡ dollar → m (re + 1) ≡ 0 → m text ≡ 0 → Here m re text
  byte :
      {re text : ℕ}
      → m re ≢ 0
      → m (re + 1) ≢ asterisk
      → ((m re ≢ dollar) ⊎ (m (re + 1) ≢ 0))
      → IsFit (m re) (m text)
      → Here m (re + 1) (text + 1)
      → Here m re text

pub IsFit-test : (c t : ℕ) → not (t == 0) && ((t == c) || (c == dot)) ≡ true → IsFit c t
IsFit-test c t e = (λ z. ground arith, ground arith)

-- `b` decides `P`; a run out of fuel does not.
abbrev pub Decides : Type 0 → Option Bool → Type 0
Decides P (some true) = P
Decides P (some false) = P → ⊥
Decides P none = ⊥

pub Decides-iff : {P Q : Type 0} (o : Option Bool) → (P → Q) → (Q → P) → Decides P o → Decides Q o
Decides-iff none f g d = elim d [ ]
Decides-iff (some true) f g d = f d
Decides-iff (some false) f g d = λ q. d (g q)

-- The first of two ways, or else the second.
pub Decides-or :
    {P Q R : Type 0} (o r : Option Bool)
    → (P → R)
    → (Q → R)
    → ((P → ⊥) → R → Q)
    → Decides P o
    → Decides Q r
    → Decides R (or_else o r)
Decides-or none r f g h d e = elim d [ ]
Decides-or (some true) r f g h d e = f d
Decides-or (some false) r f g h d e = Decides-iff r g (h d) e

-- Some bytes that satisfy `Q`, and then `P`.
abbrev pub After : Bytes → (ℕ → Type 0) → (ℕ → Type 0) → ℕ → Type 0
After m Q P text = (k : ℕ) × ((i : ℕ) → i < k → Q (m (text + i))) × P (text + k)

module _ (m : Bytes) (Q P : ℕ → Type 0) (text : ℕ) where
  stays : text + 0 ≡ text
  stays = omega arith

  moves : (i : ℕ) → text + suc i ≡ text + 1 + i
  moves i = omega arith

  pub After-none : P text → After m Q P text
  After-none p = (0, λ i l. absurd (omega arith), rw stays p)

  pub After-more : Q (m text) → After m Q P (text + 1) → After m Q P text
  After-more q (k, all, p) = (suc k, all', rw (moves k) p)
    where
      all' : (i : ℕ) → i < suc k → Q (m (text + i))
      all' zero lt = rw stays q
      all' (suc i) lt = rw (moves i) (all i (omega arith))

  pub After-less : (P text → ⊥) → After m Q P text → Q (m text) × After m Q P (text + 1)
  After-less ne (zero, all, p) = absurd (ne (rw (sym stays) p))
  After-less ne (suc k, all, p) = (
    rw (sym stays) (all 0 (omega arith)),
    (k, λ i lt. rw (sym (moves i)) (all (suc i) (omega arith)), rw (sym (moves k)) p),
  )

-- The four shapes of a pattern.
pub Here-star :
    (m : Bytes) (re text : ℕ)
    → m re ≢ 0
    → m (re + 1) ≡ asterisk
    → Here m re text
    → After m (IsFit (m re)) (Here m (re + 2)) text
Here-star m re text ne st (ends z) = absurd (ne z)
Here-star m re text ne st (star k a b fits rest) = (k, fits, rest)
Here-star m re text ne st (anchor a z e) = absurd (omega (arith, z, st))
Here-star m re text ne st (byte a other b fit rest) = absurd (other st)

pub Here-anchor :
    (m : Bytes) (re text : ℕ) → m re ≡ dollar → m (re + 1) ≡ 0 → Here m re text → m text ≡ 0
Here-anchor m re text d z (ends e) = absurd (omega (arith, d, e))
Here-anchor m re text d z (star k a st fits rest) = absurd (omega (arith, z, st))
Here-anchor m re text d z (anchor a b e) = e
Here-anchor m re text d z (byte a b (inl c) fit rest) = absurd (c d)
Here-anchor m re text d z (byte a b (inr c) fit rest) = absurd (c z)

pub Here-byte :
    (m : Bytes) (re text : ℕ)
    → m re ≢ 0
    → m (re + 1) ≢ asterisk
    → ((m re ≢ dollar) ⊎ (m (re + 1) ≢ 0))
    → Here m re text
    → IsFit (m re) (m text) × Here m (re + 1) (text + 1)
Here-byte m re text ne st d (ends z) = absurd (ne z)
Here-byte m re text ne st d (star k a b fits rest) = absurd (st b)
Here-byte m re text ne st (inl d) (anchor a z e) = absurd (d a)
Here-byte m re text ne st (inr d) (anchor a z e) = absurd (d z)
Here-byte m re text ne st d (byte a b c fit rest) = (fit, rest)

-- What a pattern means for a text: after ^ a match at its start, else a match at some place up to its end.
abbrev pub Matches : Bytes → ℕ → ℕ → Type 0
Matches m re text =
    ((m re ≡ caret) × Here m (re + 1) text)
    ⊎ ((m re ≢ caret) × After m (λ t. t ≢ 0) (Here m re) text)

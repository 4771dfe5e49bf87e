-- ===== src/Grep/Decide.antt =====
-- grep.c: the matcher decides whether a pattern matches.
use os_2024_project_vm.Base.{
  ℕ, zero, suc, ◌+◌, ◌≤◌, ◌<◌, ◌≡◌, ◌≢◌, ◌⊎◌, inl, inr, Bool, true, false, not, ◌&&◌, ◌||◌, Option,
  some, arith, ◌==◌, Bool-cases, if◌then◌else◌,
}
use os_2024_project_vm.Strings.{Bytes}
use os_2024_project_vm.Strings.Length.{before_zero}
use os_2024_project_vm.Grep.{
  dollar, asterisk, dot, caret, matchstar, matchhere, match_loop, match_at,
}
use os_2024_project_vm.Grep.Pattern.{
  IsFit, Here, ends, star, anchor, byte, Decides, Decides-iff, Decides-or, IsFit-test, After,
  After-none, After-more, After-less, Here-star, Here-anchor, Here-byte, Matches,
}

-- matchstar decides whether some bytes that `c` stands for lead to `P`, if `here` decides `P` up to the end
-- of the text at `et`.
matchstar-Decides :
    (m : Bytes) (P : ℕ → Type 0) (here : ℕ → Option Bool) (fuel c text et : ℕ)
    → m et ≡ 0
    → text ≤ et
    → et < text + fuel
    → ((t : ℕ) → text ≤ t → t ≤ et → Decides (P t) (here t))
    → Decides (After m (IsFit c) P text) (matchstar m fuel here c text)
unfolding matchstar
matchstar-Decides m P here zero c text et z le lt h = absurd (omega arith)
matchstar-Decides m P here (suc fuel) c text et z le lt h =
    Decides-or (here text)
      (if not (m text == 0) && ((m text == c) || (c == dot))
        then matchstar m fuel here c (text + 1)
        else some false)
      (After-none m (IsFit c) P text) (λ (fit, more). After-more m (IsFit c) P text fit more)
      (After-less m (IsFit c) P text) (h text (omega arith) le)
      (elim (Bool-cases (not (m text == 0) && ((m text == c) || (c == dot)))) [
        | inr e ↦ rw e (λ (fit, more). ground arith)
        | inl e ↦ rw e (
            Decides-iff (matchstar m fuel here c (text + 1))
              (λ more. (IsFit-test c (m text) e, more)) (λ p. p.1)
              (matchstar-Decides m P here fuel c (text + 1) et z
                (before_zero m text et (IsFit-test c (m text) e).0 z le) (omega arith)
                (λ t l g. h t (omega arith) g)))
      ])

anchor-Decides :
    (m : Bytes) (re text : ℕ)
    → (m re == dollar) && (m (re + 1) == 0) ≡ true
    → Decides (Here m re text) (some (m text == 0))
anchor-Decides m re text e = elim (Bool-cases (m text == 0)) [
  | inl f ↦ rw f (anchor (is_dollar m re e) (is_last m re e) (ground arith))
  | inr f ↦ rw f (λ h. not_at (Here-anchor m re text (is_dollar m re e) (is_last m re e) h) f)
]
  where
    is_dollar : (m : Bytes) (re : ℕ) → (m re == dollar) && (m (re + 1) == 0) ≡ true → m re ≡ dollar
    is_dollar m re e = ground arith

    is_last : (m : Bytes) (re : ℕ) → (m re == dollar) && (m (re + 1) == 0) ≡ true → m (re + 1) ≡ 0
    is_last m re e = ground arith

    not_at : {t : ℕ} → t ≡ 0 → (t == 0) ≡ false → ⊥
    not_at z f = ground arith

byte-Decides :
    (m : Bytes) (re text : ℕ) (next : Option Bool)
    → m re ≢ 0
    → m (re + 1) ≢ asterisk
    → (m re == dollar) && (m (re + 1) == 0) ≡ false
    → (not (m text == 0) && ((m re == dot) || (m re == m text)) ≡ true
        → Decides (Here m (re + 1) (text + 1)) next)
    → Decides
        (Here m re text)
        (if not (m text == 0) && ((m re == dot) || (m re == m text)) then next else some false)
byte-Decides m re text next ne st d h =
    elim (Bool-cases (not (m text == 0) && ((m re == dot) || (m re == m text)))) [
      | inl e ↦ rw e (
          Decides-iff next (λ rest. byte ne st (no_anchor m re d) (fits (m re) (m text) e) rest)
            (λ here. (Here-byte m re text ne st (no_anchor m re d) here).1) (h e))
      | inr e ↦
          rw e
            (λ here. unfit (m re) (m text) e (Here-byte m re text ne st (no_anchor m re d) here).0)
    ]
  where
    no_anchor :
        (m : Bytes) (re : ℕ)
        → (m re == dollar) && (m (re + 1) == 0) ≡ false
        → (m re ≢ dollar) ⊎ (m (re + 1) ≢ 0)
    no_anchor m re d = ground arith

    fits : (c t : ℕ) → not (t == 0) && ((c == dot) || (c == t)) ≡ true → IsFit c t
    fits c t e = (λ z. ground arith, ground arith)

    unfit : (c t : ℕ) → not (t == 0) && ((c == dot) || (c == t)) ≡ false → IsFit c t → ⊥
    unfit c t e (n, f) = ground arith

star-Decides :
    (m : Bytes) (fuel re text er et : ℕ)
    → m re ≢ 0
    → m (re + 1) ≡ asterisk
    → m er ≡ 0
    → re ≤ er
    → m et ≡ 0
    → text ≤ et
    → er + et < re + text + suc fuel
    → (re + 2 ≤ er
        → (t : ℕ) → text ≤ t
        → t ≤ et
        → Decides (Here m (re + 2) t) (matchhere m fuel (re + 2) t))
    → Decides (Here m re text) (matchstar m fuel (matchhere m fuel (re + 2)) (m re) text)
star-Decides m fuel re text er et ne st zr lr zt lt enough h =
    let two =
      before_zero m (re + 1) er (λ z. absurd (omega (arith, st, z))) zr
        (before_zero m re er ne zr lr) in
    Decides-iff (matchstar m fuel (matchhere m fuel (re + 2)) (m re) text)
      (λ (k, fits, rest). star k ne st fits rest) (Here-star m re text ne st)
      (matchstar-Decides m (Here m (re + 2)) (matchhere m fuel (re + 2)) fuel (m re) text et zt lt
        (omega (arith, two)) (h (omega (arith, two))))

matchhere-Decides :
    (m : Bytes) (fuel re text er et : ℕ)
    → m er ≡ 0
    → re ≤ er
    → m et ≡ 0
    → text ≤ et
    → er + et < re + text + fuel
    → Decides (Here m re text) (matchhere m fuel re text)
unfolding matchhere
matchhere-Decides m zero re text er et zr lr zt lt enough = absurd (omega arith)
matchhere-Decides m (suc fuel) re text er et zr lr zt lt enough = elim (Bool-cases (m re == 0)) [
  | inl e ↦ rw e (ends (ground arith))
  | inr e ↦ elim (Bool-cases (m (re + 1) == asterisk)) [
    | inl f ↦
        rw (e, f)
          (star-Decides m fuel re text er et (nonzero (m re) e) (is_star (m (re + 1)) f) zr lr zt lt
            enough
            (λ two t l g. matchhere-Decides m fuel (re + 2) t er et zr two zt g (omega arith)))
    | inr f ↦ elim (Bool-cases ((m re == dollar) && (m (re + 1) == 0))) [
      | inl g ↦ rw (e, f, g) (anchor-Decides m re text g)
      | inr g ↦
          rw (e, f, g)
            (byte-Decides m re text (matchhere m fuel (re + 1) (text + 1)) (nonzero (m re) e)
              (no_star (m (re + 1)) f) g
              (λ h.
                matchhere-Decides m fuel (re + 1) (text + 1) er et zr
                  (before_zero m re er (nonzero (m re) e) zr lr) zt
                  (before_zero m text et (in_text h) zt lt) (omega arith)))
    ]
  ]
]
  where
    nonzero : (c : ℕ) → (c == 0) ≡ false → c ≢ 0
    nonzero c e z = ground arith

    is_star : (c : ℕ) → (c == asterisk) ≡ true → c ≡ asterisk
    is_star c f = ground arith

    no_star : (c : ℕ) → (c == asterisk) ≡ false → c ≢ asterisk
    no_star c f h = ground arith

    in_text : not (m text == 0) && ((m re == dot) || (m re == m text)) ≡ true → m text ≢ 0
    in_text h z = ground arith

match_loop-Decides :
    (m : Bytes) (rounds fuel re text er et : ℕ)
    → m er ≡ 0
    → re ≤ er
    → m et ≡ 0
    → text ≤ et
    → er + et < re + text + fuel
    → et < text + rounds
    → Decides (After m (λ t. t ≢ 0) (Here m re) text) (match_loop m rounds fuel re text)
unfolding match_loop
match_loop-Decides m zero fuel re text er et zr lr zt lt enough more = absurd (omega arith)
match_loop-Decides m (suc rounds) fuel re text er et zr lr zt lt enough more =
    Decides-or (matchhere m fuel re text)
      (if not (m text == 0) then match_loop m rounds fuel re (text + 1) else some false)
      (After-none m (λ t. t ≢ 0) (Here m re) text)
      (λ (ne, later). After-more m (λ t. t ≢ 0) (Here m re) text ne later)
      (After-less m (λ t. t ≢ 0) (Here m re) text)
      (matchhere-Decides m fuel re text er et zr lr zt lt enough)
      (elim (Bool-cases (m text == 0)) [
        | inl e ↦ rw e (λ (ne, later). ne (is_end (m text) e))
        | inr e ↦ rw e (
            Decides-iff (match_loop m rounds fuel re (text + 1))
              (λ later. (is_byte (m text) e, later)) (λ p. p.1)
              (match_loop-Decides m rounds fuel re (text + 1) er et zr lr zt
                (before_zero m text et (is_byte (m text) e) zt lt) (omega arith) (omega arith)))
      ])
  where
    is_end : (t : ℕ) → (t == 0) ≡ true → t ≡ 0
    is_end t e = ground arith

    is_byte : (t : ℕ) → (t == 0) ≡ false → t ≢ 0
    is_byte t e z = ground arith

-- With more fuel than the pattern and the text have bytes together, match returns, and its result is 1 if
-- and only if the pattern matches the text.
pub match_at-Matches :
    (m : Bytes) (fuel re text er et : ℕ)
    → m er ≡ 0
    → re ≤ er
    → m et ≡ 0
    → text ≤ et
    → er + et < re + text + fuel
    → Decides (Matches m re text) (match_at m fuel re text)
unfolding match_at
match_at-Matches m fuel re text er et zr lr zt lt enough = elim (Bool-cases (m re == caret)) [
  | inl e ↦ rw e (
      Decides-iff (matchhere m fuel (re + 1) text) (λ here. inl (is_caret (m re) e, here))
        (only_here (is_caret (m re) e))
        (matchhere-Decides m fuel (re + 1) text er et zr
          (before_zero m re er (λ z. absurd (omega (arith, is_caret (m re) e, z))) zr lr) zt lt
          (omega arith)))
  | inr e ↦ rw e (
      Decides-iff (match_loop m fuel fuel re text) (λ later. inr (not_caret (m re) e, later))
        (only_after (not_caret (m re) e))
        (match_loop-Decides m fuel fuel re text er et zr lr zt lt enough (omega arith)))
]
  where
    is_caret : (c : ℕ) → (c == caret) ≡ true → c ≡ caret
    is_caret c e = ground arith

    not_caret : (c : ℕ) → (c == caret) ≡ false → c ≢ caret
    not_caret c e h = ground arith

    only_here : m re ≡ caret → Matches m re text → Here m (re + 1) text
    only_here e (inl (f, here)) = here
    only_here e (inr (ne, later)) = absurd (ne e)

    only_after : m re ≢ caret → Matches m re text → After m (λ t. t ≢ 0) (Here m re) text
    only_after ne (inl (f, here)) = absurd (ne f)
    only_after ne (inr (f, later)) = later

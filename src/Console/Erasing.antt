-- ===== src/Console/Erasing.antt =====
-- console.c: erasing bytes of the line keeps the queue of the input.
use os_2024_project_vm.Base.{
  ℕ, zero, suc, ◌+◌, ◌-◌, ◌%◌, ◌^◌, ◌≤◌, ◌<◌, ◌≡◌, refl, sym, ap, ◌∙◌, inl, inr, true, false, not,
  ltb, ltb→lt, ◌==◌, ==_ne, length, get_or, take, arith, Bool-cases,
}
use mathlib.Core.Path.{subst}
use os_2024_project_vm.Mmu.{uint}
use os_2024_project_vm.Console.{
  Input, input_buf, sub_uint, newline, consputc, erase, kill_line, erase_one,
}
use os_2024_project_vm.Console.Queue.{
  Queue, take_back, Holds, length-take_le, get_or-take, take-all, take-take,
}

-- The indices, for a count `n` of bytes read.
same_index : (n k l : ℕ) → k ≤ l → l ≤ 128 → ((n + l) % 2 ^ 32 == (n + k) % 2 ^ 32) ≡ not (ltb k l)
same_index n k l le m = ground arith

pub distance : (n l : ℕ) → l ≤ 128 → sub_uint ((n + l) % 2 ^ 32) (n % 2 ^ 32) ≡ l
distance n l le = omega arith

before : (n l : ℕ) → 0 < l → sub_uint ((n + l) % 2 ^ 32) 1 ≡ (n + (l - 1)) % 2 ^ 32
before n l lt = omega arith

pub after : (n l : ℕ) → uint ((n + l) % 2 ^ 32 + 1) ≡ (n + (l + 1)) % 2 ^ 32
after n l = omega arith

pub slot : (n l : ℕ) → (n + l) % 2 ^ 32 % input_buf ≡ (n + l) % input_buf
slot n l = omega arith

pub other_slot :
    (n i l : ℕ) → i < l → l < 128 → ((n + l) % input_buf == (n + i) % input_buf) ≡ false
other_slot n i l lt le = ground arith

pub full_test :
    (n l : ℕ) → l ≤ 128 → ((n + l) % 2 ^ 32 == uint (n % 2 ^ 32 + input_buf)) ≡ (l == input_buf)
full_test n l le = ground arith

erase-Holds :
    (n : ℕ) (q : Queue) (s : Input)
    → q.ready < length q.bytes
    → Holds n q s
    → Holds n (record q { bytes = take (length q.bytes - 1) q.bytes }) (erase s)
unfolding erase consputc
erase-Holds n q s lt (ready, fits, r, w, e, bytes, line) =
    let len = length-take_le (length q.bytes - 1) q.bytes (omega arith) in
    rw len (
      omega arith,
      omega arith,
      r,
      w,
      ap (λ k. sub_uint k 1) e ∙ before n (length q.bytes) (omega arith),
      λ i l. bytes i (omega arith) ∙ sym (get_or-take (length q.bytes - 1) q.bytes i l),
      λ i m l. rw (get_or-take (length q.bytes - 1) q.bytes i l) (line i m (omega arith)),
    )

-- What the tests of the loops see.
e-w :
    (n : ℕ) (q : Queue) (s : Input)
    → Holds n q s
    → (s.e == s.w) ≡ not (ltb q.ready (length q.bytes))
e-w n q s (ready, fits, r, w, e, bytes, line) =
    rw (w, e) (same_index n q.ready (length q.bytes) ready fits)

last-newline :
    (n : ℕ) (q : Queue) (s : Input)
    → q.ready < length q.bytes
    → Holds n q s
    → (s.buf (sub_uint s.e 1 % input_buf) == newline) ≡ false
last-newline n q s lt (ready, fits, r, w, e, bytes, line) =
    rw
      (
        e,
        before n (length q.bytes) (omega arith),
        slot n (length q.bytes - 1),
        bytes (length q.bytes - 1) (omega arith),
      )
      (==_ne (get_or q.bytes (length q.bytes - 1) 0) newline
        (line (length q.bytes - 1) (omega arith) (omega arith)))

kill_line-round :
    (rounds : ℕ) (s : Input)
    → (s.e == s.w) ≡ false
    → (s.buf (sub_uint s.e 1 % input_buf) == newline) ≡ false
    → kill_line (suc rounds) s ≡ kill_line rounds (erase s)
unfolding kill_line
kill_line-round rounds s e f = rw (kill_line, e, f) refl

kill_line-end : (rounds : ℕ) (s : Input) → (s.e == s.w) ≡ true → kill_line rounds s ≡ s
unfolding kill_line
kill_line-end zero s e = refl
kill_line-end (suc rounds) s e = rw (kill_line, e) refl

-- The killed line is empty.
abbrev killed : Queue → Queue
killed q = record q { bytes = take q.ready q.bytes }

-- The same queue and the same state.
Holds-at : (n : ℕ) (q q' : Queue) (s s' : Input) → q ≡ q' → s ≡ s' → Holds n q s → Holds n q' s'
Holds-at n q q' s s' a b h = subst (λ x. Holds n x s') a (subst (λ x. Holds n q x) b h)

killed-none : (q : Queue) → q.ready ≡ length q.bytes → killed q ≡ q
killed-none q e = ap (λ xs. record q { bytes = xs }) (ap (λ k. take k q.bytes) e ∙ take-all q.bytes)

pub kill_line-Holds :
    (rounds n : ℕ) (q : Queue) (s : Input)
    → length q.bytes ≤ q.ready + rounds
    → Holds n q s
    → Holds n (killed q) (kill_line rounds s)
kill_line-Holds zero n q s enough h =
    Holds-at n q (killed q) s (kill_line 0 s)
      (sym (killed-none q (reached q.ready (length q.bytes) h.0 enough)))
      (sym (kill_line-end 0 s (e-w n q s h ∙ no_more q.ready (length q.bytes) enough))) h
  where
    no_more : (k l : ℕ) → l ≤ k + 0 → not (ltb k l) ≡ true
    no_more k l le = ground arith

    reached : (k l : ℕ) → k ≤ l → l ≤ k + 0 → k ≡ l
    reached k l le m = omega arith
kill_line-Holds (suc rounds) n q s enough h = elim (Bool-cases (ltb q.ready (length q.bytes))) [
  | inr f ↦
      Holds-at n q (killed q) s (kill_line (suc rounds) s)
        (sym (killed-none q (reached q.ready (length q.bytes) h.0 f)))
        (sym (kill_line-end (suc rounds) s (e-w n q s h ∙ ap not f))) h
  | inl f ↦
      let lt = ltb→lt q.ready (length q.bytes) f in
      let len = length-take_le (length q.bytes - 1) q.bytes (omega arith) in
      let shorter = record q { bytes = take (length q.bytes - 1) q.bytes } in
      Holds-at n (killed shorter) (killed q) (kill_line rounds (erase s)) (kill_line (suc rounds) s)
        (ap (λ xs. record q { bytes = xs })
          (take-take q.ready (length q.bytes - 1) q.bytes (omega (arith, lt))))
        (sym (kill_line-round rounds s (e-w n q s h ∙ ap not f) (last-newline n q s lt h)))
        (kill_line-Holds rounds n (record q { bytes = take (length q.bytes - 1) q.bytes }) (erase s)
          (omega (arith, len, enough)) (erase-Holds n q s lt h))
]
  where
    reached : (k l : ℕ) → k ≤ l → ltb k l ≡ false → k ≡ l
    reached k l le f = ground arith

pub erase_one-Holds :
    (n : ℕ) (q : Queue) (s : Input) → Holds n q s → Holds n (take_back q) (erase_one s)
unfolding take_back erase_one
erase_one-Holds n q s h = elim (Bool-cases (ltb q.ready (length q.bytes))) [
  | inl f ↦ rw (f, e-w n q s h ∙ ap not f) (erase-Holds n q s (ltb→lt q.ready (length q.bytes) f) h)
  | inr f ↦ rw (f, e-w n q s h ∙ ap not f) h
]

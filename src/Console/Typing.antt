-- ===== src/Console/Typing.antt =====
-- console.c: consoleintr keeps the queue of the input.
use os_2024_project_vm.Base.{
  ℕ, ◌+◌, ◌%◌, ◌≤◌, ◌<◌, ◌≡◌, ◌≢◌, refl, sym, ◌∙◌, inl, inr, Bool, true, false, not, ◌&&◌, ◌||◌,
  ltb, ◌==◌, ==_refl, if◌then◌else◌, List, [], ◌∷◌, ◌++◌, length, get_or, arith, Bool-cases,
}
use os_2024_project_vm.Memory.{update}
use os_2024_project_vm.Mmu.{uint}
use os_2024_project_vm.Console.{
  Input, input_buf, sub_uint, ctrl_p, ctrl_u, ctrl_h, ctrl_d, newline, consputc, finish, store_char,
  insert_char, typed,
}
use os_2024_project_vm.Console.Queue.{
  Queue, push, type_byte, Holds, length-push, get_or-push_old, get_or-push_new,
}
use os_2024_project_vm.Console.Erasing.{
  kill_line-Holds, erase_one-Holds, after, slot, other_slot, full_test, distance,
}

-- The bytes and the indices after a byte is stored, before the line may be finished.
stored-bytes :
    (n : ℕ) (xs : List ℕ) (buf : ℕ → ℕ) (c : ℕ)
    → length xs < input_buf
    → ((i : ℕ) → i < length xs → buf ((n + i) % input_buf) ≡ get_or xs i 0)
    → (i : ℕ) → i < length xs + 1
    → update buf ((n + length xs) % input_buf) c ((n + i) % input_buf) ≡ get_or (xs ++ (c ∷ [])) i 0
stored-bytes n xs buf c room bytes i lt = elim (Bool-cases (i == length xs)) [
  | inl e ↦
      rw (same i (length xs) e, ==_refl ((n + length xs) % input_buf)) (sym (get_or-push_new xs c))
  | inr e ↦
      rw (other_slot n i (length xs) (below i (length xs) e lt) room) (
        bytes i (below i (length xs) e lt)
        ∙ sym (get_or-push_old xs c i (below i (length xs) e lt)))
]
  where
    same : (i l : ℕ) → i == l ≡ true → i ≡ l
    same i l e = ground arith

    below : (i l : ℕ) → i == l ≡ false → i < l + 1 → i < l
    below i l e lt = ground arith

abbrev stored : ℕ → Input → Input
stored c s =
    consputc c (record s { buf = update s.buf (s.e % input_buf) (c % 256); e = uint (s.e + 1) })

-- The line goes on.
goes_on-Holds :
    (n c : ℕ) (q : Queue) (s : Input)
    → c < 256
    → c ≢ newline
    → length q.bytes < input_buf
    → Holds n q s
    → Holds n (record { bytes = q.bytes ++ (c ∷ []); ready = q.ready }) (stored c s)
unfolding consputc
goes_on-Holds n c q s byte no_end room (ready, fits, r, w, e, bytes, line) =
    rw (length-push q.bytes c, e, slot n (length q.bytes), small c byte)
      (
        omega arith,
        omega arith,
        r,
        w,
        after n (length q.bytes),
        stored-bytes n q.bytes s.buf c room bytes,
        λ i m l. elim (Bool-cases (i == length q.bytes)) [
          | inl f ↦ rw (same i (length q.bytes) f, get_or-push_new q.bytes c) no_end
          | inr f ↦
              rw (get_or-push_old q.bytes c i (below i (length q.bytes) f l))
                (line i m (below i (length q.bytes) f l))
        ],
      )
  where
    small : (c : ℕ) → c < 256 → c % 256 ≡ c
    small c lt = omega arith

    same : (i l : ℕ) → i == l ≡ true → i ≡ l
    same i l e = ground arith

    below : (i l : ℕ) → i == l ≡ false → i < l + 1 → i < l
    below i l e lt = ground arith

-- The line is finished.
finished-Holds :
    (n c : ℕ) (q : Queue) (s : Input)
    → c < 256
    → length q.bytes < input_buf
    → Holds n q s
    → Holds n
        (record { bytes = q.bytes ++ (c ∷ []); ready = length (q.bytes ++ (c ∷ [])) })
        (record (stored c s) { w = (stored c s).e; woken = s.woken + 1 })
unfolding consputc
finished-Holds n c q s byte room (ready, fits, r, w, e, bytes, line) =
    rw (length-push q.bytes c, e, slot n (length q.bytes), small c byte)
      (
        omega arith,
        omega arith,
        r,
        after n (length q.bytes),
        after n (length q.bytes),
        stored-bytes n q.bytes s.buf c room bytes,
        λ i m l. absurd (omega arith),
      )
  where
    small : (c : ℕ) → c < 256 → c % 256 ≡ c
    small c lt = omega arith

abbrev ends_line : ℕ → Queue → Bool
ends_line c q = (c == newline) || (c == ctrl_d) || (length q.bytes + 1 == input_buf)

-- The test of the code is that one.
finish-test :
    (n c : ℕ) (q : Queue) (s : Input)
    → length q.bytes < input_buf
    → Holds n q s
    → ((c == newline) || (c == ctrl_d) || (uint (s.e + 1) == uint (s.r + input_buf)))
      ≡ ends_line c q
finish-test n c q s room (ready, fits, r, w, e, bytes, line) =
    rw (r, e, after n (length q.bytes), full_test n (length q.bytes + 1) (omega arith)) refl

store_char-Holds :
    (n c : ℕ) (q : Queue) (s : Input)
    → c < 256
    → length q.bytes < input_buf
    → Holds n q s
    → Holds n (push c q) (store_char c s)
unfolding push store_char finish consputc
store_char-Holds n c q s byte room h = elim (Bool-cases (ends_line c q)) [
  | inl f ↦ rw (f, finish-test n c q s room h ∙ f) (finished-Holds n c q s byte room h)
  | inr f ↦
      rw (f, finish-test n c q s room h ∙ f) (goes_on-Holds n c q s byte (no_newline c q f) room h)
]
  where
    no_newline : (c : ℕ) (q : Queue) → ends_line c q ≡ false → c ≢ newline
    no_newline c q f e = ground arith

insert_char-room : (n : ℕ) (q : Queue) (s : Input) → Holds n q s → sub_uint s.e s.r ≡ length q.bytes
insert_char-room n q s (ready, fits, r, w, e, bytes, line) =
    rw (r, e) (distance n (length q.bytes) fits)

-- A byte that is typed does to the input what it does to the queue: the indices of the code, which wrap
-- around, and its ring of 128 bytes hold the queue after it.
pub typed-Holds :
    (n c : ℕ) (q : Queue) (s : Input) → c < 256 → Holds n q s → Holds n (type_byte c q) (typed c s)
unfolding type_byte typed insert_char
typed-Holds n c q s byte h = elim (Bool-cases (c == ctrl_p)) [
  | inl f ↦ rw f h
  | inr f ↦ elim (Bool-cases (c == ctrl_u)) [
    | inl g ↦ rw (f, g) (kill_line-Holds input_buf n q s (enough h.1) h)
    | inr g ↦ elim (Bool-cases ((c == ctrl_h) || (c == 0x7f))) [
      | inl k ↦ rw (f, g, k) (erase_one-Holds n q s h)
      | inr k ↦ elim (Bool-cases (not (c == 0) && ltb (length q.bytes) input_buf)) [
        | inl m ↦
            rw (f, g, k, insert_char-room n q s h, m)
              (store_char-Holds n (if c == 13 then newline else c) q s (small c byte) (has_room m)
                h)
        | inr m ↦ rw (f, g, k, insert_char-room n q s h, m) h
      ]
    ]
  ]
]
  where
    enough : length q.bytes ≤ input_buf → length q.bytes ≤ q.ready + input_buf
    enough l = omega arith

    small : (c : ℕ) → c < 256 → (if c == 13 then newline else c) < 256
    small c l = ground arith

    has_room : not (c == 0) && ltb (length q.bytes) input_buf ≡ true → length q.bytes < input_buf
    has_room m = ground arith

-- ===== src/Pipe/Transfer.antt =====
-- What the loops of pipewrite and piperead move.
use mathlib.Core.List.{append-nil, append_assoc}
use os_2024_project_vm.Base.{
  ℕ, zero, suc, ◌+◌, ◌%◌, min, ◌≡◌, ◌≢◌, refl, ap, sym, ◌∙◌, ◌⊎◌, inl, inr, Bool, true, false, not,
  ◌||◌, none, some, List, [], ◌∷◌, ◌++◌, arith, length, ◌==◌, if◌then◌else◌, Bool-cases, ==_iff,
}
use os_2024_project_vm.Mmu.{uint}
use os_2024_project_vm.Pipe.{
  Pipe, Left, returned, asleep, on_nwrite, pipesize, put_byte, is_full, write_full, write_loop,
  read_loop,
}
use os_2024_project_vm.Pipe.Ring.{
  count, IsValid, window-mod, contents, put_byte-IsValid, contents-put_byte,
}

abbrev pub SameEnds : Pipe → Pipe → Type 0
SameEnds p q =
    (q.readopen ≡ p.readopen)
    × (q.writeopen ≡ p.writeopen)
    × (q.locked ≡ p.locked)
    × (q.freed ≡ p.freed)

-- The bytes `sent` are in the ring and `rest` is left; why the loop stopped.
pub record Wrote (killed : Bool) (n : ℕ) (bs : List ℕ) (p q : Pipe) (left : Left) : Type 0 where
  pub sent : List ℕ
  pub rest : List ℕ
  pub split : sent ++ rest ≡ bs
  pub held : contents q ≡ contents p ++ sent
  pub valid : IsValid q
  pub ends : SameEnds p q
  pub why :
      ((rest ≡ []) × (left ≡ returned (some n)))
      ⊎ ((rest ≢ [])
          × (is_full q ≡ true)
          × (left ≡ (if not p.readopen || killed then returned none else asleep on_nwrite rest)))

write_full-Wrote :
    (killed : Bool) (n b : ℕ) (bs : List ℕ) (p : Pipe)
    → IsValid p
    → is_full p ≡ true
    → let (q, left) = write_full killed (b ∷ bs) p in Wrote killed n (b ∷ bs) p q left
unfolding write_full is_full
write_full-Wrote killed n b bs p v full = elim (Bool-cases (not p.readopen || killed)) [
  | inl broken ↦ rw broken (record {
    sent = [];
    rest = b ∷ bs;
    split = refl;
    held = sym (append-nil (contents p));
    valid = v;
    ends = (refl, refl, refl, refl);
    why = inr (λ e. cc, full, rw broken);
  })
  | inr sleeps ↦ rw sleeps (record {
    sent = [];
    rest = b ∷ bs;
    split = refl;
    held = sym (append-nil (contents p));
    valid = record { nread_in = v.nread_in; nwrite_in = v.nwrite_in; fits = v.fits };
    ends = (refl, refl, refl, refl);
    why = inr (λ e. cc, full, rw sleeps);
  })
]

put_byte-Wrote :
    (killed : Bool) (n b : ℕ) (bs : List ℕ) (p q : Pipe) (left : Left)
    → IsValid p
    → is_full p ≡ false
    → Wrote killed n bs (put_byte b p) q left
    → Wrote killed n (b ∷ bs) p q left
unfolding put_byte
put_byte-Wrote killed n b bs p q left v room w = record {
  sent = b ∷ w.sent;
  rest = w.rest;
  split = ap (◌∷◌ b) w.split;
  held =
      w.held
      ∙ ap (λ (l : List ℕ). l ++ w.sent) (contents-put_byte p b v room)
      ∙ append_assoc (contents p) (b ∷ []) w.sent;
  valid = w.valid;
  ends = w.ends;
  why = w.why;
}

pub write_loop-Wrote :
    (killed : Bool) (n : ℕ) (bs : List ℕ) (p : Pipe)
    → IsValid p
    → let (q, left) = write_loop killed n bs p in Wrote killed n bs p q left
unfolding write_loop
write_loop-Wrote killed n [] p v = record {
  sent = [];
  rest = [];
  split = refl;
  held = sym (append-nil (contents p));
  valid = record { nread_in = v.nread_in; nwrite_in = v.nwrite_in; fits = v.fits };
  ends = (refl, refl, refl, refl);
  why = inl (refl, refl);
}
write_loop-Wrote killed n (b ∷ bs) p v = elim (Bool-cases (is_full p)) [
  | inl full ↦ rw full (write_full-Wrote killed n b bs p v full)
  | inr room ↦ rw room (
      put_byte-Wrote killed n b bs p _ _ v room
        (write_loop-Wrote killed n bs (put_byte b p) (put_byte-IsValid p b v room)))
]

-- The state after one byte is taken.
abbrev taken : Pipe → Pipe
taken p = record p { nread = uint (p.nread + 1) }

taken_lem :
    (p : Pipe)
    → IsValid p
    → (p.nread == p.nwrite) ≡ false
    → IsValid (taken p)
      × (count p ≡ suc (count (taken p)))
      × (contents p ≡ p.bytes (p.nread % pipesize) ∷ contents (taken p))
taken_lem p v h = (
  ground arith,
  fewer,
  rw fewer (
      ap (◌∷◌ (p.bytes (p.nread % pipesize)))
        (window-mod p.bytes (p.nread + 1) (uint (p.nread + 1)) (count (taken p)) (omega arith))),
)
  where
    fewer : count p ≡ suc (count (taken p))
    fewer = ground arith

-- The bytes come from the front.
pub read_loop_lem :
    (n : ℕ) (p : Pipe)
    → IsValid p
    → let (q, bs) = read_loop n p in
      (contents p ≡ bs ++ contents q) × (length bs ≡ min n (count p)) × IsValid q × SameEnds p q
unfolding read_loop
read_loop_lem zero p v = (refl, omega arith, v, (refl, refl, refl, refl))
read_loop_lem (suc n) p v = elim (Bool-cases (p.nread == p.nwrite)) [
  | inl empty ↦
      rw empty (refl, omega (arith, (==_iff p.nread p.nwrite).0 empty), v, (refl, refl, refl, refl))
  | inr some_left ↦ rw some_left (
      let (v', fewer, first) = taken_lem p v some_left in
      let (c, l, w, e) = read_loop_lem n (taken p) v' in
      (first ∙ ap (◌∷◌ (p.bytes (p.nread % pipesize))) c, omega (arith, fewer, l), w, e))
]

-- ===== src/Pipe/Session.antt =====
-- One writer of a message and one reader, taking turns in any order.
use mathlib.Core.List.{append_assoc}
use os_2024_project_vm.Base.{
  ℕ, ◌≡◌, refl, ap, sym, ◌∙◌, inl, inr, Bool, true, false, ◌&&◌, List, [], ◌∷◌, ◌++◌, Outcome, ok,
  panic, fault, out_of_fuel, arith, length, ◌==◌, Bool-cases, ◌>>=◌, ◌>>◌,
}
use os_2024_project_vm.Pipe.{
  Pipe, on_nwrite, wakeup, Left, returned, asleep, Got, got, interrupted, waiting, write_loop,
  read_locked, acquire_pipe, release_pipe, pipewrite, piperead,
}
use os_2024_project_vm.Pipe.Ring.{IsValid, contents}
use os_2024_project_vm.Pipe.Transfer.{Wrote, write_loop-Wrote, read_loop_lem}

pub record Session : Type 0 where
  pub pipe : Pipe
  pub pending : List ℕ
  pub received : List ℕ

pub data Turn : Type 0 where
  write_turn : Turn
  read_turn : ℕ → Turn

-- what a writer that sleeps will go on with
abbrev pub left_over : Left → List ℕ
left_over (returned r) = []
left_over (asleep c rest) = rest

abbrev pub got_bytes : Got → List ℕ
got_bytes (got bs) = bs
got_bytes interrupted = []
got_bytes waiting = []

pub session_turn : Turn → Session → Outcome Session
session_turn write_turn s = elim (pipewrite false (length s.pending) s.pending s.pipe) [
  | ok (left, q) ↦ ok (record s { pipe = q; pending = left_over left })
  | panic e ↦ panic e
  | fault ↦ fault
  | out_of_fuel ↦ out_of_fuel
]
session_turn (read_turn n) s = elim (piperead false n s.pipe) [
  | ok (out, q) ↦ ok (record s { pipe = q; received = s.received ++ got_bytes out })
  | panic e ↦ panic e
  | fault ↦ fault
  | out_of_fuel ↦ out_of_fuel
]

pub run : List Turn → Session → Outcome Session
run [] s = ok s
run (t ∷ ts) s = elim (session_turn t s) [
  | ok s' ↦ run ts s'
  | panic e ↦ panic e
  | fault ↦ fault
  | out_of_fuel ↦ out_of_fuel
]

-- The bytes of the message, wherever they are.
abbrev pub message : Session → List ℕ
message s = s.received ++ (contents s.pipe ++ s.pending)

-- The pipe is at rest with its read end open.
pub record IsOpen (p : Pipe) : Type 0 where
  pub valid : IsValid p
  pub unlocked : p.locked ≡ false
  pub reader : p.readopen ≡ true

-- the pipe with its lock held
abbrev held : Pipe → Pipe
held p = record p { locked = true }

held-IsValid : (p : Pipe) → IsOpen p → IsValid (held p)
held-IsValid p o = record {
  nread_in = o.valid.nread_in;
  nwrite_in = o.valid.nwrite_in;
  fits = o.valid.fits;
}

at_rest-IsValid : (q : Pipe) → IsValid q → IsValid (record q { locked = false })
at_rest-IsValid q v = record { nread_in = v.nread_in; nwrite_in = v.nwrite_in; fits = v.fits }

woken-IsValid : (q : Pipe) → IsValid q → IsValid (wakeup on_nwrite q)
woken-IsValid q v = record { nread_in = v.nread_in; nwrite_in = v.nwrite_in; fits = v.fits }

-- The two calls are their bodies between acquire and release.
pipewrite_runs :
    (killed : Bool) (n : ℕ) (bs : List ℕ) (p : Pipe)
    → p.locked ≡ false
    → let (q, left) = write_loop killed n bs (held p) in
      q.locked ≡ true → pipewrite killed n bs p ≡ ok (left, record q { locked = false })
unfolding pipewrite acquire_pipe release_pipe
pipewrite_runs killed n bs p h l = rw (h, ◌>>=◌) (rw (l, ◌>>=◌, ◌>>◌) refl)

piperead_runs :
    (killed : Bool) (n : ℕ) (p : Pipe)
    → p.locked ≡ false
    → let (q, out) = read_locked killed n (held p) in
      q.locked ≡ true → piperead killed n p ≡ ok (out, record q { locked = false })
unfolding piperead acquire_pipe release_pipe
piperead_runs killed n p h l = rw (h, ◌>>=◌) (rw (l, ◌>>=◌, ◌>>◌) refl)

-- pipewrite keeps every byte, in the pipe or with the sleeping writer.
write_turn_lem :
    (n : ℕ) (bs : List ℕ) (p : Pipe)
    → IsOpen p
    → (left : Left) × (q : Pipe) × (pipewrite false n bs p ≡ ok (left, q))
      × IsOpen q
      × (contents q ++ left_over left ≡ contents p ++ bs)
write_turn_lem n bs p o =
    let q : Pipe = (write_loop false n bs (held p)).0 in
    let left : Left = (write_loop false n bs (held p)).1 in
    let w : Wrote false n bs (held p) q left =
      write_loop-Wrote false n bs (held p) (held-IsValid p o) in
    (
      left,
      record q { locked = false },
      pipewrite_runs false n bs p o.unlocked w.ends.2,
      record { valid = at_rest-IsValid q w.valid; unlocked = refl; reader = w.ends.0 ∙ o.reader },
      ap (λ (l : List ℕ). l ++ left_over left) w.held
          ∙ append_assoc (contents p) w.sent (left_over left)
          ∙ ap (◌++◌ (contents p)) (kept q left w),
    )
  where
    kept :
        (q : Pipe) (left : Left)
        → (w : Wrote false n bs (held p) q left) → w.sent ++ left_over left ≡ bs
    kept q left w = ground (arith, w.why, o.reader, w.split)

read_locked_lem :
    (killed : Bool) (n : ℕ) (p : Pipe)
    → IsValid p
    → let (q, out) = read_locked killed n p in
      IsValid q
      × (q.locked ≡ p.locked)
      × (q.readopen ≡ p.readopen)
      × (got_bytes out ++ contents q ≡ contents p)
unfolding read_locked
read_locked_lem killed n p v =
    let (c, l, w, e) = read_loop_lem n p v in
    elim (Bool-cases ((p.nread == p.nwrite) && p.writeopen)) [
      | inl waits ↦ rw waits (elim (Bool-cases killed) [
        | inl k ↦ rw k (v, refl, refl, refl)
        | inr k ↦ rw k (v, refl, refl, refl)
      ])
      | inr reads ↦ rw reads (woken-IsValid _ w, e.2, e.0, sym c)
    ]

-- piperead takes bytes from the pipe and keeps the others.
read_turn_lem :
    (n : ℕ) (p : Pipe)
    → IsOpen p
    → (out : Got) × (q : Pipe) × (piperead false n p ≡ ok (out, q))
      × IsOpen q
      × (got_bytes out ++ contents q ≡ contents p)
read_turn_lem n p o =
    let (v, l, r, kept) = read_locked_lem false n (held p) (held-IsValid p o) in
    (
      _,
      _,
      piperead_runs false n p o.unlocked l,
      record { valid = at_rest-IsValid _ v; unlocked = refl; reader = r ∙ o.reader },
      kept,
    )

-- A turn never panics and moves no byte out of order.
session_turn_lem :
    (t : Turn) (s : Session)
    → IsOpen s.pipe
    → (s' : Session) × (session_turn t s ≡ ok s') × IsOpen s'.pipe × (message s' ≡ message s)
unfolding session_turn
session_turn_lem write_turn s o =
    let (left, q, r, o', kept) = write_turn_lem (length s.pending) s.pending s.pipe o in
    (
      record s { pipe = q; pending = left_over left },
      rw (r, session_turn),
      o',
      ap (◌++◌ s.received) kept,
    )
session_turn_lem (read_turn n) s o =
    let (out, q, r, o', kept) = read_turn_lem n s.pipe o in
    (
      record s { pipe = q; received = s.received ++ got_bytes out },
      rw (r, session_turn),
      o',
      append_assoc s.received (got_bytes out) (contents q ++ s.pending)
          ∙ ap (◌++◌ s.received) (
              sym (append_assoc (got_bytes out) (contents q) s.pending)
              ∙ ap (λ (l : List ℕ). l ++ s.pending) kept),
    )

-- However the turns of a writer and a reader alternate, and however often the writer falls asleep,
-- while the read end is open and nobody is killed: no call panics, and what was received, what the
-- pipe holds and what the writer has left make up the message in its order.
pub run-message :
    (ts : List Turn) (s : Session)
    → IsOpen s.pipe
    → (s' : Session) × (run ts s ≡ ok s') × IsOpen s'.pipe × (message s' ≡ message s)
unfolding run
run-message [] s o = (s, refl, o, refl)
run-message (t ∷ ts) s o =
    let (s₁, r₁, o₁, same₁) = session_turn_lem t s o in
    let (s₂, r₂, o₂, same₂) = run-message ts s₁ o₁ in (s₂, rw (r₁, run) r₂, o₂, same₂ ∙ same₁)

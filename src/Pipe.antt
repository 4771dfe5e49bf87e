-- ===== src/Pipe.antt =====
-- pipe.c: a ring of 512 bytes between readers and writers that sleep on it. A routine runs until it
-- returns or sleeps; a sleeper that is woken goes on by the same call with what it has left to do.
pub mod Ring
pub mod Transfer
pub mod Session
pub mod Close
mod Tests
use os_2024_project_vm.Base.{
  ℕ, zero, suc, ◌+◌, ◌-◌, ◌*◌, ◌/◌, ◌%◌, ◌^◌, Bool, true, false, not, ◌&&◌, ◌||◌, Option, none,
  some, List, [], ◌∷◌, ◌++◌, Outcome, ok, panic, M, pure, ◌>>=◌, ◌>>◌, ltb, leb, ◌==◌,
  if◌then◌else◌,
}
use os_2024_project_vm.Mmu.{uint}
use os_2024_project_vm.Memory.{update}

abbrev pub pipesize : ℕ
pipesize = 512

-- The two channels to sleep on: `&p->nread` and `&p->nwrite`.
pub data Chan : Type 0 where
  on_nread on_nwrite : Chan

-- `struct pipe`. `woken` records the calls of wakeup, newest first; `freed` is the kfree of the pipe.
pub record Pipe : Type 0 where
  pub locked : Bool
  pub bytes : ℕ → ℕ
  pub nread : ℕ
  pub nwrite : ℕ
  pub readopen : Bool
  pub writeopen : Bool
  pub woken : List Chan
  pub freed : Bool

-- How a call leaves: with a result (`none` is -1), or asleep on a channel with `left` to write.
pub data Left : Type 0 where
  returned : Option ℕ → Left
  asleep : Chan → (left : List ℕ) → Left

unfoldable pub acquire_pipe : M Pipe (Unit {0})
acquire_pipe p = if p.locked then panic "acquire" else ok (tt, record p { locked = true })

unfoldable pub release_pipe : M Pipe (Unit {0})
release_pipe p = if p.locked then ok (tt, record p { locked = false }) else panic "release"

abbrev pub wakeup : Chan → Pipe → Pipe
wakeup c p = record p { woken = c ∷ p.woken }

-- What pipealloc stores in the new page; initlock leaves the lock free.
unfoldable pub init_pipe : (ℕ → ℕ) → Pipe
init_pipe garbage = record {
  locked = false;
  bytes = garbage;
  nread = 0;
  nwrite = 0;
  readopen = true;
  writeopen = true;
  woken = [];
  freed = false;
}

unfoldable pub close_end : Bool → Pipe → Pipe
close_end true p = wakeup on_nread (record p { writeopen = false })
close_end false p = wakeup on_nwrite (record p { readopen = false })

-- The lock is released before the page is freed.
unfoldable pub free_if_closed : M Pipe (Unit {0})
free_if_closed p =
    if not p.readopen && not p.writeopen
    then (do release_pipe; (λ q. ok (tt, record q { freed = true }))) p
    else release_pipe p

unfoldable pub pipeclose : Bool → M Pipe (Unit {0})
pipeclose writable = do acquire_pipe; (λ p. ok (tt, close_end writable p)); free_if_closed

-- `p->data[p->nwrite++ % PIPESIZE] = b`
unfoldable pub put_byte : ℕ → Pipe → Pipe
put_byte b p = record p {
  bytes = update p.bytes (p.nwrite % pipesize) b;
  nwrite = uint (p.nwrite + 1);
}

unfoldable pub is_full : Pipe → Bool
is_full p = p.nwrite == uint (p.nread + pipesize)

-- What pipewrite does at a full ring with the bytes `rest` left.
unfoldable pub write_full : Bool → List ℕ → Pipe → Pipe × Left
write_full killed rest p =
    if not p.readopen || killed
    then (p, returned none)
    else (wakeup on_nread p, asleep on_nwrite rest)

-- The loop of pipewrite over the bytes that are left, out of `n`, under the lock.
unfoldable pub write_loop : Bool → ℕ → List ℕ → Pipe → Pipe × Left
write_loop killed n [] p = (wakeup on_nread p, returned (some n))
write_loop killed n (b ∷ bs) p =
    let rest = write_loop killed n bs (put_byte b p) in
    if is_full p then write_full killed (b ∷ bs) p else rest

-- Returning and falling asleep both release the lock; sleep takes it again before it returns.
unfoldable pub pipewrite : Bool → ℕ → List ℕ → M Pipe Left
pipewrite killed n bs = do
  acquire_pipe
  r ← (λ p. let (q, left) = write_loop killed n bs p in ok (left, q))
  release_pipe
  pure r

-- The copying loop of piperead, for at most `n` bytes: the bytes in order.
unfoldable pub read_loop : ℕ → Pipe → Pipe × List ℕ
read_loop zero p = (p, [])
read_loop (suc n) p =
    let q = record p { nread = uint (p.nread + 1) } in
    let (r, bs) = read_loop n q in
    if p.nread == p.nwrite then (p, []) else (r, p.bytes (p.nread % pipesize) ∷ bs)

pub data Got : Type 0 where
  got : List ℕ → Got
  interrupted : Got
  waiting : Got

unfoldable pub read_locked : Bool → ℕ → Pipe → Pipe × Got
read_locked killed n p =
    let (q, bs) = read_loop n p in
    if (p.nread == p.nwrite) && p.writeopen
    then (if killed then (p, interrupted) else (p, waiting))
    else (wakeup on_nwrite q, got bs)

unfoldable pub piperead : Bool → ℕ → M Pipe Got
piperead killed n = do
  acquire_pipe
  r ← (λ p. let (q, out) = read_locked killed n p in ok (out, q))
  release_pipe
  pure r

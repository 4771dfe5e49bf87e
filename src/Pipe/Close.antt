-- ===== src/Pipe/Close.antt =====
-- pipeclose: closing one end, and freeing the pipe with the second.
use os_2024_project_vm.Base.{
  ◌≡◌, refl, inl, inr, Bool, true, false, not, ◌&&◌, ok, arith, Bool-cases, ◌>>=◌, ◌>>◌,
}
use os_2024_project_vm.Pipe.{Pipe, acquire_pipe, release_pipe, close_end, free_if_closed, pipeclose}

-- the pipe after pipeclose
closed : Bool → Pipe → Pipe
closed writable p =
    let q = close_end writable p in
    record q { locked = false; freed = not q.readopen && not q.writeopen }

pipeclose_runs :
    (writable : Bool) (p : Pipe)
    → p.locked ≡ false
    → p.freed ≡ false
    → pipeclose writable p ≡ ok (tt, closed writable p)
unfolding pipeclose acquire_pipe release_pipe close_end free_if_closed closed
pipeclose_runs true p h f = elim (Bool-cases (p.readopen)) [
  | inl r ↦ rw (h, ◌>>=◌, ◌>>◌, r, f) refl
  | inr r ↦ rw (h, ◌>>=◌, ◌>>◌, r) refl
]
pipeclose_runs false p h f = elim (Bool-cases (p.writeopen)) [
  | inl r ↦ rw (h, ◌>>=◌, ◌>>◌, r, f) (ground arith)
  | inr r ↦ rw (h, ◌>>=◌, ◌>>◌, r) (ground arith)
]

-- pipeclose at a pipe that is at rest and not freed closes the end that it is told, keeps the other
-- and the bytes, releases the lock, and frees the pipe exactly when no end is open any more.
pub pipeclose_lem :
    (writable : Bool) (p : Pipe)
    → p.locked ≡ false
    → p.freed ≡ false
    → (q : Pipe) × (pipeclose writable p ≡ ok (tt, q))
      × (q.locked ≡ false)
      × (q.readopen ≡ (writable && p.readopen))
      × (q.writeopen ≡ (not writable && p.writeopen))
      × (q.bytes ≡ p.bytes)
      × (q.nread ≡ p.nread)
      × (q.nwrite ≡ p.nwrite)
      × (q.freed ≡ (not q.readopen && not q.writeopen))
unfolding closed close_end
pipeclose_lem true p h f =
    (closed true p, pipeclose_runs true p h f, refl, refl, refl, refl, refl, refl, refl)
pipeclose_lem false p h f =
    (closed false p, pipeclose_runs false p h f, refl, refl, refl, refl, refl, refl, refl)

-- ===== src/Bio.antt =====
-- bio.c: the cache of disk blocks, a list of buffers in the order of their use. The doubly linked list is a
-- List from `head.next` on.
pub mod Cache
mod Tests
use os_2024_project_vm.Base.{
  ℕ, zero, suc, ◌+◌, ◌-◌, ◌*◌, Bool, true, false, not, ◌&&◌, ◌||◌, Option, none, some, List, [],
  ◌∷◌, Outcome, ok, panic, M, pure, ◌>>=◌, ◌>>◌, ltb, leb, ◌==◌, if◌then◌else◌,
}

abbrev pub nbuf : ℕ
nbuf = 30

-- `struct buf`, without its sleep lock and its data; `id` is its index in bcache.buf, and B_VALID and B_DIRTY
-- are flags of their own.
pub record Buf : Type 0 where
  pub id : ℕ
  pub valid : Bool
  pub dirty : Bool
  pub dev : ℕ
  pub blockno : ℕ
  pub refcnt : ℕ

pub record Bcache : Type 0 where
  pub locked : Bool
  pub bufs : List Buf

unfoldable pub acquire_bcache : M Bcache (Unit {0})
acquire_bcache c = if c.locked then panic "acquire" else ok (tt, record c { locked = true })

unfoldable pub release_bcache : M Bcache (Unit {0})
release_bcache c = if c.locked then ok (tt, record c { locked = false }) else panic "release"

-- The loop of binit from buffer `i` on: each goes in front. Static data is zero.
unfoldable pub binit_loop : ℕ → ℕ → List Buf → List Buf
binit_loop zero i bufs = bufs
binit_loop (suc count) i bufs =
    binit_loop count (i + 1)
      (record { id = i; valid = false; dirty = false; dev = 0; blockno = 0; refcnt = 0 } ∷ bufs)

unfoldable pub binit : Bcache
binit = record { locked = false; bufs = binit_loop nbuf 0 [] }

abbrev pub is_key : ℕ → ℕ → Buf → Bool
is_key dev blockno b = (b.dev == dev) && (b.blockno == blockno)

-- The buffer before those of a search further on.
unfoldable pub behind : Buf → Option (Buf × List Buf) → Option (Buf × List Buf)
behind b none = none
behind b (some (x, bufs)) = some (x, b ∷ bufs)

-- The first loop of bget: the first buffer with the block, with one more reference, and the list with it.
unfoldable pub find_cached : ℕ → ℕ → List Buf → Option (Buf × List Buf)
find_cached dev blockno [] = none
find_cached dev blockno (b ∷ bufs) =
    let rest = find_cached dev blockno bufs in
    let b' = record b { refcnt = b.refcnt + 1 } in
    if is_key dev blockno b then some (b', b' ∷ bufs) else behind b rest

abbrev pub is_free : Buf → Bool
is_free b = (b.refcnt == 0) && not b.dirty

abbrev pub recycled : ℕ → ℕ → Buf → Buf
recycled dev blockno b = record b {
  dev = dev;
  blockno = blockno;
  valid = false;
  dirty = false;
  refcnt = 1;
}

-- The second loop, from the end of the list: the last buffer that is free.
unfoldable pub recycle : ℕ → ℕ → List Buf → Option (Buf × List Buf)
recycle dev blockno [] = none
recycle dev blockno (b ∷ bufs) = elim (recycle dev blockno bufs) [
  | some (x, bufs') ↦ some (x, b ∷ bufs')
  | none ↦ if is_free b then some (recycled dev blockno b, recycled dev blockno b ∷ bufs) else none
]

-- bget up to its acquiresleep: the buffer as it is then.
unfoldable pub bget : ℕ → ℕ → M Bcache Buf
bget dev blockno = do
  acquire_bcache
  b ← (λ c. elim (find_cached dev blockno c.bufs) [
    | some (b, bufs) ↦ ok (b, record c { bufs = bufs })
    | none ↦ elim (recycle dev blockno c.bufs) [
      | some (b, bufs) ↦ ok (b, record c { bufs = bufs })
      | none ↦ panic "bget: no buffers"
    ]
  ])
  release_bcache
  pure b

-- Unlinking the buffer `id`.
unfoldable pub unlink : ℕ → List Buf → List Buf
unlink id [] = []
unlink id (b ∷ bufs) = if b.id == id then bufs else b ∷ unlink id bufs

unfoldable pub drop_ref : ℕ → List Buf → List Buf
drop_ref id [] = []
drop_ref id (b ∷ bufs) =
    if b.id == id then record b { refcnt = b.refcnt - 1 } ∷ bufs else b ∷ drop_ref id bufs

-- The buffer `id` as it is in the list.
unfoldable pub lookup : ℕ → List Buf → Option Buf
lookup id [] = none
lookup id (b ∷ bufs) = if b.id == id then some b else lookup id bufs

-- Without references the buffer moves to the front.
unfoldable pub move_if_free : ℕ → List Buf → List Buf
move_if_free id bufs = elim (lookup id bufs) [
  | none ↦ bufs
  | some b ↦ if b.refcnt == 0 then b ∷ unlink id bufs else bufs
]

-- The rest of brelse after releasesleep, for the buffer `id`, which has a reference.
unfoldable pub brelse : ℕ → M Bcache (Unit {0})
brelse id = do
  acquire_bcache
  (λ c. ok (tt, record c { bufs = move_if_free id (drop_ref id c.bufs) }))
  release_bcache

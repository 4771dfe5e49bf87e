-- ===== src/Fs/Bytes.antt =====
-- fs.c: bytes of a block that are replaced.
use os_2024_project_vm.Base.{
  ℕ, zero, suc, ◌+◌, ◌-◌, ◌*◌, ◌/◌, ◌%◌, ◌<◌, ◌≡◌, ◌≢◌, refl, sym, ap, ◌∙◌, inl, inr, true, false,
  ◌&&◌, arith, ltb, leb, ◌==◌, ==_refl, Bool-cases, if◌then◌else◌,
}
use os_2024_project_vm.Blocks.{Block}
use os_2024_project_vm.Strings.{Bytes}
use os_2024_project_vm.Fs.State.{byte_of, put_byte_of, byte_at, set_byte_at}
use os_2024_project_vm.Fs.Content.{copy_in}

-- A number with the last byte `v`.
above : (h v : ℕ) → v < 256 → (h * 256 + v) / 256 ≡ h
above h v lt = omega arith

last : (h v : ℕ) → v < 256 → (h * 256 + v) % 256 ≡ v
last h v lt = omega arith

byte_of-put_self : (w k v : ℕ) → v < 256 → byte_of (put_byte_of w k v) k ≡ v
unfolding byte_of put_byte_of
byte_of-put_self w zero v lt = last (w / 256) v lt
byte_of-put_self w (suc k) v lt =
    ap (λ x. byte_of x k) (above (put_byte_of (w / 256) k v) (w % 256) (omega arith))
    ∙ byte_of-put_self (w / 256) k v lt

byte_of-put_other : (w k j v : ℕ) → v < 256 → k ≢ j → byte_of (put_byte_of w k v) j ≡ byte_of w j
unfolding byte_of put_byte_of
byte_of-put_other w zero zero v lt ne = absurd (ne refl)
byte_of-put_other w zero (suc j) v lt ne = ap (λ x. byte_of x j) (above (w / 256) v lt)
byte_of-put_other w (suc k) zero v lt ne = last (put_byte_of (w / 256) k v) (w % 256) (omega arith)
byte_of-put_other w (suc k) (suc j) v lt ne =
    ap (λ x. byte_of x j) (above (put_byte_of (w / 256) k v) (w % 256) (omega arith))
    ∙ byte_of-put_other (w / 256) k j v lt (λ e. ne (ap suc e))

byte_at-set :
    (d : Block) (i v j : ℕ)
    → v < 256
    → byte_at (set_byte_at d i v) j ≡ (if i == j then v else byte_at d j)
byte_at-set d i v j lt = elim (Bool-cases (i == j)) [
  | inl e ↦ rw (e, sym (same i j e), ==_refl (i / 4)) (byte_of-put_self (d (i / 4)) (i % 4) v lt)
  | inr e ↦ rw e (elim (Bool-cases (i / 4 == j / 4)) [
    | inr f ↦ rw f refl
    | inl f ↦
        rw (f, same (i / 4) (j / 4) f)
          (byte_of-put_other (d (j / 4)) (i % 4) (j % 4) v lt
            (apart i j e (same (i / 4) (j / 4) f)))
  ])
]
  where
    same : (a b : ℕ) → a == b ≡ true → a ≡ b
    same a b e = ground arith

    apart : (i j : ℕ) → i == j ≡ false → i / 4 ≡ j / 4 → i % 4 ≢ j % 4
    apart i j e f g = ground arith

-- copy_in replaces just the bytes of its range.
pub byte_at-copy_in :
    (m : ℕ) (mem : Bytes) (src o : ℕ) (d : Block) (j : ℕ)
    → ((a : ℕ) → mem a < 256)
    → byte_at (copy_in m mem src o d) j
      ≡ (if leb o j && ltb j (o + m) then mem (src + (j - o)) else byte_at d j)
unfolding copy_in
byte_at-copy_in zero mem src o d j bytes = ground arith
byte_at-copy_in (suc m) mem src o d j bytes = ground (
  arith,
  byte_at-copy_in m mem (src + 1) (o + 1) (set_byte_at d o (mem src)) j bytes,
  byte_at-set d o (mem src) j (bytes src),
  next,
  here,
)
  where
    next : o < j → mem (src + 1 + (j - (o + 1))) ≡ mem (src + (j - o))
    next lt = ap mem (omega arith)

    here : o ≡ j → mem src ≡ mem (src + (j - o))
    here e = ap mem (omega arith)

-- ===== src/Strings/Move.antt =====
-- memset and memmove write what they promise, whatever way they take.
use os_2024_project_vm.Base.{
  ℕ, zero, suc, ◌+◌, ◌-◌, ◌*◌, ◌/◌, ◌%◌, ◌^◌, ◌≤◌, ◌<◌, ◌≡◌, ap, ◌∙◌, inl, inr, ◌⊎◌, ◌&&◌, bit_or,
  arith, ltb, leb, ◌==◌, if◌then◌else◌, Bool-cases,
}
use os_2024_project_vm.Base.Bits.{bit_or_disjoint}
use os_2024_project_vm.Memory.{update}
use os_2024_project_vm.Strings.{Bytes, stosb, stosl, memset, forward, backward, memmove}

stosb_lem :
    (n : ℕ) (m : Bytes) (d c a : ℕ)
    → stosb n m d c a ≡ (if leb d a && ltb a (d + n) then c % 256 else m a)
unfolding stosb
stosb_lem zero m d c a = ground arith
stosb_lem (suc n) m d c a = ground (arith, stosb_lem n (update m d (c % 256)) (d + 1) c a)

-- A word of four equal bytes.
stosl_lem :
    (n : ℕ) (m : Bytes) (d w b a : ℕ)
    → w % 256 ≡ b
    → w / 2 ^ 8 % 256 ≡ b
    → w / 2 ^ 16 % 256 ≡ b
    → w / 2 ^ 24 % 256 ≡ b
    → stosl n m d w a ≡ (if leb d a && ltb a (d + 4 * n) then b else m a)
unfolding stosl
stosl_lem zero m d w b a p q r s = ground arith
stosl_lem (suc n) m d w b a p q r s = ground (
  arith,
  stosl_lem n
      (update
        (update (update (update m d (w % 256)) (d + 1) (w / 2 ^ 8 % 256)) (d + 2)
          (w / 2 ^ 16 % 256))
        (d + 3) (w / 2 ^ 24 % 256))
      (d + 4) w b a p q r s,
)

forward_lem :
    (n : ℕ) (m : Bytes) (d s a : ℕ)
    → (d ≤ s) ⊎ (s + n ≤ d)
    → forward n m d s a ≡ (if leb d a && ltb a (d + n) then m (s + (a - d)) else m a)
unfolding forward
forward_lem zero m d s a h = ground arith
forward_lem (suc n) m d s a h =
    ground (arith, forward_lem n (update m d (m s)) (d + 1) (s + 1) a, next)
  where
    next : d < a → m (s + 1 + (a - (d + 1))) ≡ m (s + (a - d))
    next lt = ap m (omega arith)

backward_lem :
    (n : ℕ) (m : Bytes) (d s a : ℕ)
    → s ≤ d
    → backward n m (d + n) (s + n) a ≡ (if leb d a && ltb a (d + n) then m (s + (a - d)) else m a)
unfolding backward
backward_lem zero m d s a h = ground arith
backward_lem (suc n) m d s a h =
    rw (dec_d, dec_s) (ground (arith, backward_lem n (update m (d + n) (m (s + n))) d s a h))
  where
    dec_d : d + suc n - 1 ≡ d + n
    dec_d = omega arith

    dec_s : s + suc n - 1 ≡ s + n
    dec_s = omega arith

-- memmove puts the `n` bytes that stood at `src` at `dst`, also where the two overlap, and leaves every
-- other byte as it was.
pub memmove_lem :
    (m : Bytes) (dst src n a : ℕ)
    → memmove m dst src n a ≡ (if leb dst a && ltb a (dst + n) then m (src + (a - dst)) else m a)
unfolding memmove
memmove_lem m dst src n a = elim (Bool-cases (ltb src dst && ltb dst (src + n))) [
  | inl overlap ↦ rw overlap (backward_lem n m dst src a (ground arith))
  | inr apart ↦ rw apart (forward_lem n m dst src a (ground arith))
]

word_of :
    (b : ℕ)
    → b < 256
    → bit_or (bit_or (bit_or (b * 2 ^ 24) (b * 2 ^ 16)) (b * 2 ^ 8)) b ≡ b * 0x1010101
word_of b h =
    rw (bit_or_disjoint 24 b (b * 2 ^ 16) (omega arith), two)
      (rw (bit_or_disjoint 16 (b * 257) (b * 2 ^ 8) (omega arith), three)
        (bit_or_disjoint 8 (b * 65793) b (omega arith) ∙ omega arith))
  where
    two : b * 2 ^ 24 + b * 2 ^ 16 ≡ b * 257 * 2 ^ 16
    two = omega arith

    three : b * 257 * 2 ^ 16 + b * 2 ^ 8 ≡ b * 65793 * 2 ^ 8
    three = omega arith

-- memset fills the `n` bytes from `dst` on with the low byte of `c`, by words or by bytes, and leaves
-- every other byte as it was.
pub memset_lem :
    (m : Bytes) (dst c n a : ℕ)
    → memset m dst c n a ≡ (if leb dst a && ltb a (dst + n) then c % 256 else m a)
unfolding memset
memset_lem m dst c n a = elim (Bool-cases ((dst % 4 == 0) && (n % 4 == 0))) [
  | inl words ↦
      rw (words, word_of (c % 256) (omega arith))
        (ground (
          arith,
          stosl_lem (n / 4) m dst (c % 256 * 0x1010101) (c % 256) a (omega arith) (omega arith)
              (omega arith) (omega arith),
        ))
  | inr bytes ↦ rw bytes (stosb_lem n m dst c a)
]

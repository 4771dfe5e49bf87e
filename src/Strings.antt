-- ===== src/Strings.antt =====
-- string.c and ulib.c: memory and string routines over a byte memory. Addresses do not leave the word,
-- and an `unsigned char` is a number below 256.
pub mod Move
pub mod Compare
pub mod Copy
pub mod Length
mod Tests
use os_2024_project_vm.Base.{
  ℕ, zero, suc, ◌+◌, ◌-◌, ◌*◌, ◌/◌, ◌%◌, ◌^◌, Bool, true, false, not, ◌&&◌, ◌||◌, Option, none,
  some, List, [], ◌∷◌, bit_or, ltb, leb, ◌==◌, if◌then◌else◌,
}
use os_2024_project_vm.Base.Int.{ℤ, pos, sub_ℕ}
use os_2024_project_vm.Memory.{update}

abbrev pub Bytes : Type 0
Bytes = ℕ → ℕ

-- `rep stosb` and `rep stosl` of x86.h: a byte, or the four bytes of a word, `cnt` times.
unfoldable pub stosb : ℕ → Bytes → ℕ → ℕ → Bytes
stosb zero m a c = m
stosb (suc cnt) m a c = stosb cnt (update m a (c % 256)) (a + 1) c

unfoldable pub stosl : ℕ → Bytes → ℕ → ℕ → Bytes
stosl zero m a w = m
stosl (suc cnt) m a w =
    stosl cnt
      (update
        (update (update (update m a (w % 256)) (a + 1) (w / 2 ^ 8 % 256)) (a + 2)
          (w / 2 ^ 16 % 256))
        (a + 3) (w / 2 ^ 24 % 256))
      (a + 4) w

-- `c` is the argument as an unsigned word.
unfoldable pub memset : Bytes → ℕ → ℕ → ℕ → Bytes
memset m dst c n =
    let b = c % 256 in
    if (dst % 4 == 0) && (n % 4 == 0)
    then stosl (n / 4) m dst (bit_or (bit_or (bit_or (b * 2 ^ 24) (b * 2 ^ 16)) (b * 2 ^ 8)) b)
    else stosb n m dst c

-- `*d++ = *s++` and `*--d = *--s`
unfoldable pub forward : ℕ → Bytes → ℕ → ℕ → Bytes
forward zero m d s = m
forward (suc n) m d s = forward n (update m d (m s)) (d + 1) (s + 1)

unfoldable pub backward : ℕ → Bytes → ℕ → ℕ → Bytes
backward zero m d s = m
backward (suc n) m d s = backward n (update m (d - 1) (m (s - 1))) (d - 1) (s - 1)

unfoldable pub memmove : Bytes → ℕ → ℕ → ℕ → Bytes
memmove m dst src n =
    if ltb src dst && ltb dst (src + n)
    then backward n m (dst + n) (src + n)
    else forward n m dst src

-- The difference of the first bytes that differ, or 0.
unfoldable pub memcmp : ℕ → Bytes → ℕ → ℕ → ℤ
memcmp zero m s1 s2 = pos 0
memcmp (suc n) m s1 s2 =
    let rest = memcmp n m (s1 + 1) (s2 + 1) in if m s1 == m s2 then rest else sub_ℕ (m s1) (m s2)

unfoldable pub strncmp : ℕ → Bytes → ℕ → ℕ → ℤ
strncmp zero m p q = pos 0
strncmp (suc n) m p q =
    let rest = strncmp n m (p + 1) (q + 1) in
    if not (m p == 0) && (m p == m q) then rest else sub_ℕ (m p) (m q)

-- The last loop of strncpy.
unfoldable pub pad : ℕ → Bytes → ℕ → Bytes
pad zero m s = m
pad (suc n) m s = pad n (update m s 0) (s + 1)

-- `n` is what is left of the count; a count that is not positive is 0.
unfoldable pub strncpy : ℕ → Bytes → ℕ → ℕ → Bytes
strncpy zero m s t = m
strncpy (suc n) m s t =
    let m' = update m s (m t) in
    let rest = strncpy n m' (s + 1) (t + 1) in if m t == 0 then pad n m' (s + 1) else rest

-- The loop of safestrcpy with `n` rounds at most; the end gets a 0.
unfoldable pub safe_loop : ℕ → Bytes → ℕ → ℕ → Bytes
safe_loop zero m s t = update m s 0
safe_loop (suc n) m s t =
    let m' = update m s (m t) in
    let rest = safe_loop n m' (s + 1) (t + 1) in if m t == 0 then update m' (s + 1) 0 else rest

unfoldable pub safestrcpy : Bytes → ℕ → ℕ → ℕ → Bytes
safestrcpy m s t zero = m
safestrcpy m s t (suc n) = safe_loop n m s t

-- strlen looks at most at `fuel` bytes; `none` is a string that does not end within them.
unfoldable pub strlen : ℕ → Bytes → ℕ → ℕ → Option ℕ
strlen zero m s n = none
strlen (suc fuel) m s n =
    let rest = strlen fuel m s (n + 1) in if m (s + n) == 0 then some n else rest

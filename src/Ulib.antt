-- ===== src/Ulib.antt =====
-- ulib.c: the string routines of user programs, on the memory of the process. A result `none` is a string
-- that did not end within the fuel.
use os_2024_project_vm.Base.{
  ℕ, zero, suc, ◌+◌, ◌-◌, ◌*◌, Bool, not, ◌&&◌, ◌||◌, Option, none, some, leb, ◌==◌, if◌then◌else◌,
  List, [], ◌∷◌,
}
use os_2024_project_vm.Base.Int.{ℤ, sub_ℕ}
use os_2024_project_vm.Memory.{update}
use os_2024_project_vm.Mmu.{uint}
use os_2024_project_vm.Strings.{Bytes, stosb}

unfoldable pub strcpy : ℕ → Bytes → ℕ → ℕ → Option Bytes
strcpy zero m s t = none
strcpy (suc fuel) m s t =
    let m' = update m s (m t) in
    let rest = strcpy fuel m' (s + 1) (t + 1) in if m t == 0 then some m' else rest

unfoldable pub strcmp : ℕ → Bytes → ℕ → ℕ → Option ℤ
strcmp zero m p q = none
strcmp (suc fuel) m p q =
    let rest = strcmp fuel m (p + 1) (q + 1) in
    if not (m p == 0) && (m p == m q) then rest else some (sub_ℕ (m p) (m q))

-- The place of `c`; `some none` is the result 0.
unfoldable pub strchr : ℕ → Bytes → ℕ → ℕ → Option (Option ℕ)
strchr zero m s c = none
strchr (suc fuel) m s c =
    let rest = strchr fuel m (s + 1) c in
    if m s == 0 then some none else (if m s == c then some (some s) else rest)

-- The loop of gets with `left` bytes of room, the bytes that read returns one by one being `input`: the
-- memory, and what is left of the input. The end of the input, an error too, ends it.
unfoldable pub gets_loop : ℕ → List ℕ → Bytes → ℕ → Bytes × List ℕ
gets_loop zero input m a = (update m a 0, input)
gets_loop (suc left) [] m a = (update m a 0, [])
gets_loop (suc left) (c ∷ input) m a =
    let m' = update m a c in
    let rest = gets_loop left input m' (a + 1) in
    if (c == 10) || (c == 13) then (update m' (a + 1) 0, input) else rest

unfoldable pub gets : Bytes → ℕ → ℕ → List ℕ → Bytes × List ℕ
gets m buf max input = gets_loop (max - 1) input m buf

-- `'0' <= c && c <= '9'`
abbrev pub is_digit : ℕ → Bool
is_digit c = leb 48 c && leb c 57

-- The int `n` as a word.
unfoldable pub atoi_loop : ℕ → Bytes → ℕ → ℕ → Option ℕ
atoi_loop zero m s n = none
atoi_loop (suc fuel) m s n =
    let rest = atoi_loop fuel m (s + 1) (uint (n * 10 + m s - 48)) in
    if is_digit (m s) then rest else some n

unfoldable pub atoi : ℕ → Bytes → ℕ → Option ℕ
atoi fuel m s = atoi_loop fuel m s 0

unfoldable pub strlen : ℕ → Bytes → ℕ → ℕ → Option ℕ
strlen zero m s n = none
strlen (suc fuel) m s n =
    let rest = strlen fuel m s (n + 1) in if m (s + n) == 0 then some n else rest

unfoldable pub memset : Bytes → ℕ → ℕ → ℕ → Bytes
memset m dst c n = stosb n m dst c

-- A count that is not positive is 0.
unfoldable pub memmove : Bytes → ℕ → ℕ → ℕ → Bytes
memmove m dst src zero = m
memmove m dst src (suc n) = memmove (update m dst (m src)) (dst + 1) (src + 1) n

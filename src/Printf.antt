-- ===== src/Printf.antt =====
-- printf.c: formatted output of user programs, as the list of the bytes that are written.
pub mod Decimal
mod Tests
use os_2024_project_vm.Base.{
  ℕ, zero, suc, ◌+◌, ◌-◌, ◌*◌, ◌/◌, ◌%◌, ◌^◌, Bool, true, false, not, ◌&&◌, ◌||◌, Option, none,
  some, ltb, leb, ◌==◌, if◌then◌else◌, List, [], ◌∷◌, ◌++◌,
}
use os_2024_project_vm.Strings.{Bytes}

-- `digits[d]`, of "0123456789ABCDEF"
abbrev pub digit_char : ℕ → ℕ
digit_char d = if ltb d 10 then 48 + d else 55 + d

-- The loop of printint: the digits of `x` in front of `buf`, which is the filled part of the buffer from its
-- end back, the way it is printed.
unfoldable pub push_digits : ℕ → ℕ → ℕ → List ℕ → Option (List ℕ)
push_digits zero base x buf = none
push_digits (suc fuel) base x buf =
    let rest = push_digits fuel base (x / base) (digit_char (x % base) ∷ buf) in
    if x / base == 0 then some (digit_char (x % base) ∷ buf) else rest

-- `xx` is a word, and negative from 2 ^ 31 on.
abbrev pub takes_sign : ℕ → Bool → Bool
takes_sign xx sgn = sgn && leb (2 ^ 31) xx

abbrev pub with_sign : Bool → Option (List ℕ) → Option (List ℕ)
with_sign neg none = none
with_sign true (some buf) = some (45 ∷ buf)
with_sign false (some buf) = some buf

-- A word has 32 digits at most.
unfoldable pub printint : ℕ → ℕ → Bool → Option (List ℕ)
printint xx base sgn =
    with_sign (takes_sign xx sgn)
      (push_digits 32 base (if takes_sign xx sgn then 2 ^ 32 - xx else xx) [])

-- `while(*s != 0) putc(fd, *s++)`
unfoldable pub print_string : ℕ → Bytes → ℕ → Option (List ℕ)
print_string zero m s = none
print_string (suc fuel) m s =
    let rest = print_string fuel m (s + 1) in
    if m s == 0 then some [] else (elim rest [ none ↦ none | some bytes ↦ some (m s ∷ bytes) ])

-- "(null)"
abbrev pub null_string : List ℕ
null_string = 40 ∷ 110 ∷ 117 ∷ 108 ∷ 108 ∷ 41 ∷ []

-- What is printed, and whether `ap` moves on.
unfoldable pub conversion : ℕ → Bytes → ℕ → ℕ → Option (List ℕ) × Bool
conversion fuel m c arg =
    if c == 100
    then (printint arg 10 true, true)
    else (if (c == 120) || (c == 112)
        then (printint arg 16 false, true)
        else (if c == 115
            then ((if arg == 0 then some null_string else print_string fuel m arg), true)
            else (if c == 99
                then (some (arg % 256 ∷ []), true)
                else (if c == 37 then (some (c ∷ []), false) else (some (37 ∷ c ∷ []), false)))))

abbrev pub then_print : Option (List ℕ) → Option (List ℕ) → Option (List ℕ)
then_print none rest = none
then_print (some out) none = none
then_print (some out) (some bytes) = some (out ++ bytes)

-- The loop of printf from `fmt` on; `state` is whether the last byte was a '%', and `args` the arguments from
-- `ap` on.
unfoldable pub printf_loop : ℕ → Bytes → ℕ → Bool → (ℕ → ℕ) → ℕ → Option (List ℕ)
printf_loop zero m fmt state args ap = none
printf_loop (suc fuel) m fmt false args ap =
    let inside = printf_loop fuel m (fmt + 1) true args ap in
    let rest = printf_loop fuel m (fmt + 1) false args ap in
    if m fmt == 0
    then some []
    else (if m fmt == 37 then inside else then_print (some (m fmt ∷ [])) rest)
printf_loop (suc fuel) m fmt true args ap =
    let c = conversion fuel m (m fmt) (args ap) in
    let rest = printf_loop fuel m (fmt + 1) false args (if c.1 then ap + 1 else ap) in
    if m fmt == 0 then some [] else then_print c.0 rest

unfoldable pub printf : ℕ → Bytes → ℕ → (ℕ → ℕ) → Option (List ℕ)
printf fuel m fmt args = printf_loop fuel m fmt false args 0

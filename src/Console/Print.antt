-- ===== src/Console/Print.antt =====
-- console.c: what cprintf and consolewrite give to consputc, as the list of the bytes.
use os_2024_project_vm.Base.{
  ℕ, zero, suc, ◌+◌, ◌-◌, ◌/◌, ◌%◌, ◌^◌, Bool, true, false, ◌||◌, Option, none, some, Outcome, ok,
  panic, out_of_fuel, ltb, ◌==◌, if◌then◌else◌, List, [], ◌∷◌,
}
use os_2024_project_vm.Strings.{Bytes}
use os_2024_project_vm.Printf.{with_sign, takes_sign, print_string, null_string, then_print}

-- `digits[d]`, of "0123456789abcdef"
abbrev pub small_digit : ℕ → ℕ
small_digit d = if ltb d 10 then 48 + d else 87 + d

-- The loop of printint: the digits of `x` in front of `buf`.
unfoldable pub put_digits : ℕ → ℕ → ℕ → List ℕ → Option (List ℕ)
put_digits zero base x buf = none
put_digits (suc fuel) base x buf =
    let rest = put_digits fuel base (x / base) (small_digit (x % base) ∷ buf) in
    if x / base == 0 then some (small_digit (x % base) ∷ buf) else rest

unfoldable pub console_printint : ℕ → ℕ → Bool → Option (List ℕ)
console_printint xx base sign =
    with_sign (takes_sign xx sign)
      (put_digits 32 base (if takes_sign xx sign then 2 ^ 32 - xx else xx) [])

-- The switch of cprintf: what is printed, and whether `argp` moves on.
unfoldable pub cprintf_case : ℕ → Bytes → ℕ → ℕ → Option (List ℕ) × Bool
cprintf_case fuel m c arg =
    if c == 100
    then (console_printint arg 10 true, true)
    else (if (c == 120) || (c == 112)
        then (console_printint arg 16 false, true)
        else (if c == 115
            then ((if arg == 0 then some null_string else print_string fuel m arg), true)
            else (if c == 37 then (some (37 ∷ []), false) else (some (37 ∷ c ∷ []), false))))

-- The loop of cprintf from `fmt` on.
unfoldable pub cprintf_loop : ℕ → Bytes → ℕ → (ℕ → ℕ) → ℕ → Option (List ℕ)
cprintf_loop zero m fmt args argp = none
cprintf_loop (suc fuel) m fmt args argp =
    let plain = cprintf_loop fuel m (fmt + 1) args argp in
    let c = cprintf_case fuel m (m (fmt + 1)) (args argp) in
    let rest = cprintf_loop fuel m (fmt + 2) args (if c.1 then argp + 1 else argp) in
    if m fmt == 0
    then some []
    else (if m fmt == 37
        then (if m (fmt + 1) == 0 then some [] else then_print c.0 rest)
        else then_print (some (m fmt ∷ [])) plain)

abbrev pub or_fuel : Option (List ℕ) → Outcome (List ℕ)
or_fuel none = out_of_fuel
or_fuel (some out) = ok out

unfoldable pub cprintf : ℕ → Bytes → ℕ → (ℕ → ℕ) → Outcome (List ℕ)
cprintf fuel m fmt args =
    if fmt == 0 then panic "null fmt" else or_fuel (cprintf_loop fuel m fmt args 0)

-- The bytes of the buffer at `buf`, and the count.
unfoldable pub console_bytes : ℕ → Bytes → ℕ → List ℕ
console_bytes zero m buf = []
console_bytes (suc n) m buf = m buf ∷ console_bytes n m (buf + 1)

unfoldable pub consolewrite : Bytes → ℕ → ℕ → List ℕ × ℕ
consolewrite m buf n = (console_bytes n m buf, n)
